-- ===== src/Examples/Proposals.antt =====
-- A proposal that the other wallet reads, and the transaction that it makes of it.
use kiss_bdk.Shared.Input.{
  adopt_input, check_input, input_key, prevout, check_previous_transaction, check_sighash_type,
  adopt_output,
}
use kiss_bdk.Shared.Terms.{check_terms, check_amount, no_coin_twice, no_coin_twice_from}
use kiss_bdk.Psbt.{
  V0Psbt, Psbt, Output, Input, OutPoint-discrete, OptionBytes-discrete, TxOut-discrete,
}
use kiss_bdk.Sp.{sp_v0_info}
use kiss_bdk.Sp.Address
use kiss_bdk.Shared.Message.{Message, proposal}
use kiss_bdk.Shared.Wire.{Wire, decode, read_psbt}
use kiss_bdk.Shared.Proposal.{
  Proposal, read_proposal, read_half, read_inputs, read_outputs, payment_output,
}
use kiss_bdk.Shared.Proposal.Laws.{IsChecked, read_proposal-IsChecked}
use kiss_bdk.Examples.Toy.{toy, coin, global}
use kiss_bdk.Examples.Sessions.{wire}
use kiss_bdk.Examples.Verifying.{zero_text, zero_address}
use kiss_bdk.Common.{
  ℕ, refl, ◌≡◌, some, none, ok, [], ◌∷◌, replicate, if◌then◌else◌, same, ◌>>◌, ◌>>=◌,
  Bytes-discrete, codes,
}

abbrev ordinary : ℕ → Output
ordinary amount = record {
  amount = amount;
  script_pubkey = 0x51 ∷ 0x20 ∷ 6 ∷ [];
  sp_v0_info = none;
  sp_v0_label = none;
  bip32_derivations = [];
}

abbrev paying : ℕ → Output
paying amount = record (ordinary amount) { script_pubkey = []; sp_v0_info = some (replicate 66 0) }

abbrev first_half : Psbt
first_half = record {
  global = record global { output_count = 2; tx_modifiable_flags = 3 };
  inputs = coin ∷ [];
  outputs = paying 40000 ∷ ordinary 29500 ∷ [];
}

abbrev other_coin : Input
other_coin = record coin { spent_output_index = 1 }

abbrev second_half : Psbt
second_half = record {
  global = record global { output_count = 2 };
  inputs = other_coin ∷ [];
  outputs = paying 20000 ∷ ordinary 29700 ∷ [];
}

-- One text stands for the proposal, and every other for the second half.
abbrev two_halves : Wire
two_halves = record wire {
  deserialize = λ bytes. if same bytes (0 ∷ []) then some first_half else some second_half;
}

abbrev offer : Message
offer = record {
  v = 1;
  session = 7 ∷ [];
  kind = proposal;
  from = 1 ∷ [];
  psbt = some (0 ∷ []);
  to = some (codes "tsp1q");
  sats = some 40000;
  fee_rate = some 2;
  txid = none;
}

abbrev agreed : Proposal
agreed = record {
  session = 7 ∷ [];
  from = 1 ∷ [];
  to = codes "tsp1q";
  recipient = zero_address;
  sats = 40000;
  fee_rate = 2;
  psbt = first_half;
}

offer_read : read_proposal toy two_halves zero_text offer (2 ∷ []) ≡ ok agreed
unfolding read_proposal read_half read_inputs read_outputs payment_output check_terms check_amount
    no_coin_twice no_coin_twice_from decode read_psbt adopt_input check_input input_key prevout
    check_previous_transaction check_sighash_type adopt_output sp_v0_info Address.decode
    Address.network Address.versioned Address.from_base32 Address.regroup Bytes-discrete
    OptionBytes-discrete TxOut-discrete OutPoint-discrete ◌>>=◌ ◌>>◌
offer_read = refl

read_proposal-IsChecked_example : IsChecked toy two_halves zero_text offer (2 ∷ []) agreed
read_proposal-IsChecked_example =
    read_proposal-IsChecked toy two_halves zero_text offer (2 ∷ []) agreed offer_read

abbrev half_of_bdk : V0Psbt
half_of_bdk = record {
  unsigned_tx = record {
    version = 2;
    lock_time = 0;
    input =
        record { previous_output = record { txid = 5 ∷ []; vout = 1 }; sequence = 1; witness = [] }
        ∷ [];
    output =
        record { value = 20000; script_pubkey = 0x51 ∷ 0x20 ∷ replicate 33 0 }
        ∷ record { value = 29700; script_pubkey = 0x51 ∷ 0x20 ∷ 6 ∷ [] }
        ∷ [];
  };
  inputs =
      record {
        non_witness_utxo = coin.non_witness_utxo;
        witness_utxo = coin.witness_utxo;
        partial_sigs = [];
        tap_key_sig = none;
        bip32_derivation = [];
        final_script_sig = none;
        final_script_witness = none;
        unknown = [];
      }
      ∷ [];
  outputs = record { bip32_derivation = [] } ∷ record { bip32_derivation = [] } ∷ [];
}

abbrev both_halves : Psbt
both_halves = record {
  global = record global { input_count = 2; output_count = 3 };
  inputs = coin ∷ other_coin ∷ [];
  outputs = paying 40000 ∷ ordinary 29500 ∷ ordinary 29753 ∷ [];
}
