-- ===== src/Examples/Sending.antt =====
-- BDK's transaction for two silent payments, and the PSBTs that are made of it.
use kiss_bdk.Psbt.{Output, V0Psbt, V0Input, V0Output, Transaction, TxOut, Psbt}
use kiss_bdk.Bitcoin.{Bitcoin}
use kiss_bdk.Sp.{SilentPaymentAddress, sp_v0_info}
use kiss_bdk.SpSend.Placeholder.{
  SpOutput, placeholder_script, resolve_sp_outputs, resolve_from, find_unclaimed,
}
use kiss_bdk.SpSend.Placeholder.Laws.{IsResolved, Apart, resolve_sp_outputs-Apart}
use kiss_bdk.SpSend.Build.{
  assemble, to_v0, flat_input, flat_output, build_inputs, build_input, build_outputs, build_output,
  check_indices, find_sp,
}
use kiss_bdk.SpSend.Build.Laws.{
  IsAssembled, ClearsFlags, UsesFallback, IsFlat, assemble-IsAssembled, to_v0-IsFlat,
  to_v0-assemble,
}
use kiss_bdk.Examples.Toy.{toy, coin, scan_key, spend_key}
use kiss_bdk.Common.{
  ℕ, Bytes, refl, ◌≡◌, some, none, Option, false, ok, List, [], ◌∷◌, map, All, replicate, length,
  ◌>>◌, ◌>>=◌, Bytes-discrete,
}

abbrev receiver : SilentPaymentAddress
receiver = record { scan = scan_key; spend = spend_key; mainnet = false }

abbrev stand_in : TxOut
stand_in = record { value = 20000; script_pubkey = 0x51 ∷ 0x20 ∷ spend_key }

abbrev bdk_change : TxOut
bdk_change = record { value = 9000; script_pubkey = 0x51 ∷ 0x20 ∷ 6 ∷ [] }

abbrev bdk_tx : Transaction
bdk_tx = record {
  version = 2;
  lock_time = 7;
  input =
      record { previous_output = record { txid = 5 ∷ []; vout = 0 }; sequence = 1; witness = [] }
      ∷ [];
  output = stand_in ∷ bdk_change ∷ stand_in ∷ [];
}

abbrev bdk_input : V0Input
bdk_input = record {
  non_witness_utxo = coin.non_witness_utxo;
  witness_utxo = coin.witness_utxo;
  partial_sigs = [];
  tap_key_sig = none;
  bip32_derivation = [];
  final_script_sig = none;
  final_script_witness = none;
  unknown = (record { type_value = 0x20; key = [] }, 1 ∷ []) ∷ [];
}

abbrev bdk_output : V0Output
bdk_output = record { bip32_derivation = [] }

abbrev bdk_psbt : V0Psbt
bdk_psbt = record {
  unsigned_tx = bdk_tx;
  inputs = bdk_input ∷ [];
  outputs = bdk_output ∷ bdk_output ∷ bdk_output ∷ [];
}

abbrev two_payments : List SpOutput
two_payments =
    record { index = 0; recipient = receiver } ∷ record { index = 2; recipient = receiver } ∷ []

both_resolved : resolve_sp_outputs toy bdk_tx (receiver ∷ receiver ∷ []) ≡ ok two_payments
unfolding resolve_sp_outputs resolve_from find_unclaimed placeholder_script Bytes-discrete ◌>>=◌
both_resolved = refl

resolve_sp_outputs-Apart_example :
    (map (λ sp. sp.recipient) two_payments ≡ receiver ∷ receiver ∷ [])
    × All (IsResolved toy bdk_tx.output (replicate (length bdk_tx.output) false)) two_payments
    × Apart toy two_payments
resolve_sp_outputs-Apart_example =
    resolve_sp_outputs-Apart toy bdk_tx (receiver ∷ receiver ∷ []) two_payments both_resolved

abbrev close : Psbt → Option Psbt
close psbt = some (record psbt { global = record (psbt.global) { tx_modifiable_flags = 0 } })

abbrev no_bytes : Psbt → Bytes
no_bytes psbt = []

close-ClearsFlags : ClearsFlags close no_bytes
close-ClearsFlags psbt built h = cc

abbrev payments_v2 : Psbt
payments_v2 = record {
  global = record {
    tx_version = 2;
    fallback_lock_time = some 7;
    input_count = 1;
    output_count = 3;
    tx_modifiable_flags = 0;
    sp_ecdh_shares = [];
    sp_dleq_proofs = [];
    xpubs = [];
    proprietaries = [];
    unknowns = [];
  };
  inputs = record coin { unknowns = bdk_input.unknown } ∷ [];
  outputs = paid_output ∷ change_output ∷ paid_output ∷ [];
}
  where
    paid_output : Output
    paid_output = record {
      amount = 20000;
      script_pubkey = [];
      sp_v0_info = some (sp_v0_info receiver);
      sp_v0_label = none;
      bip32_derivations = [];
    }

    change_output : Output
    change_output = record {
      amount = 9000;
      script_pubkey = 0x51 ∷ 0x20 ∷ 6 ∷ [];
      sp_v0_info = none;
      sp_v0_label = none;
      bip32_derivations = [];
    }

payments_assembled : assemble close no_bytes bdk_psbt two_payments ≡ ok payments_v2
unfolding assemble check_indices build_inputs build_input build_outputs build_output find_sp ◌>>=◌
    ◌>>◌
payments_assembled = refl

assemble-IsAssembled_example : IsAssembled close no_bytes bdk_psbt two_payments payments_v2
assemble-IsAssembled_example =
    assemble-IsAssembled close no_bytes bdk_psbt two_payments payments_v2 close-ClearsFlags refl
      (refl, tt) payments_assembled

-- The lock time is the fallback.
abbrev calm : Bitcoin
calm = record toy { determine_lock_time = λ fallback required. fallback }

calm-UsesFallback : UsesFallback calm
calm-UsesFallback lock_time required none_required = refl

-- The same without silent payment outputs.
abbrev plain_v2 : Psbt
plain_v2 = record payments_v2 {
  outputs =
      plain 20000 (0x51 ∷ 0x20 ∷ spend_key)
      ∷ plain 9000 (0x51 ∷ 0x20 ∷ 6 ∷ [])
      ∷ plain 20000 (0x51 ∷ 0x20 ∷ spend_key)
      ∷ [];
}
  where
    plain : ℕ → Bytes → Output
    plain amount script = record {
      amount = amount;
      script_pubkey = script;
      sp_v0_info = none;
      sp_v0_label = none;
      bip32_derivations = [];
    }

plain_assembled : assemble close no_bytes bdk_psbt [] ≡ ok plain_v2
unfolding assemble check_indices build_inputs build_input build_outputs build_output find_sp ◌>>=◌
    ◌>>◌
plain_assembled = refl

abbrev flattened : V0Psbt
flattened = record {
  unsigned_tx = bdk_tx;
  inputs = map flat_input plain_v2.inputs;
  outputs = map flat_output plain_v2.outputs;
}

to_v0-assemble_example : to_v0 calm plain_v2 ≡ ok flattened
to_v0-assemble_example =
    to_v0-assemble calm close no_bytes bdk_psbt plain_v2 close-ClearsFlags calm-UsesFallback refl
      (refl, tt) (refl, tt) plain_assembled

to_v0-IsFlat_example : IsFlat calm plain_v2 flattened
to_v0-IsFlat_example = to_v0-IsFlat calm plain_v2 flattened to_v0-assemble_example
