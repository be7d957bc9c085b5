-- ===== src/Examples/Spending.antt =====
-- A payment from two silent payment coins, one of them too small to be worth its fee.
use kiss_bdk.Psbt.{V0Psbt, OutPoint-discrete}
use kiss_bdk.SpSpend.{
  SpCoin, select, select_from, needed, sp_inputs, found_inputs, coin_at, verify_signatures,
  verify_each, verify_signature, witness_prevouts,
}
use kiss_bdk.SpSpend.Laws.{IsEnough, select-IsEnough}
use kiss_bdk.SpSpend.Owned.{Spends, verify_signatures-Owned, Rises, AllVerified}
use kiss_bdk.Examples.Toy.{toy}
use kiss_bdk.Common.{
  ℕ, refl, ◌≡◌, some, none, ok, List, [], ◌∷◌, All, length, ◌>>◌, ◌>>=◌, Bytes, ◌⊎◌,
}

abbrev owned_coin : SpCoin
owned_coin = record {
  outpoint = record { txid = 5 ∷ []; vout = 0 };
  amount = 60000;
  height = 100;
  tweak = 2 ∷ [];
  script_pubkey = 0x51 ∷ 0x20 ∷ 9 ∷ [];
  output_key = 9 ∷ [];
}

abbrev dust_coin : SpCoin
dust_coin = record owned_coin { amount = 100; outpoint = record { txid = 5 ∷ []; vout = 1 } }

-- One satoshi for a weight unit.
abbrev fee_of : ℕ → ℕ
fee_of weight = weight

one_chosen : select fee_of (dust_coin ∷ owned_coin ∷ []) 50000 4 ≡ ok (owned_coin ∷ [])
unfolding select select_from needed ◌>>=◌
one_chosen = refl

select-IsEnough_example : IsEnough fee_of 50000 4 (dust_coin ∷ owned_coin ∷ []) (owned_coin ∷ [])
select-IsEnough_example =
    select-IsEnough fee_of (dust_coin ∷ owned_coin ∷ []) 50000 4 (owned_coin ∷ []) one_chosen

abbrev spending : V0Psbt
spending = record {
  unsigned_tx = record {
    version = 2;
    lock_time = 0;
    input = record { previous_output = owned_coin.outpoint; sequence = 1; witness = [] } ∷ [];
    output = record { value = 50000; script_pubkey = 0 ∷ [] } ∷ [];
  };
  inputs =
      record {
        non_witness_utxo = none;
        witness_utxo = some (record { value = 60000; script_pubkey = 0x51 ∷ 0x20 ∷ 9 ∷ [] });
        partial_sigs = [];
        tap_key_sig = some (record { signature = 1 ∷ []; sighash_type = 0 });
        bip32_derivation = [];
        final_script_sig = none;
        final_script_witness = none;
        unknown = [];
      }
      ∷ [];
  outputs = [];
}

abbrev owned_input : List (ℕ × Bytes)
owned_input = (0, 9 ∷ []) ∷ []

coin_found : sp_inputs spending (owned_coin ∷ []) ≡ ok owned_input
unfolding sp_inputs found_inputs coin_at OutPoint-discrete ◌>>◌
coin_found = refl

signature_passes : verify_signatures toy spending owned_input ≡ ok tt
unfolding verify_signatures verify_each verify_signature witness_prevouts ◌>>◌ ◌>>=◌
signature_passes = refl

verify_signatures-Owned_example :
    (length owned_input ≡ length (owned_coin ∷ []))
    × Rises owned_input
    × All (Spends spending.unsigned_tx.input (owned_coin ∷ [])) owned_input
    × ((owned_input ≡ []) ⊎ AllVerified toy spending owned_input)
verify_signatures-Owned_example =
    verify_signatures-Owned toy spending (owned_coin ∷ []) owned_input coin_found signature_passes
