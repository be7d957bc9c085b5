-- ===== src/SpSpend.antt =====
-- src/spspend.rs: spending silent payment outputs (BIP-376): which coins are taken, what the signer is
-- told, and what is checked before a signature becomes a witness.
pub mod Laws
pub mod Owned
use kiss_bdk.Psbt.{
  OutPoint, TxOut, TxIn, Transaction, Signature, V0Psbt, V0Input, RawKey, KeySource,
  OutPoint-discrete,
}
use kiss_bdk.Bitcoin.{Bitcoin}
use kiss_bdk.Shared.Fee.{u64_mod, checked_add}
use kiss_bdk.SpSend.Build.{psbt_in_sp_tweak, psbt_in_sp_spend_bip32_derivation}
use kiss_bdk.Common.{
  ℕ, zero, suc, Bytes, Option, none, some, List, [], ◌∷◌, ◌++◌, Result, ok, err, Bool, true, false,
  if◌then◌else◌, ◌==◌, ◌+◌, ◌*◌, ◌%◌, ◌^◌, ◌>>=◌, ◌>>◌, leb, ltb, same, length, map, ◌||◌, guard,
  refuse, or_fail, context, holds, get_elem?, set, le_bytes, ◌&&◌,
}

pub data Error : Type 0 where
  over_the_cap left_the_curve does_not_rederive : Error
  balance_overflow amount_overflow all_dust balance_short : Error
  coins_missing : Error
  no_witness_utxo no_signature narrow_sighash no_sighash bad_signature no_such_input : ℕ → Error

-- One whole input, and everything that is not an input, generously.
abbrev pub input_weight_of_coin : ℕ
input_weight_of_coin = (36 + 4 + 1) * 4 + 1 + 1 + 64

abbrev pub overhead_weight : ℕ
overhead_weight = (4 + 4 + 1 + 1 + 43 + 31) * 4 + 2

abbrev pub max_money_sats : ℕ
max_money_sats = 2100000000000000

-- A row of the store (src/spstore.rs).
pub record StoredOut : Type 0 where
  pub outpoint : OutPoint
  pub tweak : Bytes
  pub script_pubkey : Bytes
  pub amount : ℕ
  pub label : Option ℕ
  pub height : ℕ

-- A stored output whose tweak has been proven to reproduce its own script.
pub record SpCoin : Type 0 where
  pub outpoint : OutPoint
  pub amount : ℕ
  pub height : ℕ
  pub tweak : Bytes
  pub script_pubkey : Bytes
  pub output_key : Bytes

abbrev pub txout : SpCoin → TxOut
txout coin = record { value = coin.amount; script_pubkey = coin.script_pubkey }

abbrev pub p2tr_script : Bytes → Bytes
p2tr_script key = 0x51 ∷ 0x20 ∷ key

-- `m/352h/1h/0h/0h/0`, with the bit of a hardened element.
unfoldable pub spend_origin : Bytes → KeySource
spend_origin master = record {
  fingerprint = master;
  path = (352 + 2 ^ 31) ∷ (1 + 2 ^ 31) ∷ 2 ^ 31 ∷ 2 ^ 31 ∷ 0 ∷ [];
}

abbrev pub path_bytes : List ℕ → Bytes
path_bytes [] = []
path_bytes (child ∷ path) = le_bytes 4 child ++ path_bytes path

-- The fingerprint, then one little-endian word per path element.
unfoldable pub origin_value : KeySource → Bytes
origin_value origin = origin.fingerprint ++ path_bytes origin.path

-- The input for one coin, with its two raw fields in key order, and nothing else.
unfoldable pub psbt_input : SpCoin → Bytes → KeySource → V0Input
psbt_input coin spend origin = record {
  non_witness_utxo = none;
  witness_utxo = some (txout coin);
  partial_sigs = [];
  tap_key_sig = none;
  bip32_derivation = [];
  final_script_sig = none;
  final_script_witness = none;
  unknown =
      (record { type_value = psbt_in_sp_spend_bip32_derivation; key = spend }, origin_value origin)
      ∷ (record { type_value = psbt_in_sp_tweak; key = [] }, coin.tweak)
      ∷ [];
}

-- The coin at an outpoint; of two with one outpoint the later is in the map.
unfoldable pub coin_at : OutPoint → List SpCoin → Option SpCoin
coin_at o [] = none
coin_at o (coin ∷ coins) = elim (coin_at o coins) as (λ x. Option SpCoin) [
  | some later ↦ some later
  | none ↦ if holds (OutPoint-discrete coin.outpoint o) then some coin else none
]

-- The inputs that are silent payments, with their keys.
abbrev pub found_at : ℕ → Option SpCoin → List (ℕ × Bytes) → List (ℕ × Bytes)
found_at index none rest = rest
found_at index (some coin) rest = (index, coin.output_key) ∷ rest

unfoldable pub found_inputs : ℕ → List TxIn → List SpCoin → List (ℕ × Bytes)
found_inputs index [] coins = []
found_inputs index (txin ∷ txins) coins =
    found_at index (coin_at txin.previous_output coins) (found_inputs (suc index) txins coins)

unfoldable pub sp_inputs : V0Psbt → List SpCoin → Result Error (List (ℕ × Bytes))
sp_inputs psbt coins = do
  let found = found_inputs 0 psbt.unsigned_tx.input coins
  guard (length found == length coins) coins_missing
  ok found

-- Every input's witness UTXO.
unfoldable pub witness_prevouts : ℕ → List V0Input → Result Error (List TxOut)
witness_prevouts index [] = ok []
witness_prevouts index (input ∷ inputs) = do
  utxo ← or_fail input.witness_utxo (no_witness_utxo index)
  rest ← witness_prevouts (suc index) inputs
  ok (utxo ∷ rest)

-- Why the candidates do not do, when the loop ends.
abbrev pub shortage : ℕ → ℕ → Error
shortage chosen skipped = if chosen == 0 && ltb 0 skipped then all_dust else balance_short

-- rust-bitcoin's `fee_rate * weight`, for the rate of one spend, is the parameter.
module _ (fee_for : ℕ → ℕ) where
  -- What `n` inputs must cover. The sum of two amounts panics on overflow.
  unfoldable pub needed : ℕ → ℕ → Result Error ℕ
  needed target inputs =
      or_fail
        (checked_add target (fee_for ((overhead_weight + input_weight_of_coin * inputs) % u64_mod)))
        amount_overflow

  -- The loop over the candidates, with how many are chosen, their total and how many are skipped.
  unfoldable pub select_from : ℕ → ℕ → List SpCoin → ℕ → ℕ → ℕ → Result Error (List SpCoin)
  select_from target max_inputs [] chosen total skipped = err (shortage chosen skipped)
  select_from target max_inputs (coin ∷ candidates) chosen total skipped =
      let past = select_from target max_inputs candidates chosen total (suc skipped) in
      if leb coin.amount (fee_for input_weight_of_coin)
      then past
      else (if chosen == max_inputs then err (shortage chosen skipped) else (do
        sum ← or_fail (checked_add total coin.amount) balance_overflow
        wanted ← needed target (suc chosen)
        (if leb wanted sum then ok (coin ∷ []) else (do
          rest ← select_from target max_inputs candidates (suc chosen) sum skipped
          ok (coin ∷ rest)))))

  -- Coins for a payment, oldest first.
  unfoldable pub select : List SpCoin → ℕ → ℕ → Result Error (List SpCoin)
  select candidates target max_inputs = select_from target max_inputs candidates 0 0 0

module _ (b : Bitcoin) where
  -- `B_spend + t·G`, x-only.
  unfoldable pub output_key : Bytes → Bytes → Result Error Bytes
  output_key spend tweak = do
    point ← or_fail (b.add_exp_tweak spend tweak) left_the_curve
    ok (b.x_only point)

  -- `SpCoin::checked`
  unfoldable pub checked : StoredOut → Bytes → Result Error SpCoin
  checked stored spend = do
    refuse (ltb max_money_sats stored.amount) over_the_cap
    key ← output_key spend stored.tweak
    guard (same (p2tr_script key) stored.script_pubkey) does_not_rederive
    ok (record {
      outpoint = stored.outpoint;
      amount = stored.amount;
      height = stored.height;
      tweak = stored.tweak;
      script_pubkey = stored.script_pubkey;
      output_key = key;
    })

  -- One signature: over the whole transaction, and of the key that owns the coin.
  unfoldable pub verify_signature :
      Transaction → List V0Input → List TxOut → ℕ → Bytes → Result Error (Unit {0})
  verify_signature tx inputs prevouts index key = do
    input ← or_fail (get_elem? inputs index) (no_such_input index)
    signature ← or_fail input.tap_key_sig (no_signature index)
    guard (signature.sighash_type == 0 || signature.sighash_type == 1) (narrow_sighash index)
    sighash ←
        or_fail (b.taproot_signature_hash tx index prevouts signature.sighash_type)
          (no_sighash index)
    guard (b.verify_schnorr sighash signature.signature key) (bad_signature index)

  unfoldable pub verify_each :
      Transaction → List V0Input → List TxOut → List (ℕ × Bytes) → Result Error (Unit {0})
  verify_each tx inputs prevouts [] = ok tt
  verify_each tx inputs prevouts ((index, key) ∷ sp) = do
    verify_signature tx inputs prevouts index key
    verify_each tx inputs prevouts sp

  unfoldable pub verify_signatures : V0Psbt → List (ℕ × Bytes) → Result Error (Unit {0})
  verify_signatures psbt [] = ok tt
  verify_signatures psbt (first ∷ sp) = do
    prevouts ← witness_prevouts 0 psbt.inputs
    verify_each psbt.unsigned_tx psbt.inputs prevouts (first ∷ sp)

  -- Each signature becomes a witness; the raw fields have no use any more.
  unfoldable pub finalize_inputs : List V0Input → List (ℕ × Bytes) → Result Error (List V0Input)
  finalize_inputs inputs [] = ok inputs
  finalize_inputs inputs ((index, key) ∷ sp) = do
    input ← or_fail (get_elem? inputs index) (no_such_input index)
    signature ← or_fail input.tap_key_sig (no_signature index)
    finalize_inputs
        (set inputs index (record input {
          final_script_witness = some (b.p2tr_witness signature);
          tap_key_sig = none;
          unknown = [];
        }))
        sp

  unfoldable pub finalize : V0Psbt → List (ℕ × Bytes) → Result Error (ℕ × V0Psbt)
  finalize psbt sp = do
    inputs ← finalize_inputs psbt.inputs sp
    ok (length sp, record psbt { inputs = inputs })
