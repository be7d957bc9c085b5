-- ===== src/Shared/Signatures.antt =====
-- src/shared.rs, "Signatures": the transaction that the signers sign, and the check of the signature
-- that an input carries.
use kiss_bdk.Common.{
  map, ◌>>=◌, ◌>>◌, ℕ, suc, Bytes, same, Bool, true, false, not, ◌&&◌, ◌||◌, Option, none, some,
  List, [], ◌∷◌, Result, ok, guard, refuse, or_fail, ◌==◌, if◌then◌else◌, get_elem?,
}
use kiss_bdk.Psbt.{Input, Output, Psbt, TxOut, TxIn, Transaction, Signature, PublicKey}
use kiss_bdk.Bitcoin.{Bitcoin}
use kiss_bdk.Shared.Error.{
  Error, no_lock_time, no_sequence, output_without_script, taproot_on_p2wpkh, several_signatures,
  wrong_key, not_sighash_all, ecdsa_on_taproot, not_whole_transaction, no_sighash, bad_signature,
  index_out_of_range,
}
use kiss_bdk.Shared.Input.{input_key, outpoint, is_empty, prevout}

unfoldable pub transaction_inputs : ℕ → List Input → Result Error (List TxIn)
transaction_inputs i [] = ok []
transaction_inputs i (entry ∷ entries) = do
  sequence ← or_fail entry.sequence (no_sequence i)
  rest ← transaction_inputs (suc i) entries
  ok (record { previous_output = outpoint entry; sequence = sequence; witness = [] } ∷ rest)

unfoldable pub transaction_outputs : ℕ → List Output → Result Error (List TxOut)
transaction_outputs i [] = ok []
transaction_outputs i (entry ∷ entries) = do
  refuse (is_empty entry.script_pubkey) (output_without_script i)
  rest ← transaction_outputs (suc i) entries
  ok (record { value = entry.amount; script_pubkey = entry.script_pubkey } ∷ rest)

unfoldable pub all_prevouts : ℕ → List Input → Result Error (List TxOut)
all_prevouts i [] = ok []
all_prevouts i (input ∷ inputs) = do
  utxo ← prevout i input
  rest ← all_prevouts (suc i) inputs
  ok (utxo ∷ rest)

abbrev pub is_some {ℓ} : {A : Type ℓ} → Option A → Bool
is_some none = false
is_some (some a) = true

unfoldable pub carries_signature : Input → Bool
carries_signature input = not (is_empty input.partial_sigs) || is_some input.tap_key_sig

-- Which inputs carry a signature, from the position `i` on.
unfoldable pub signed_from : ℕ → List Input → List ℕ
signed_from i [] = []
signed_from i (input ∷ inputs) =
    let rest = signed_from (suc i) inputs in if carries_signature input then i ∷ rest else rest

unfoldable pub signed_inputs : Psbt → List ℕ
signed_inputs state = signed_from 0 state.inputs

abbrev pub lock_requirement : Input → Option ℕ × Option ℕ
lock_requirement input = (input.min_time, input.min_height)

module _ (b : Bitcoin) where
  -- The transaction that the signers sign, once every output script is known.
  unfoldable pub unsigned_transaction : Psbt → Result Error Transaction
  unsigned_transaction psbt = do
    lock_time ←
        or_fail
          (b.determine_lock_time psbt.global.fallback_lock_time (map lock_requirement psbt.inputs))
          no_lock_time
    inputs ← transaction_inputs 0 psbt.inputs
    outputs ← transaction_outputs 0 psbt.outputs
    ok (record {
      version = psbt.global.tx_version;
      lock_time = lock_time;
      input = inputs;
      output = outputs;
    })

  unfoldable pub p2wpkh_verifies :
      Transaction → ℕ → Input → TxOut → Bytes → List (PublicKey × Signature) → Result Error Bool
  p2wpkh_verifies tx index input utxo key [] = ok false
  p2wpkh_verifies tx index input utxo key ((public, signature) ∷ more) = do
    guard (is_empty more) (several_signatures index)
    guard (public.compressed && same public.inner key) (wrong_key index)
    guard (signature.sighash_type == 1) (not_sighash_all index)
    hash ←
        or_fail (b.p2wpkh_signature_hash tx index utxo.script_pubkey utxo.value) (no_sighash index)
    guard (b.verify_ecdsa hash signature.signature key) (bad_signature index)
    ok true

  unfoldable pub taproot_verifies :
      Psbt → Transaction → ℕ → Bytes → Option Signature → Result Error Bool
  taproot_verifies psbt tx index key none = ok false
  taproot_verifies psbt tx index key (some signature) = do
    guard (signature.sighash_type == 0 || signature.sighash_type == 1) (not_whole_transaction index)
    prevouts ← all_prevouts 0 psbt.inputs
    hash ←
        or_fail (b.taproot_signature_hash tx index prevouts signature.sighash_type)
          (no_sighash index)
    guard (b.verify_schnorr hash signature.signature (b.x_only key)) (bad_signature index)
    ok true

  unfoldable pub checked_p2wpkh : Transaction → ℕ → Input → TxOut → Bytes → Result Error Bool
  checked_p2wpkh tx index input utxo key = do
    refuse (is_some input.tap_key_sig) (taproot_on_p2wpkh index)
    p2wpkh_verifies tx index input utxo key input.partial_sigs

  unfoldable pub checked_taproot : Psbt → Transaction → ℕ → Input → Bytes → Result Error Bool
  checked_taproot psbt tx index input key = do
    guard (is_empty input.partial_sigs) (ecdsa_on_taproot index)
    taproot_verifies psbt tx index key input.tap_key_sig

  -- `ok false`: the input is not signed. A signature that is there and wrong is an error.
  unfoldable pub signature_verifies : Psbt → Transaction → ℕ → Result Error Bool
  unfolding prevout
  signature_verifies psbt tx index = do
    input ← or_fail (get_elem? psbt.inputs index) index_out_of_range
    utxo ← prevout index input
    key ← input_key b index input
    (if b.is_p2wpkh utxo.script_pubkey
        then checked_p2wpkh tx index input utxo key
        else checked_taproot psbt tx index input key)
