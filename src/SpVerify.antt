-- ===== src/SpVerify.antt =====
-- src/spverify.rs: what a signer returns for a silent payment is checked against what it was given.
pub mod Laws
use kiss_bdk.Sp.Derive.{input_hash, output_script}
use kiss_bdk.Shared.Signatures.{is_some}
use kiss_bdk.Bitcoin.{Bitcoin}
use kiss_bdk.Psbt.{
  Psbt, Input, Output, OutPoint, PublicKey, KeySource, OptionNat-discrete, OptionBytes-discrete,
  OutPoints-discrete,
}
use kiss_bdk.Dleq
use kiss_bdk.Shared.Input.{outpoint, is_empty}
use kiss_bdk.Common.{
  ℕ, zero, suc, refl, ◌≡◌, sym, ap, ◌∙◌, subst, inl, inr, some, none, Option, ok, err, Result, true,
  false, Bool, List, [], ◌∷◌, ◌++◌, map, arith, ◌>>=◌, ◌>>◌, Bytes, ◌+◌, ◌≤◌, ◌<◌, ◌⊎◌, ◌≢◌,
  if◌then◌else◌, guard, same, length, refuse, context, holds, ◌&&◌, ◌==◌, leb, take, or_fail, ◌||◌,
  drop, lookup, ◌%◌, ◌^◌,
}

-- The errors of this file, with the position of the input or output that the message names.
pub data Error : Type 0 where
  version_changed inputs_changed output_count_changed lock_time_changed modifiable : Error
  sequence_changed lock_requirement_changed amount_changed recipient_changed script_changed :
      ℕ → Error
  short_info bad_scan_key bad_spend_key no_share no_proof bad_proof other_script : ℕ → Error
  no_public_key no_key_sum input_hash_failed output_script_failed incomplete : Error

-- A silent payment output whose script has been independently reproduced.
pub record VerifiedOutput : Type 0 where
  pub index : ℕ
  pub scan : Bytes

abbrev pub outpoints : Psbt → List OutPoint
outpoints psbt = map outpoint psbt.inputs

-- The loop over the inputs, which differ in nothing that the transaction id depends on.
unfoldable pub same_inputs : ℕ → List Input → List Input → Result Error (Unit {0})
same_inputs i (before ∷ original) (after ∷ signed) = do
  guard (holds (OptionNat-discrete before.sequence after.sequence)) (sequence_changed i)
  guard
      (holds (OptionNat-discrete before.min_time after.min_time)
        && holds (OptionNat-discrete before.min_height after.min_height))
      (lock_requirement_changed i)
  same_inputs (suc i) original signed
same_inputs i _ _ = ok tt

-- A silent payment script is expected to appear; anything else must not move.
abbrev pub filling_in : Output → Bool
filling_in before = is_some before.sp_v0_info && is_empty before.script_pubkey

unfoldable pub same_outputs : ℕ → List Output → List Output → Result Error (Unit {0})
same_outputs i (before ∷ original) (after ∷ signed) = do
  guard (before.amount == after.amount) (amount_changed i)
  guard (holds (OptionBytes-discrete before.sp_v0_info after.sp_v0_info)) (recipient_changed i)
  guard (filling_in before || same before.script_pubkey after.script_pubkey) (script_changed i)
  same_outputs (suc i) original signed
same_outputs i _ _ = ok tt

-- The signer may fill in silent payment scripts. It may change nothing else.
unfoldable pub same_transaction : Psbt → Psbt → Result Error (Unit {0})
same_transaction original signed = do
  guard (original.global.tx_version == signed.global.tx_version) version_changed
  guard (holds (OutPoints-discrete (outpoints original) (outpoints signed))) inputs_changed
  guard (length original.outputs == length signed.outputs) output_count_changed
  guard
      (holds
        (OptionNat-discrete original.global.fallback_lock_time signed.global.fallback_lock_time))
      lock_time_changed
  guard (signed.global.tx_modifiable_flags == 0) modifiable
  same_inputs 0 original.inputs signed.inputs
  same_outputs 0 original.outputs signed.outputs

-- How many of the scan keys before this one are the same.
abbrev pub occurrences : Bytes → List Bytes → ℕ
occurrences scan [] = 0
occurrences scan (other ∷ group) = (if same other scan then 1 else 0) + occurrences scan group

abbrev pub sp_outputs : List Output → ℕ
sp_outputs [] = 0
sp_outputs (output ∷ outputs) = (if is_some output.sp_v0_info then 1 else 0) + sp_outputs outputs

module _ (b : Bitcoin) where
  open b use {key_from_slice, combine_keys}

  -- The even-Y key of a P2TR script.
  abbrev pub script_key : Bytes → Option Bytes
  script_key script =
      if length script == 34 && same (take 2 script) (0x51 ∷ 0x20 ∷ [])
      then key_from_slice (0x02 ∷ drop 2 script)
      else none

  unfoldable pub taproot_output_key : Input → Option Bytes
  taproot_output_key input = elim input.witness_utxo [
    | none ↦ none
    | some utxo ↦ script_key utxo.script_pubkey
  ]

  -- The first key of the derivations, in key order.
  abbrev pub derivation_key : List (PublicKey × KeySource) → Option Bytes
  derivation_key [] = none
  derivation_key ((key, origin) ∷ rest) = some key.inner

  unfoldable pub exposed_key : Input → Option Bytes
  exposed_key input = elim (taproot_output_key input) [
    | some key ↦ some key
    | none ↦ derivation_key input.bip32_derivations
  ]

  unfoldable pub exposed_keys : List Input → List Bytes
  exposed_keys [] = []
  exposed_keys (input ∷ inputs) = elim (exposed_key input) [
    | some key ↦ key ∷ exposed_keys inputs
    | none ↦ exposed_keys inputs
  ]

  -- The sum of the public keys of the inputs that fund the payment.
  unfoldable pub input_key_sum : Psbt → Result Error Bytes
  input_key_sum psbt = do
    refuse (is_empty (exposed_keys psbt.inputs)) no_public_key
    or_fail (combine_keys (exposed_keys psbt.inputs)) no_key_sum

  -- One silent payment output: its share, the proof beside it, and the script that they give.
  unfoldable pub verify_output :
      Psbt → Bytes → Bytes → List Bytes → ℕ → Bytes → Bytes → Result Error Bytes
  verify_output signed a_sum hash group i info script = do
    guard (leb 33 (length info)) (short_info i)
    scan ← or_fail (key_from_slice (take 33 info)) (bad_scan_key i)
    spend ← or_fail (key_from_slice (drop 33 info)) (bad_spend_key i)
    share ← or_fail (lookup scan signed.global.sp_ecdh_shares) (no_share i)
    proof ← or_fail (lookup scan signed.global.sp_dleq_proofs) (no_proof i)
    context (Dleq.verify b a_sum scan share proof) (bad_proof i)
    expected ←
        context (output_script b share spend hash (occurrences scan group % 2 ^ 32))
          output_script_failed
    guard (same expected script) (other_script i)
    ok scan

  -- The loop over the outputs, with the scan keys so far.
  unfoldable pub verify_outputs :
      Psbt → Bytes → Bytes → List Bytes → ℕ → List Output → Result Error (List VerifiedOutput)
  verify_outputs signed a_sum hash group i [] = ok []
  verify_outputs signed a_sum hash group i (output ∷ outputs) = elim output.sp_v0_info [
    | none ↦ verify_outputs signed a_sum hash group (suc i) outputs
    | some info ↦ do
      scan ← verify_output signed a_sum hash group i info output.script_pubkey
      rest ← verify_outputs signed a_sum hash (group ++ scan ∷ []) (suc i) outputs
      ok (record { index = i; scan = scan } ∷ rest)
  ]

  unfoldable pub verify : Psbt → Psbt → Result Error (List VerifiedOutput)
  verify original signed = do
    same_transaction original signed
    a_sum ← input_key_sum original
    hash ← context (input_hash b (outpoints signed) a_sum) input_hash_failed
    verified ← verify_outputs signed a_sum hash [] 0 signed.outputs
    guard (length verified == sp_outputs original.outputs) incomplete
    ok verified
