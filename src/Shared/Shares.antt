-- ===== src/Shared/Shares.antt =====
-- src/shared.rs, section 2 of the contract: the silent payment outputs, the ECDH shares that a PSBT
-- holds, and the check of each share against the key of its input.
pub mod Laws
use kiss_bdk.Common.{
  ◌>>=◌, ◌>>◌, ℕ, zero, suc, Bytes, same, Bool, true, false, ◌&&◌, none, some, List, [], ◌∷◌, ◌++◌,
  Result, ok, guard, refuse, or_fail, context, ◌==◌, if◌then◌else◌, length, take, drop, contains,
  lookup, has_key,
}
use kiss_bdk.Psbt.{Input, Output, Psbt}
use kiss_bdk.Bitcoin.{Bitcoin}
use kiss_bdk.Dleq
use kiss_bdk.Shared.Error.{
  Error, recipient_length, bad_scan_key, bad_spend_key, global_share, share_for_unknown_scan_key,
  share_without_proof, share_mismatch, proof_without_share,
}
use kiss_bdk.Shared.Input.{input_key, is_empty}

pub record Recipient : Type 0 where
  pub output : ℕ
  pub scan : Bytes
  pub spend : Bytes

-- Which shares a PSBT holds, every one of them verified.
pub record Shares : Type 0 where
  pub scan_keys : List Bytes
  pub verified : List (ℕ × Bytes)
  pub inputs : ℕ

-- `verified.contains(&(input, scan))`
abbrev pub is_verified : List (ℕ × Bytes) → ℕ → Bytes → Bool
is_verified [] i scan = false
is_verified ((j, other) ∷ rest) i scan =
    if j == i && same other scan then true else is_verified rest i scan

-- `(from..from + count).all(...)` for one scan key.
unfoldable pub all_inputs : List (ℕ × Bytes) → Bytes → ℕ → ℕ → Bool
all_inputs verified scan from zero = true
all_inputs verified scan from (suc count) =
    is_verified verified from scan && all_inputs verified scan (suc from) count

unfoldable pub missing_for : List (ℕ × Bytes) → Bytes → ℕ → ℕ → List (ℕ × Bytes)
missing_for verified scan from zero = []
missing_for verified scan from (suc count) =
    let rest = missing_for verified scan (suc from) count in
    if is_verified verified from scan then rest else (from, scan) ∷ rest

unfoldable pub missing_keys : List (ℕ × Bytes) → ℕ → List Bytes → List (ℕ × Bytes)
missing_keys verified inputs [] = []
missing_keys verified inputs (scan ∷ scans) =
    missing_for verified scan 0 inputs ++ missing_keys verified inputs scans

-- The `(input, scan key)` pairs that still have no share.
unfoldable pub missing : Shares → List (ℕ × Bytes)
missing s = missing_keys s.verified s.inputs s.scan_keys

unfoldable pub complete_for : Shares → Bytes → Bool
complete_for s scan = all_inputs s.verified scan 0 s.inputs

unfoldable pub complete_keys : Shares → List Bytes → Bool
unfolding complete_for
complete_keys s [] = true
complete_keys s (scan ∷ scans) = complete_for s scan && complete_keys s scans

unfoldable pub complete : Shares → Bool
complete s = complete_keys s s.scan_keys

-- A list of scan keys without repetition, in the order in which they first appear.
unfoldable pub scan_keys_from : List Bytes → List Recipient → List Bytes
scan_keys_from found [] = found
scan_keys_from found (r ∷ rs) =
    scan_keys_from (if contains r.scan found then found else found ++ r.scan ∷ []) rs

-- Whether some proof stands without its share.
abbrev pub lone_proof : List (Bytes × Bytes) → List (Bytes × Bytes) → Bool
lone_proof shares [] = false
lone_proof shares ((scan, proof) ∷ proofs) =
    if has_key scan shares then lone_proof shares proofs else true

module _ (b : Bitcoin) where
  open b use {key_from_slice}

  unfoldable pub recipient : ℕ → Bytes → Result Error Recipient
  recipient output info = do
    guard (length info == 66) (recipient_length output)
    scan ← or_fail (key_from_slice (take 33 info)) (bad_scan_key output)
    spend ← or_fail (key_from_slice (drop 33 info)) (bad_spend_key output)
    ok (record { output = output; scan = scan; spend = spend })

  unfoldable pub recipients_from : ℕ → List Output → Result Error (List Recipient)
  recipients_from i [] = ok []
  recipients_from i (o ∷ os) = elim o.sp_v0_info [
    | none ↦ recipients_from (suc i) os
    | some info ↦ do r ← recipient i info; rs ← recipients_from (suc i) os; ok (r ∷ rs)
  ]

  -- The outputs that carry `PSBT_OUT_SP_V0_INFO`, in output order.
  unfoldable pub recipients : Psbt → Result Error (List Recipient)
  recipients psbt = recipients_from 0 psbt.outputs

  -- The shares of one input, each against its proof and the input's key.
  unfoldable pub check_input_shares :
      ℕ
      → Bytes
      → List Bytes
      → List (Bytes × Bytes)
      → List (Bytes × Bytes)
      → Result Error (List (ℕ × Bytes))
  check_input_shares i key scan_keys proofs [] = ok []
  check_input_shares i key scan_keys proofs ((scan, share) ∷ shares) = do
    guard (contains scan scan_keys) (share_for_unknown_scan_key i)
    proof ← or_fail (lookup scan proofs) (share_without_proof i)
    context (Dleq.verify b key scan share proof) (share_mismatch i)
    rest ← check_input_shares i key scan_keys proofs shares
    ok ((i, scan) ∷ rest)

  unfoldable pub check_inputs : List Bytes → ℕ → List Input → Result Error (List (ℕ × Bytes))
  check_inputs scan_keys i [] = ok []
  check_inputs scan_keys i (input ∷ inputs) = do
    key ← input_key b i input
    here ← check_input_shares i key scan_keys input.sp_dleq_proofs input.sp_ecdh_shares
    refuse (lone_proof input.sp_ecdh_shares input.sp_dleq_proofs) (proof_without_share i)
    rest ← check_inputs scan_keys (suc i) inputs
    ok (here ++ rest)

  -- Verify every per-input share against the key of its input.
  unfoldable pub check_shares : Psbt → Result Error Shares
  check_shares psbt = do
    guard (is_empty psbt.global.sp_ecdh_shares && is_empty psbt.global.sp_dleq_proofs) global_share
    rs ← recipients psbt
    let scan_keys = scan_keys_from [] rs
    verified ← check_inputs scan_keys 0 psbt.inputs
    ok (record { scan_keys = scan_keys; verified = verified; inputs = length psbt.inputs })
