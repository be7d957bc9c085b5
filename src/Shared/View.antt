-- ===== src/Shared/View.antt =====
-- What the checks of shares and the derivation of scripts read of a PSBT: all but its signatures
-- and its output scripts.
use kiss_bdk.Shared.Input.{outpoint, input_key}
use kiss_bdk.Shared.Scripts.{input_keys, share_parts, scan_scripts, derive_complete, derive_scripts}
use kiss_bdk.Shared.Shares.{
  recipients_from, recipients, check_inputs, check_shares, Recipient, Shares,
}
use kiss_bdk.Bitcoin.{Bitcoin}
use kiss_bdk.Psbt.{Input, Output, Psbt}
use kiss_bdk.Common.{
  ℕ, suc, refl, ◌≡◌, ap, inl, inr, none, List, [], ◌∷◌, map, Bytes, Option-cases, length-map,
}

abbrev pub unsigned_input : Input → Input
unsigned_input i = record i { partial_sigs = []; tap_key_sig = none }

abbrev pub without_script : Output → Output
without_script o = record o { script_pubkey = [] }

abbrev pub share_view : Psbt → Psbt
share_view p = record p {
  inputs = map unsigned_input p.inputs;
  outputs = map without_script p.outputs;
}

module _ (b : Bitcoin) where
  recipients_from-view :
      (i : ℕ) (os : List Output)
      → recipients_from b i (map without_script os) ≡ recipients_from b i os
  unfolding recipients_from
  recipients_from-view i [] = refl
  recipients_from-view i (o ∷ os) = elim (Option-cases o.sp_v0_info) [
    | inl e ↦ rw (e, recipients_from, recipients_from-view (suc i) os)
    | inr (info, e) ↦ rw (e, recipients_from, recipients_from-view (suc i) os)
  ]

  pub recipients-view : (p : Psbt) → recipients b (share_view p) ≡ recipients b p
  unfolding recipients
  recipients-view p = recipients_from-view 0 p.outputs

  check_inputs-view :
      (keys : List Bytes) (i : ℕ) (is : List Input)
      → check_inputs b keys i (map unsigned_input is) ≡ check_inputs b keys i is
  unfolding check_inputs input_key
  check_inputs-view keys i [] = refl
  check_inputs-view keys i (x ∷ is) = rw (check_inputs-view keys (suc i) is)

  pub check_shares-view : (p : Psbt) → check_shares b (share_view p) ≡ check_shares b p
  unfolding check_shares
  check_shares-view p = simp (check_shares, recipients-view p, check_inputs-view, length-map)

  input_keys-view :
      (i : ℕ) (is : List Input) → input_keys b i (map unsigned_input is) ≡ input_keys b i is
  unfolding input_keys input_key
  input_keys-view i [] = refl
  input_keys-view i (x ∷ is) = rw (input_keys-view (suc i) is)

  share_parts-view :
      (scan : Bytes) (is : List Input)
      → share_parts scan (map unsigned_input is) ≡ share_parts scan is
  unfolding share_parts
  share_parts-view scan [] = refl
  share_parts-view scan (x ∷ is) = rw (share_parts-view scan is)

  outpoints-view : (is : List Input) → map outpoint (map unsigned_input is) ≡ map outpoint is
  outpoints-view [] = refl
  outpoints-view (x ∷ is) = ap (◌∷◌ (outpoint x)) (outpoints-view is)

  scan_scripts-view :
      (is : List Input) (rs : List Recipient) (hash : Bytes) (scans : List Bytes)
      → scan_scripts b (map unsigned_input is) rs hash scans ≡ scan_scripts b is rs hash scans
  unfolding scan_scripts
  scan_scripts-view is rs hash [] = refl
  scan_scripts-view is rs hash (scan ∷ scans) =
      rw (share_parts-view scan is, scan_scripts-view is rs hash scans)

  derive_complete-view :
      (p : Psbt) (rs : List Recipient) (scans : List Bytes)
      → derive_complete b (share_view p) rs scans ≡ derive_complete b p rs scans
  unfolding derive_complete
  derive_complete-view p rs [] = refl
  derive_complete-view p rs (scan ∷ scans) =
      simp (input_keys-view, outpoints-view, scan_scripts-view)

  pub derive_scripts-view :
      (p : Psbt) (s : Shares) → derive_scripts b (share_view p) s ≡ derive_scripts b p s
  unfolding derive_scripts
  derive_scripts-view p s = simp (derive_scripts, recipients-view p, derive_complete-view p)
