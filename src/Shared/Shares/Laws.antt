-- ===== src/Shared/Shares/Laws.antt =====
-- The two ways in which the code asks whether shares are missing agree.
use kiss_bdk.Shared.Shares.{
  missing_for, missing_keys, missing, all_inputs, complete_keys, complete, complete_for, Shares,
  is_verified,
}
use kiss_bdk.Common.{
  ℕ, zero, suc, refl, ◌≡◌, inl, inr, true, List, [], ◌∷◌, ◌++◌, Bytes, ◌↔◌, Bool-cases,
}

append-nil : {A : Type 0} (xs ys : List A) → xs ++ ys ≡ [] → (xs ≡ []) × (ys ≡ [])
append-nil [] ys h = (refl, h)
append-nil (x ∷ xs) ys h = cc

missing_for-all_inputs :
    (verified : List (ℕ × Bytes)) (scan : Bytes) (from count : ℕ)
    → (missing_for verified scan from count ≡ []) ↔ (all_inputs verified scan from count ≡ true)
unfolding missing_for all_inputs
missing_for-all_inputs verified scan from zero = (λ _. refl, λ _. refl)
missing_for-all_inputs verified scan from (suc count) =
    let ih = missing_for-all_inputs verified scan (suc from) count in
    elim (Bool-cases (is_verified verified from scan)) [
      | inl e ↦ (λ h. rw e (ih.0 (rw e at h)), λ h. rw e (ih.1 (rw e at h)))
      | inr e ↦ (λ h. let h' = rw e at h in cc, λ h. let h' = rw e at h in cc)
    ]

missing_keys-complete_keys :
    (s : Shares) (scans : List Bytes)
    → (missing_keys s.verified s.inputs scans ≡ []) ↔ (complete_keys s scans ≡ true)
unfolding missing_keys complete_keys complete_for
missing_keys-complete_keys s [] = (λ _. refl, λ _. refl)
missing_keys-complete_keys s (scan ∷ scans) =
    let here = missing_for-all_inputs s.verified scan 0 s.inputs in
    let ih = missing_keys-complete_keys s scans in
    elim (Bool-cases (all_inputs s.verified scan 0 s.inputs)) [
      | inl e ↦ (λ h. rw e (ih.0 (append-nil _ _ h).1), λ h. rw (here.1 e) (ih.1 (rw e at h)))
      | inr e ↦ (λ h. let all = here.0 (append-nil _ _ h).0 in cc, λ h. let h' = rw e at h in cc)
    ]

-- No share is missing exactly when every scan key has a verified share on every input.
pub missing-complete : (s : Shares) → (missing s ≡ []) ↔ (complete s ≡ true)
unfolding missing complete
missing-complete s = missing_keys-complete_keys s s.scan_keys
