-- ===== src/Shared/Recipients.antt =====
-- The recipients of a PSBT stand at positions of silent payment outputs, and depend on nothing else.
use kiss_bdk.Shared.Shares.{recipient, recipients_from, recipients, Recipient}
use kiss_bdk.Psbt.{Output, Psbt}
use kiss_bdk.Bitcoin.{Bitcoin}
use mathlib.Core.List.{append_assoc}
use kiss_bdk.Common.{
  ℕ, zero, suc, refl, ◌≡◌, subst, inl, inr, some, Option, ok, List, [], ◌∷◌, ◌++◌, map, arith,
  ◌>>=◌, ◌>>◌, Bytes, length-append, >>=-eq-ok,
}
use kiss_bdk.Common.{
  ℕ, List, Option, get_elem?, Bytes, ◌≡◌, ◌>>=◌, ◌++◌, map, some, ◌>>◌, ◌∷◌, arith, length, ok, All,
  [], Option-cases,
}

abbrev pub infos : List Output → List (Option Bytes)
infos = map (λ o. o.sp_v0_info)

-- A position at which a silent payment output stands.
abbrev pub IsRecipient : List (Option Bytes) → Recipient → Type 0
IsRecipient is r = (info : Bytes) × (get_elem? is r.output ≡ some (some info))

pub get_elem?-infos :
    (os : List Output) (i : ℕ) {o : Output}
    → get_elem? os i ≡ some o
    → get_elem? (infos os) i ≡ some o.sp_v0_info
get_elem?-infos [] i h = cc
get_elem?-infos (x ∷ xs) zero h = ground arith
get_elem?-infos (x ∷ xs) (suc i) h = get_elem?-infos xs i h

pub get_elem?-append_length {ℓ} :
    {A : Type ℓ} (xs : List A) (a : A) (ys : List A) → get_elem? (xs ++ a ∷ ys) (length xs) ≡ some a
get_elem?-append_length [] a ys = refl
get_elem?-append_length (x ∷ xs) a ys = get_elem?-append_length xs a ys

module _ (b : Bitcoin) where
  output-recipient :
      (i : ℕ) (info : Bytes) {r : Recipient} → recipient b i info ≡ ok r → r.output ≡ i
  unfolding recipient ◌>>=◌ ◌>>◌
  output-recipient i info h = ground arith

  recipients_from-IsRecipient :
      (i : ℕ) (before : List (Option Bytes)) (os : List Output) (rs : List Recipient)
      → length before ≡ i
      → recipients_from b i os ≡ ok rs
      → All (IsRecipient (before ++ infos os)) rs
  unfolding recipients_from
  recipients_from-IsRecipient i before [] [] l h = tt
  recipients_from-IsRecipient i before [] (r ∷ rs) l h = cc
  recipients_from-IsRecipient i before (o ∷ os) rs l h = elim (Option-cases o.sp_v0_info) [
    | inl e ↦
        subst (λ is. All (IsRecipient is) rs) (append_assoc before (o.sp_v0_info ∷ []) (infos os))
          (recipients_from-IsRecipient (suc i) (before ++ o.sp_v0_info ∷ []) os rs
            (omega (arith, length-append before (o.sp_v0_info ∷ [])))
            (rw (e, recipients_from) at h))
    | inr (info, e) ↦
        let (r, here, h₁) = >>=-eq-ok _ _ (rw (e, recipients_from) at h) in
        let (rest, later, h₂) = >>=-eq-ok _ _ h₁ in
        let found : IsRecipient (before ++ infos (o ∷ os)) r = (
          info,
          rw (output-recipient i info here, ← l, ← e)
              (get_elem?-append_length before o.sp_v0_info (infos os)),
        ) in
        let tail =
          subst (λ is. All (IsRecipient is) rest)
            (append_assoc before (o.sp_v0_info ∷ []) (infos os))
            (recipients_from-IsRecipient (suc i) (before ++ o.sp_v0_info ∷ []) os rest
              (omega (arith, length-append before (o.sp_v0_info ∷ []))) later) in
        let whole : r ∷ rest ≡ rs = cc in
        subst (All (IsRecipient (before ++ infos (o ∷ os)))) whole (found, tail)
  ]

  pub recipients-IsRecipient :
      (p : Psbt) (rs : List Recipient)
      → recipients b p ≡ ok rs
      → All (IsRecipient (infos p.outputs)) rs
  unfolding recipients
  recipients-IsRecipient p rs h = recipients_from-IsRecipient 0 [] p.outputs rs refl h
