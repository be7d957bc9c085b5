-- ===== src/SpSend/Placeholder/Laws.antt =====
-- No two recipients are promised the same output.
use kiss_bdk.Psbt.{TxOut, Transaction}
use kiss_bdk.Bitcoin.{Bitcoin}
use kiss_bdk.Sp.{SilentPaymentAddress}
use kiss_bdk.SpSend.Placeholder.{
  SpOutput, find_unclaimed, placeholder_script, resolve_from, resolve_sp_outputs,
}
use kiss_bdk.Common.{
  ℕ, zero, suc, refl, ◌≡◌, ap, subst, inl, inr, some, ok, true, false, Bool, List, [], ◌∷◌, map,
  arith, Bytes, ◌+◌, ◌≢◌, get_elem?, All, Bool-cases, set, ok-injective, replicate, same, >>=-eq-ok,
  length, same-≡, or_fail-eq-ok,
}

-- Output `j`, counted from `i`, is unclaimed and has this script.
abbrev pub IsFree : Bytes → List Bool → List TxOut → ℕ → Type 0
IsFree placeholder claimed outputs k =
    (get_elem? claimed k ≡ some false)
    × ((out : TxOut) × (get_elem? outputs k ≡ some out) × (out.script_pubkey ≡ placeholder))

find_unclaimed-IsFree :
    (placeholder : Bytes) (i : ℕ) (claimed : List Bool) (outputs : List TxOut) {j : ℕ}
    → find_unclaimed placeholder i claimed outputs ≡ some j
    → (k : ℕ) × (j ≡ i + k) × IsFree placeholder claimed outputs k
unfolding find_unclaimed
find_unclaimed-IsFree placeholder i [] outputs h = cc
find_unclaimed-IsFree placeholder i (c ∷ claimed) [] h = cc
find_unclaimed-IsFree placeholder i (true ∷ claimed) (out ∷ outputs) h =
    let (k, e, g) = find_unclaimed-IsFree placeholder (suc i) claimed outputs h in
    (suc k, omega arith, g)
find_unclaimed-IsFree placeholder i (false ∷ claimed) (out ∷ outputs) {j = j} h =
    elim (Bool-cases (same out.script_pubkey placeholder)) [
      | inl e ↦
          let found = rw e at h in
          let here : i ≡ j = cc in
          (0, omega arith, (refl, (out, refl, same-≡ out.script_pubkey placeholder e)))
      | inr e ↦
          let (k, n, g) = find_unclaimed-IsFree placeholder (suc i) claimed outputs (rw e at h) in
          (suc k, omega arith, g)
    ]

-- What is free once output `i` is claimed is another output, and was free before.
free_before :
    (claimed : List Bool) (i j : ℕ)
    → get_elem? claimed i ≡ some false
    → get_elem? (set claimed i true) j ≡ some false
    → (i ≢ j) × (get_elem? claimed j ≡ some false)
free_before [] i j h k = cc
free_before (c ∷ claimed) zero zero h k = absurd cc
free_before (c ∷ claimed) zero (suc j) h k = (λ e. omega arith, k)
free_before (c ∷ claimed) (suc i) zero h k = (λ e. omega arith, k)
free_before (c ∷ claimed) (suc i) (suc j) h k =
    let (apart, free) = free_before claimed i j h k in (λ e. apart (omega arith), free)

module _ (b : Bitcoin) where
  -- An entry names an unclaimed output that carries its recipient's placeholder.
  abbrev pub IsResolved : List TxOut → List Bool → SpOutput → Type 0
  IsResolved outputs claimed sp =
      IsFree (placeholder_script b sp.recipient) claimed outputs sp.index

  -- No output is in two entries.
  abbrev pub Apart : List SpOutput → Type 0
  Apart [] = Unit {0}
  Apart (sp ∷ rest) = All (λ other. sp.index ≢ other.index) rest × Apart rest

  All-map {ℓ} :
      {P Q : SpOutput → Type ℓ} (xs : List SpOutput)
      → ((x : SpOutput) → P x → Q x)
      → All P xs
      → All Q xs
  All-map [] f a = tt
  All-map (x ∷ xs) f (p, a) = (f x p, All-map xs f a)

  resolve_from-IsResolved :
      (outputs : List TxOut) (claimed : List Bool) (recipients : List SilentPaymentAddress)
      {resolved : List SpOutput}
      → resolve_from b outputs claimed recipients ≡ ok resolved
      → (map (λ sp. sp.recipient) resolved ≡ recipients)
        × All (IsResolved outputs claimed) resolved
        × Apart resolved
  unfolding resolve_from
  resolve_from-IsResolved outputs claimed [] h =
      subst (λ r. (map (λ sp. sp.recipient) r ≡ []) × All (IsResolved outputs claimed) r × Apart r)
        (ok-injective h) (refl, tt, tt)
  resolve_from-IsResolved outputs claimed (recipient ∷ recipients) h =
      let (index, f, h₁) = >>=-eq-ok _ _ h in
      let (rest, r, e) = >>=-eq-ok _ _ h₁ in
      let (k, n, free) =
        find_unclaimed-IsFree (placeholder_script b recipient) 0 claimed outputs
          (or_fail-eq-ok _ _ f) in
      let same_index : k ≡ index = omega arith in
      let here = subst (IsFree (placeholder_script b recipient) claimed outputs) same_index free in
      let (names, found, apart) =
        resolve_from-IsResolved outputs (set claimed index true) recipients r in
      subst
        (λ r.
          (map (λ sp. sp.recipient) r ≡ recipient ∷ recipients)
          × All (IsResolved outputs claimed) r
          × Apart r)
        (ok-injective e)
        (
          ap (λ rs. recipient ∷ rs) names,
          (
            here,
            All-map rest (λ sp p. ((free_before claimed index sp.index here.0 p.0).1, p.1)) found,
          ),
          (All-map rest (λ sp p. (free_before claimed index sp.index here.0 p.0).0) found, apart),
        )

  -- When every recipient is matched: the entries name the recipients, in order; the output of each
  -- carries the placeholder of its recipient; and no output is in two entries.
  pub resolve_sp_outputs-Apart :
      (tx : Transaction) (recipients : List SilentPaymentAddress) (resolved : List SpOutput)
      → resolve_sp_outputs b tx recipients ≡ ok resolved
      → (map (λ sp. sp.recipient) resolved ≡ recipients)
        × All (IsResolved tx.output (replicate (length tx.output) false)) resolved
        × Apart resolved
  unfolding resolve_sp_outputs
  resolve_sp_outputs-Apart tx recipients resolved h =
      resolve_from-IsResolved tx.output _ recipients h
