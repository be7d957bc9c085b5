-- ===== src/Shared/Join/Laws.antt =====
-- What the wallet that proposed still has after adopting the other wallet's half.
use kiss_bdk.Shared.Fee.Laws.{total_spent, total_paid, check_fee_balance}
use kiss_bdk.Shared.Terms.Laws.{AllDifferent, no_coin_twice_iff}
use kiss_bdk.Bitcoin.{Bitcoin}
use kiss_bdk.Shared.Signatures.{is_some}
use kiss_bdk.Shared.Input.{adopt_output, adopt_input, is_empty, outpoint}
use kiss_bdk.Shared.Join.{
  claim, adopt_outputs, new_outputs, claims, is_some, none_lost, Bitcoin, find_own, adopt_inputs,
  adopt_join,
}
use kiss_bdk.Psbt.{Output, OutPoint, Psbt, Input, OutPoint-discrete}
use mathlib.Core.List.{Perm, perm_middle, append-nil}
use mathlib.Core.List.Perm
use mathlib.Core.Option
use kiss_bdk.Common.{
  if◌then◌else◌, ℕ, suc, refl, ◌≡◌, sym, ap, ◌∙◌, subst, inl, inr, some, none, Option, ok, true,
  List, [], ◌∷◌, ◌++◌, map, ◌+◌, ◌≢◌, Bool-cases, All, ok-injective, >>=-eq-ok, >>-eq-ok,
  refuse-eq-ok, holds,
}

-- An output that is no silent payment, and that has its script.
abbrev pub IsOrdinary : Output → Type 0
IsOrdinary output = (output.sp_v0_info ≡ none) × (output.script_pubkey ≢ [])

option-cases {ℓ} :
    {A B : Type 0} {C : Type ℓ} (o : Option A) (f : A → B) (n r : B)
    → elim o as (λ x. B) [ none ↦ n | some a ↦ f a ] ≡ r
    → ((a : A) → o ≡ some a → f a ≡ r → C)
    → (o ≡ none → n ≡ r → C)
    → C
option-cases none f n r h g k = k refl h
option-cases (some a) f n r h g k = g a refl h

some-injective : {A : Type 0} {x y : A} → ◌≡◌ {A = Option A} (some x) (some y) → x ≡ y
some-injective h = cc

map-eq-some :
    {A : Type 0} (f : A → A) (o : Option A) {y : A}
    → Option.map f o ≡ some y
    → (x : A) × (o ≡ some x) × (f x ≡ y)
map-eq-some f none h = cc
map-eq-some f (some x) h = (x, refl, some-injective h)

claim-Perm :
    (theirs : Output) (unclaimed : List Output) {found : Output × List Output}
    → claim theirs unclaimed ≡ some found
    → Perm (found.0 ∷ found.1) unclaimed
unfolding claim
claim-Perm theirs [] h = cc
claim-Perm theirs (own ∷ unclaimed) h = elim (Bool-cases (claims theirs own)) [
  | inl e ↦
      let found_here = rw e at h in
      subst (λ f. Perm (f.0 ∷ f.1) (own ∷ unclaimed)) (some-injective found_here) Perm.rfl
  | inr e ↦
      let found_later = rw e at h in
      let (f, c, e') = map-eq-some (λ f. (f.0, own ∷ f.1)) (claim theirs unclaimed) found_later in
      subst (λ g. Perm (g.0 ∷ g.1) (own ∷ unclaimed)) e'
        (Perm.trans (Perm.swap _ _ _) (Perm.cons own (claim-Perm theirs unclaimed c)))
]

pub adopt_output-IsOrdinary :
    (i : ℕ) (theirs : Output) {new : Output} → adopt_output i theirs ≡ ok new → IsOrdinary new
unfolding adopt_output
adopt_output-IsOrdinary i theirs h =
    let (g, e) = >>-eq-ok _ _ h in
    let full = refuse-eq-ok _ _ g in
    subst IsOrdinary (ok-injective e)
      (refl, λ nil. let empty : is_empty theirs.script_pubkey ≡ true = ap is_empty nil in cc)

new_outputs-IsOrdinary :
    (i : ℕ) (theirs : Output) {new : Output} → new_outputs i theirs ≡ ok new → IsOrdinary new
new_outputs-IsOrdinary i theirs h = elim (Bool-cases (is_some theirs.sp_v0_info)) [
  | inl e ↦ let refused = rw e at h in cc
  | inr e ↦ adopt_output-IsOrdinary i theirs (rw e at h)
]

adopt_outputs-Perm :
    (i : ℕ) (unclaimed outputs : List Output) {r : List Output × List Output}
    → adopt_outputs i unclaimed outputs ≡ ok r
    → (added : List Output) × All IsOrdinary added × Perm (r.0 ++ r.1) (unclaimed ++ added)
unfolding adopt_outputs
adopt_outputs-Perm i unclaimed [] h =
    subst
      (λ r. (added : List Output) × All IsOrdinary added × Perm (r.0 ++ r.1) (unclaimed ++ added))
      (ok-injective h) ([], tt, rw append-nil Perm.rfl)
adopt_outputs-Perm i unclaimed (theirs ∷ outputs) {r = r} h =
    option-cases (claim theirs unclaimed) _ _ (ok r) h
      (λ found c e.
        let (rest, e₁, e₂) = >>=-eq-ok _ _ e in
        let (added, ordinary, p) = adopt_outputs-Perm (suc i) found.1 outputs e₁ in
        subst
          (λ r.
            (added : List Output) × All IsOrdinary added × Perm (r.0 ++ r.1) (unclaimed ++ added))
          (ok-injective e₂)
          (
            added,
            ordinary,
            Perm.trans (Perm.cons found.0 p)
                (Perm.append_right added (claim-Perm theirs unclaimed c)),
          ))
      (λ _ e.
        let (new, n, e₁) = >>=-eq-ok _ _ e in
        let (rest, e₂, e₃) = >>=-eq-ok _ _ e₁ in
        let (added, ordinary, p) = adopt_outputs-Perm (suc i) unclaimed outputs e₂ in
        subst
          (λ r.
            (added : List Output) × All IsOrdinary added × Perm (r.0 ++ r.1) (unclaimed ++ added))
          (ok-injective e₃)
          (
            new ∷ added,
            (new_outputs-IsOrdinary i theirs n, ordinary),
            Perm.trans (Perm.cons new p) (Perm.symm (perm_middle unclaimed added)),
          ))

none_lost-nil : (unclaimed : List Output) → none_lost unclaimed ≡ ok tt → unclaimed ≡ []
unfolding none_lost
none_lost-nil [] h = refl
none_lost-nil (lost ∷ unclaimed) h = cc

both : {x y : OutPoint} {xs ys : List OutPoint} → x ≡ y → xs ≡ ys → x ∷ xs ≡ y ∷ ys
both e e' = cc

-- The adopted inputs are at the outpoints of the joined ones, in their order.
module _ (b : Bitcoin) where
  find_own-outpoint :
      (coin : OutPoint) (proposed : List Input) {own : Input}
      → find_own coin proposed ≡ some own
      → outpoint own ≡ coin
  unfolding find_own
  find_own-outpoint coin [] h = cc
  find_own-outpoint coin (x ∷ proposed) {own = own} h =
      elim (OutPoint-discrete (outpoint x) coin)
          as (λ d.
            (if holds d then some x else find_own coin proposed) ≡ some own → outpoint own ≡ coin) [
              | yes e ↦ λ k. ap outpoint (sym (some-injective k)) ∙ e
              | no n ↦ λ k. find_own-outpoint coin proposed k
            ]
        h

  adopt_input-outpoint :
      (i : ℕ) (theirs : Input) {new : Input}
      → adopt_input b i theirs ≡ ok new
      → outpoint new ≡ outpoint theirs
  unfolding adopt_input
  adopt_input-outpoint i theirs h =
      let (_, e) = >>-eq-ok _ _ h in ap outpoint (sym (ok-injective e))

  adopt_inputs-outpoints :
      (proposed : List Input) (i : ℕ) (inputs : List Input) {r : ℕ × List Input}
      → adopt_inputs b proposed i inputs ≡ ok r
      → map outpoint r.1 ≡ map outpoint inputs
  unfolding adopt_inputs
  adopt_inputs-outpoints proposed i [] h = ap (λ r. map outpoint r.1) (sym (ok-injective h))
  adopt_inputs-outpoints proposed i (theirs ∷ inputs) {r = r} h =
      option-cases (find_own (outpoint theirs) proposed) _ _ (ok r) h
        (λ own f e.
          let (_, e₁) = >>-eq-ok _ _ e in
          let (rest, e₂, e₃) = >>=-eq-ok _ _ e₁ in
          ap (λ r. map outpoint r.1) (sym (ok-injective e₃))
          ∙ both (find_own-outpoint (outpoint theirs) proposed f)
              (adopt_inputs-outpoints proposed (suc i) inputs e₂))
        (λ _ e.
          let (new, n, e₁) = >>=-eq-ok _ _ e in
          let (rest, e₂, e₃) = >>=-eq-ok _ _ e₁ in
          ap (λ r. map outpoint r.1) (sym (ok-injective e₃))
          ∙ both (adopt_input-outpoint i theirs n)
              (adopt_inputs-outpoints proposed (suc i) inputs e₂))

  -- What stands in the adopted state.
  abbrev pub IsAdopted : Psbt → Psbt → Psbt → Type 0
  IsAdopted proposal joined state =
      ((added : List Output) × All IsOrdinary added
        × Perm state.outputs (proposal.outputs ++ added))
      × (map outpoint state.inputs ≡ map outpoint joined.inputs)
      × AllDifferent (map outpoint state.inputs)
      × ((sats : ℕ) × (total_spent state.inputs ≡ total_paid state.outputs + sats))

  -- When the other wallet's half is adopted, every output of the proposal, the payment and its amount
  -- included, is still there exactly once and what is new are ordinary outputs with a script; the
  -- transaction spends the coins of the joined one in their order, pairwise different; and it balances
  -- with a fee.
  pub adopt_join-IsAdopted :
      (proposal joined : Psbt) (fee_rate : ℕ) (state : Psbt)
      → adopt_join b proposal joined fee_rate ≡ ok state
      → IsAdopted proposal joined state
  unfolding adopt_join
  adopt_join-IsAdopted proposal joined fee_rate state h =
      let (_, h₁) = >>-eq-ok _ _ h in
      let (_, h₂) = >>-eq-ok _ _ h₁ in
      let (_, h₃) = >>-eq-ok _ _ h₂ in
      let (_, h₄) = >>-eq-ok _ _ h₃ in
      let (coins, h₅) = >>-eq-ok _ _ h₄ in
      let (inputs, i, h₆) = >>=-eq-ok _ _ h₅ in
      let (_, h₇) = >>-eq-ok _ _ h₆ in
      let (_, h₈) = >>-eq-ok _ _ h₇ in
      let (outputs, o, h₉) = >>=-eq-ok _ _ h₈ in
      let (n, h₁₀) = >>-eq-ok _ _ h₉ in
      let (sats, f, e) = >>=-eq-ok _ _ h₁₀ in
      let (added, ordinary, p) = adopt_outputs-Perm 0 proposal.outputs joined.outputs o in
      let kept = adopt_inputs-outpoints proposal.inputs 0 joined.inputs i in
      subst (IsAdopted proposal joined) (ok-injective e) (
        (
          added,
          ordinary,
          subst (λ l. Perm l (proposal.outputs ++ added))
              (ap (λ l. outputs.0 ++ l) (none_lost-nil outputs.1 n) ∙ append-nil outputs.0) p,
        ),
        kept,
        subst AllDifferent (sym kept) ((no_coin_twice_iff joined).0 coins),
        (sats, check_fee_balance b _ fee_rate f),
      )
