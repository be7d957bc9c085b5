-- ===== src/Shared/Proposal/Removed.antt =====
-- src/shared.rs, `join`: the outputs of a half less the one that pays the recipient.
use kiss_bdk.Psbt.{Output}
use kiss_bdk.Shared.Proposal.{without}
use kiss_bdk.Common.{
  ℕ, zero, suc, refl, ◌≡◌, subst, inl, inr, true, false, List, [], ◌∷◌, Bool-cases, get_elem?, ltb,
  if◌then◌else◌, ◌==◌, ◌+◌, ◌≤◌, ◌<◌, arith,
}

-- `after` is `before` less the element at `index`: what stood in front of it has its place, and what
-- stood behind it is one place further to the front.
abbrev pub Removed : ℕ → List Output → List Output → Type 0
Removed index before after =
    (j : ℕ) → get_elem? after j ≡ get_elem? before (if ltb j index then j else suc j)

without_later :
    (index i : ℕ) (outputs : List Output) → index < i → without index i outputs ≡ outputs
without_later index i [] h = refl
without_later index i (output ∷ outputs) h =
    let not_here : (i == index) ≡ false = ground arith in
    rw (not_here, without_later index (suc i) outputs (omega arith)) refl

-- With the positions counted from `i`.
RemovedFrom : ℕ → ℕ → List Output → List Output → Type 0
RemovedFrom i index before after =
    (j : ℕ) → get_elem? after j ≡ get_elem? before (if ltb (i + j) index then j else suc j)

RemovedFrom-cons :
    (i index : ℕ) (output : Output) (before after : List Output)
    → i < index
    → RemovedFrom (suc i) index before after
    → RemovedFrom i index (output ∷ before) (output ∷ after)
unfolding RemovedFrom
RemovedFrom-cons i index output before after below r zero =
    let front : ltb (i + 0) index ≡ true = ground arith in rw front refl
RemovedFrom-cons i index output before after below r (suc j) =
    let one_later : i + suc j ≡ suc i + j = omega arith in
    let there = r j in
    elim (Bool-cases (ltb (suc i + j) index)) [
      | inl t ↦ rw (one_later, t) (rw t at there)
      | inr t ↦ rw (one_later, t) (rw t at there)
    ]

without-RemovedFrom :
    (index i : ℕ) (outputs : List Output)
    → i ≤ index
    → RemovedFrom i index outputs (without index i outputs)
unfolding RemovedFrom
without-RemovedFrom index i [] h j = refl
without-RemovedFrom index i (output ∷ outputs) h j = elim (Bool-cases (i == index)) [
  | inl e ↦
      let past : ltb (i + j) index ≡ false = ground arith in
      rw (e, past, without_later index (suc i) outputs (ground arith)) refl
  | inr e ↦
      let below : i < index = ground arith in
      rw e (
        RemovedFrom-cons i index output outputs (without index (suc i) outputs) below
          (without-RemovedFrom index (suc i) outputs below) j)
]

pub without-Removed :
    (index : ℕ) (outputs : List Output) → Removed index outputs (without index 0 outputs)
unfolding RemovedFrom
without-Removed index outputs j =
    let from_start : 0 + j ≡ j = omega arith in
    subst
      (λ k.
        get_elem? (without index 0 outputs) j
        ≡ get_elem? outputs (if ltb k index then j else suc j))
      from_start (without-RemovedFrom index 0 outputs (omega arith) j)
