-- ===== src/Shared/Fee/Laws.antt =====
-- What the fee check has found when it passes.
use kiss_bdk.Shared.Input.{prevout}
use kiss_bdk.Shared.Fee.{
  spent_from, paid_from, fee, checked_add, checked_sub, check_fee, estimated_weight, u64_mod,
  div_ceil, fee_ceiling_factor, fee_ceiling_slack_sats,
}
use kiss_bdk.Bitcoin.{Bitcoin}
use kiss_bdk.Psbt.{Input, Output, Psbt, TxOut}
use kiss_bdk.Shared.Error.{Error, fee_too_low, fee_too_high}
use kiss_bdk.Common.{
  ℕ, suc, ◌≡◌, sym, ap, ◌∙◌, subst, some, none, Option, ok, Result, List, [], ◌∷◌, arith, ◌>>◌, ◌+◌,
  ◌≤◌, ◌<◌, >>=-eq-ok, or_fail-eq-ok, refuse, ltb, ◌*◌, ◌%◌, ok-injective, >>-eq-ok, inl, inr,
  Bool-cases, ◌^◌, ◌^◌, Bool-cases,
}

-- The value that an input spends.
abbrev pub spent_value : Option TxOut → ℕ
spent_value none = 0
spent_value (some utxo) = utxo.value

-- The sums without bounds, as a reader would write them.
pub total_spent : List Input → ℕ
total_spent [] = 0
total_spent (input ∷ inputs) = spent_value input.witness_utxo + total_spent inputs

pub total_paid : List Output → ℕ
total_paid [] = 0
total_paid (output ∷ outputs) = output.amount + total_paid outputs

pub checked_add-eq-some :
    (x y : ℕ) {z : ℕ} → checked_add x y ≡ some z → (z ≡ x + y) × (x + y < 2 ^ 64)
checked_add-eq-some x y {z = z} h = elim (Bool-cases (ltb (x + y) (2 ^ 64))) [
  | inl e ↦ let k = rw e at h in let same_sum : x + y ≡ z = cc in (sym same_sum, ground arith)
  | inr e ↦ let k = rw e at h in absurd cc
]

checked_sub-eq-some : (a b : ℕ) {rest : ℕ} → checked_sub a b ≡ some rest → a ≡ b + rest
checked_sub-eq-some a b h = ground arith

spent_from-total_spent :
    (i spent : ℕ) (inputs : List Input) {total : ℕ}
    → spent_from i spent inputs ≡ ok total
    → total ≡ spent + total_spent inputs
unfolding spent_from prevout total_spent
spent_from-total_spent i spent [] h = ground arith
spent_from-total_spent i spent (input ∷ inputs) h =
    let (utxo, u, h₁) = >>=-eq-ok _ _ h in
    let (t, e, h₂) = >>=-eq-ok _ _ h₁ in
    let value : spent_value input.witness_utxo ≡ utxo.value =
      ap spent_value (or_fail-eq-ok input.witness_utxo _ u) in
    let ih : _ = spent_from-total_spent (suc i) t inputs h₂ in
    let sum : _ = (checked_add-eq-some spent utxo.value (or_fail-eq-ok _ _ e)).0 in omega arith

paid_from-total_paid :
    (paid : ℕ) (outputs : List Output) {total : ℕ}
    → paid_from paid outputs ≡ ok total
    → total ≡ paid + total_paid outputs
unfolding paid_from total_paid
paid_from-total_paid paid [] h = ground arith
paid_from-total_paid paid (output ∷ outputs) h =
    let (t, e, h₁) = >>=-eq-ok _ _ h in
    let ih = paid_from-total_paid t outputs h₁ in
    let sum = (checked_add-eq-some paid output.amount (or_fail-eq-ok _ _ e)).0 in omega arith

-- What the fee is: the inputs are worth the outputs and the fee.
pub fee_balance :
    (psbt : Psbt) {sats : ℕ}
    → fee psbt ≡ ok sats
    → total_spent psbt.inputs ≡ total_paid psbt.outputs + sats
unfolding fee
fee_balance psbt h =
    let (spent, s, h₁) = >>=-eq-ok _ _ h in
    let (paid, p, h₂) = >>=-eq-ok _ _ h₁ in
    let s' = spent_from-total_spent 0 0 psbt.inputs s in
    let p' = paid_from-total_paid 0 psbt.outputs p in
    let d = checked_sub-eq-some spent paid (or_fail-eq-ok _ _ h₂) in omega arith

-- The two comparisons of `check_fee`, by the product of the rate and the weight.
abbrev fee_steps : ℕ → ℕ → Result Error ℕ
fee_steps product paid = do
  let wanted = div_ceil (product % u64_mod) 4
  refuse (ltb paid wanted) fee_too_low
  refuse (ltb (((wanted * fee_ceiling_factor) % u64_mod + fee_ceiling_slack_sats) % u64_mod) paid)
      fee_too_high
  ok paid

-- What the two comparisons say of a fee when the product fits in 64 bits.
fee_steps-eq-ok :
    (product paid : ℕ) {sats : ℕ}
    → product < u64_mod
    → fee_steps product paid ≡ ok sats
    → (paid ≡ sats)
      × (product ≤ 4 * paid)
      × (4 * paid ≤ 3 * (product + 3) + 4 * fee_ceiling_slack_sats)
unfolding ◌>>◌
fee_steps-eq-ok product paid small h = ground arith

module _ (b : Bitcoin) where
  -- When the fee check passes and the product of the agreed rate and the estimated weight fits in 64
  -- bits, the fee is what the inputs leave after the outputs, it pays the agreed rate (in satoshis
  -- for four weight units) for the estimated weight, and it is at most three times that, rounded up,
  -- and the slack.
  pub check_fee_bounds :
      (psbt : Psbt) (fee_rate weight sats : ℕ)
      → estimated_weight b psbt ≡ ok weight
      → fee_rate * weight < u64_mod
      → check_fee b psbt fee_rate ≡ ok sats
      → (total_spent psbt.inputs ≡ total_paid psbt.outputs + sats)
        × (fee_rate * weight ≤ 4 * sats)
        × (4 * sats ≤ 3 * (fee_rate * weight + 3) + 4 * fee_ceiling_slack_sats)
  unfolding check_fee
  check_fee_bounds psbt fee_rate weight sats w small h =
      let (paid, f, h₁) = >>=-eq-ok _ _ h in
      let (weight', w', h₂) = >>=-eq-ok _ _ h₁ in
      let same_weight = ok-injective (sym w' ∙ w) in
      let (same_fee, low, high) =
        fee_steps-eq-ok (fee_rate * weight) paid small
          (subst (λ v. fee_steps (fee_rate * v) paid ≡ ok sats) same_weight h₂) in
      (
        fee_balance psbt f ∙ ap (λ v. total_paid psbt.outputs + v) same_fee,
        subst (λ v. fee_rate * weight ≤ 4 * v) same_fee low,
        subst (λ v. 4 * v ≤ 3 * (fee_rate * weight + 3) + 4 * fee_ceiling_slack_sats) same_fee high,
      )

  -- A fee check that passes has found a balance.
  pub check_fee_balance :
      (psbt : Psbt) (fee_rate : ℕ) {sats : ℕ}
      → check_fee b psbt fee_rate ≡ ok sats
      → total_spent psbt.inputs ≡ total_paid psbt.outputs + sats
  unfolding check_fee
  check_fee_balance psbt fee_rate h =
      let (paid, f, h₁) = >>=-eq-ok _ _ h in
      let (weight, w, h₂) = >>=-eq-ok _ _ h₁ in
      let (_, h₃) = >>-eq-ok _ _ h₂ in
      let (_, h₄) = >>-eq-ok _ _ h₃ in
      fee_balance psbt f ∙ ap (λ v. total_paid psbt.outputs + v) (ok-injective h₄)
