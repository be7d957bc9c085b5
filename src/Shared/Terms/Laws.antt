-- ===== src/Shared/Terms/Laws.antt =====
-- The split of the amount, the terms, and the check that no coin is spent twice.
use kiss_bdk.Shared.Input.{outpoint}
use kiss_bdk.Sp.{SilentPaymentAddress}
use kiss_bdk.Psbt.{OutPoint, OutPoint-discrete, Input, Psbt}
use kiss_bdk.Shared.Terms.{
  share_of, check_terms, start, SilentPaymentAddress, join, taproot_dust_sats, has_outpoint,
  no_coin_twice_from, no_coin_twice, outpoint,
}
use kiss_bdk.Common.{
  if◌then◌else◌, true, ℕ, refl, ◌≡◌, ok, false, List, [], ◌∷◌, arith, ◌>>◌, ◌+◌, ◌≤◌, ◌<◌, ◌≢◌, ◌↔◌,
  sym, map, >>-eq-ok, refuse-eq-ok, >>-ok, refuse-ok, holds,
}

-- The two shares add up to the amount, and differ by one satoshi at most.
pub share_of_sum :
    (sats : ℕ)
    → (share_of sats start + share_of sats join ≡ sats)
      × (share_of sats join ≤ share_of sats start)
      × (share_of sats start ≤ share_of sats join + 1)
unfolding share_of
share_of_sum sats = omega arith

-- Terms pass exactly when the address is for a test network, the fee rate is not zero and both
-- wallets' shares reach the dust limit of a taproot output.
pub check_terms_iff :
    (recipient : SilentPaymentAddress) (sats fee_rate : ℕ)
    → (check_terms recipient sats fee_rate ≡ ok tt) ↔ (
        (recipient.mainnet ≡ false)
        × (0 < fee_rate)
        × (taproot_dust_sats ≤ share_of sats start)
        × (taproot_dust_sats ≤ share_of sats join))
unfolding check_terms share_of ◌>>◌
check_terms_iff recipient sats fee_rate = (λ h. ground arith, λ h. ground arith)

-- Different coins, as the list of their outpoints says it.
abbrev pub Fresh : OutPoint → List OutPoint → Type 0
Fresh o [] = Unit {0}
Fresh o (x ∷ xs) = (x ≢ o) × Fresh o xs

abbrev pub AllDifferent : List OutPoint → Type 0
AllDifferent [] = Unit {0}
AllDifferent (x ∷ xs) = Fresh x xs × AllDifferent xs

-- No outpoint of the second list is among the first.
Apart : List OutPoint → List OutPoint → Type 0
Apart seen [] = Unit {0}
Apart seen (x ∷ xs) = Fresh x seen × Apart seen xs

Apart-cons :
    (x : OutPoint) (seen xs : List OutPoint) → Apart (x ∷ seen) xs ↔ (Fresh x xs × Apart seen xs)
unfolding Apart
Apart-cons x seen [] = (λ h. (tt, tt), λ h. tt)
Apart-cons x seen (y ∷ xs) =
    let ih = Apart-cons x seen xs in
    (
      λ ((x≢y, y-new), rest).
          let (fresh, apart) = ih.0 rest in ((λ e. x≢y (sym e), fresh), (y-new, apart)),
      λ ((y≢x, fresh), (y-new, apart)). ((λ e. y≢x (sym e), y-new), ih.1 (fresh, apart)),
    )

Apart-nothing : (xs : List OutPoint) → Apart [] xs
unfolding Apart
Apart-nothing [] = tt
Apart-nothing (x ∷ xs) = (tt, Apart-nothing xs)

-- A coin passes the test exactly when it is not among the seen ones.
has_outpoint-Fresh :
    (o : OutPoint) (seen : List OutPoint) → (has_outpoint o seen ≡ false) ↔ Fresh o seen
has_outpoint-Fresh o [] = (λ h. tt, λ h. refl)
has_outpoint-Fresh o (x ∷ seen) =
    elim (OutPoint-discrete x o)
      as (λ d. ((if holds d then true else has_outpoint o seen) ≡ false) ↔ Fresh o (x ∷ seen)) [
        | yes same ↦ (λ h. cc, λ h. absurd (h.0 same))
        | no differs ↦ (
          λ h. (differs, (has_outpoint-Fresh o seen).0 h),
          λ h. (has_outpoint-Fresh o seen).1 h.1,
        )
      ]

no_coin_twice_from_iff :
    (seen : List OutPoint) (inputs : List Input)
    → (no_coin_twice_from seen inputs ≡ ok tt)
      ↔ (AllDifferent (map outpoint inputs) × Apart seen (map outpoint inputs))
unfolding no_coin_twice_from Apart
no_coin_twice_from_iff seen [] = (λ h. (tt, tt), λ h. refl)
no_coin_twice_from_iff seen (input ∷ inputs) =
    let ih = no_coin_twice_from_iff (outpoint input ∷ seen) inputs in
    let split = Apart-cons (outpoint input) seen (map outpoint inputs) in
    let is_new = has_outpoint-Fresh (outpoint input) seen in
    (
      λ h.
          let (r, h₁) = >>-eq-ok _ _ h in
          let (different, apart) = ih.0 h₁ in
          let (fresh, apart') = split.0 apart in
          ((fresh, different), (is_new.0 (refuse-eq-ok _ _ r), apart')),
      λ ((fresh, different), (new, apart')).
          >>-ok _ _ (refuse-ok _ _ (is_new.1 new)) (ih.1 (different, split.1 (fresh, apart'))),
    )

-- The check passes exactly when the transaction spends pairwise different outputs.
pub no_coin_twice_iff :
    (psbt : Psbt) → (no_coin_twice psbt ≡ ok tt) ↔ AllDifferent (map outpoint psbt.inputs)
unfolding no_coin_twice
no_coin_twice_iff psbt =
    let from = no_coin_twice_from_iff [] psbt.inputs in
    (λ h. (from.0 h).0, λ h. from.1 (h, Apart-nothing (map outpoint psbt.inputs)))
