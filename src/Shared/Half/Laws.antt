-- ===== src/Shared/Half/Laws.antt =====
-- src/shared.rs, `half_as_v2`: what a wallet's half is made of.
use kiss_bdk.Psbt.{Psbt, Output, TxOut, V0Psbt}
use kiss_bdk.Bitcoin.{Bitcoin}
use kiss_bdk.Sp.{SilentPaymentAddress}
use kiss_bdk.SpSend.Build.{build_v2}
use kiss_bdk.SpSend.Placeholder.{placeholder_count}
use kiss_bdk.Shared.Fee.Laws.{checked_add-eq-some}
use kiss_bdk.Shared.Wire.{Wire, read_psbt}
use kiss_bdk.Shared.Half.{find_other, add_amount, refund_of, refund_change, half_as_v2}
use kiss_bdk.Common.{
  ℕ, zero, suc, Bytes, Option, some, List, [], ◌∷◌, ok, ◌≡◌, ◌≢◌, ◌⊎◌, inl, inr, refl, sym, subst,
  arith, ◌+◌, ◌*◌, ◌/◌, ◌%◌, ◌^◌, ◌==◌, ltb, get_elem?, set, >>=-eq-ok, >>-eq-ok, ok-injective,
  or_fail-eq-ok, context-eq-ok, guard-eq-ok, ==_iff, Bool-cases, Option-cases, ◌≤◌, ◌∙◌, ap, length,
  refuse-eq-ok, false,
}

find_other-ne : (index i n : ℕ) {other : ℕ} → find_other index i n ≡ some other → other ≢ index
find_other-ne index i zero h = cc
find_other-ne index i (suc n) {other = other} h = elim (Bool-cases (i == index)) [
  | inl e ↦ find_other-ne index (suc i) n (rw e at h)
  | inr e ↦
      let k : ◌≡◌ {A = Option ℕ} (some i) (some other) = rw e at h in
      let here : i ≡ other = cc in λ same. ground arith
]

-- The outputs, or the same with half the fee for the 214 weight units that both halves have in common
-- added to one of them, which is not the placeholder.
abbrev pub Refunded : ℕ → ℕ → List Output → List Output → Type 0
Refunded index fee_rate before after =
    (after ≡ before)
    ⊎ ((change : ℕ) × (output : Output) × (change ≢ index)
        × (get_elem? before change ≡ some output)
        × (after
            ≡ set before change
                (record output { amount = output.amount + (fee_rate * 214) % 2 ^ 64 / 8 })))

add_amount-eq-ok :
    (outputs : List Output) (index refund : ℕ) {after : List Output}
    → add_amount outputs index refund ≡ ok after
    → (output : Output) × (get_elem? outputs index ≡ some output)
      × (after ≡ set outputs index (record output { amount = output.amount + refund }))
unfolding add_amount
add_amount-eq-ok outputs index refund h =
    let (output, o, h₁) = >>=-eq-ok _ _ h in
    let (amount, a, e) = >>=-eq-ok _ _ h₁ in
    let (sum, _) = checked_add-eq-some output.amount refund (or_fail-eq-ok _ _ a) in
    (
      output,
      or_fail-eq-ok _ _ o,
      sym (ok-injective e) ∙ ap (λ n. set outputs index (record output { amount = n })) sum,
    )

refund_change-Refunded :
    (outputs : List Output) (index count fee_rate paid_fee : ℕ) {after : List Output}
    → refund_change outputs index count (refund_of fee_rate) paid_fee ≡ ok after
    → Refunded index fee_rate outputs after
unfolding refund_change
refund_change-Refunded outputs index count fee_rate paid_fee h =
    elim (Option-cases (find_other index 0 count)) [
      | inl none_other ↦ inl (sym (ok-injective (rw (refund_change, none_other) at h)))
      | inr (change, c) ↦
          let h₁ = rw (refund_change, c) at h in
          elim (Bool-cases (ltb (refund_of fee_rate) paid_fee)) [
            | inl worth ↦
                let (output, o, e) =
                  add_amount-eq-ok outputs change (refund_of fee_rate) (rw worth at h₁) in
                inr (change, output, find_other-ne index 0 count c, o, e)
            | inr too_little ↦ inl (sym (ok-injective (rw too_little at h₁)))
          ]
    ]

module _ (b : Bitcoin) (w : Wire) (updater : Psbt → Option Psbt) where
  -- A PSBTv2 and the position of the payment in it: the PSBTv2 is read back from what `build_v2` makes
  -- of the half, with the recipient at the position in place of a script, and the refund added. The
  -- half pays its share at that position, and pays the recipient nowhere else.
  abbrev pub IsHalf : V0Psbt → SilentPaymentAddress → ℕ → ℕ → Psbt → ℕ → Type 0
  IsHalf half recipient share fee_rate mine index =
      (placeholder_count b half.unsigned_tx recipient ≡ 1)
      × ((paid : TxOut) × (get_elem? half.unsigned_tx.output index ≡ some paid)
          × (paid.value ≡ share))
      × (length half.unsigned_tx.output ≤ 2)
      × ((bytes : Bytes) × (built : Psbt) × (build_v2 updater w.serialize half
              (record { index = index; recipient = recipient } ∷ [])
            ≡ ok bytes)
          × (w.deserialize bytes ≡ some built)
          × (mine.inputs ≡ built.inputs)
          × Refunded index fee_rate built.outputs mine.outputs)

  pub half_as_v2-IsHalf :
      (half : V0Psbt) (recipient : SilentPaymentAddress) (share fee_rate : ℕ) {r : Psbt × ℕ}
      → half_as_v2 b w updater half recipient share fee_rate ≡ ok r
      → IsHalf half recipient share fee_rate r.0 r.1
  unfolding half_as_v2 read_psbt
  half_as_v2-IsHalf half recipient share fee_rate h =
      let (once, h₁) = >>-eq-ok _ _ h in
      let (index, _, h₂) = >>=-eq-ok _ _ h₁ in
      let (output, o, h₃) = >>=-eq-ok _ _ h₂ in
      let (v, h₄) = >>-eq-ok _ _ h₃ in
      let (few, h₅) = >>-eq-ok _ _ h₄ in
      let (bytes, c, h₆) = >>=-eq-ok _ _ h₅ in
      let (built, d, h₇) = >>=-eq-ok _ _ h₆ in
      let (_, h₈) = >>-eq-ok _ _ h₇ in
      let (paid_fee, _, h₉) = >>=-eq-ok _ _ h₈ in
      let (changed, r, e) = >>=-eq-ok _ _ h₉ in
      subst (λ r. IsHalf half recipient share fee_rate r.0 r.1) (ok-injective e)
        (
          (==_iff _ _).0 (guard-eq-ok _ _ once),
          (output, or_fail-eq-ok _ _ o, (==_iff _ _).0 (guard-eq-ok _ _ v)),
          not_above (refuse-eq-ok _ _ few),
          (
            bytes,
            built,
            context-eq-ok _ _ c,
            or_fail-eq-ok _ _ d,
            refl,
            refund_change-Refunded built.outputs index _ fee_rate paid_fee r,
          ),
        )
    where
      not_above :
          ltb 2 (length half.unsigned_tx.output) ≡ false → length half.unsigned_tx.output ≤ 2
      not_above few = ground arith
