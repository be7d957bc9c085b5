-- ===== src/SpSpend/Laws.antt =====
-- The coins that are chosen cover the payment, and only the owner's signatures pass.
use kiss_bdk.Shared.Fee.Laws.{checked_add-eq-some}
use kiss_bdk.Psbt.{TxOut, Transaction, Signature, V0Input}
use kiss_bdk.Bitcoin.{Bitcoin}
use kiss_bdk.SpSpend.{
  SpCoin, input_weight_of_coin, select_from, select, verify_signature, verify_each, needed,
}
use kiss_bdk.Common.{
  ℕ, suc, Bytes, some, List, [], ◌∷◌, ok, true, ◌+◌, ◌≤◌, ◌<◌, ◌≡◌, ap, ◌∙◌, subst, inl, inr, ◌⊎◌,
  Bool-cases, arith, All, length, get_elem?, >>=-eq-ok, >>-eq-ok, ok-injective, or_fail-eq-ok,
  guard-eq-ok, ==_iff, leb, ◌==◌, ◌^◌, ◌||◌, ◌*◌, ◌%◌,
}

-- Coins of the candidates, in their order.
pub data Picked : List SpCoin → List SpCoin → Type 0 where
  no_more : (candidates : List SpCoin) → Picked [] candidates
  passed :
      (coin : SpCoin) {chosen candidates : List SpCoin}
      → Picked chosen candidates
      → Picked chosen (coin ∷ candidates)
  taken :
      (coin : SpCoin) {chosen candidates : List SpCoin}
      → Picked chosen candidates
      → Picked (coin ∷ chosen) (coin ∷ candidates)

abbrev pub total_of : List SpCoin → ℕ
total_of [] = 0
total_of (coin ∷ coins) = coin.amount + total_of coins

module _ (fee_for : ℕ → ℕ) where
  -- `rest` added to `chosen` coins of `total`.
  abbrev EnoughFrom : ℕ → ℕ → List SpCoin → ℕ → ℕ → List SpCoin → Type 0
  EnoughFrom target max_inputs candidates chosen total rest =
      Picked rest candidates
      × All (λ coin. fee_for input_weight_of_coin < coin.amount) rest
      × (chosen + length rest ≤ max_inputs)
      × (total + total_of rest < 2 ^ 64)
      × ((wanted : ℕ) × (needed fee_for target (chosen + length rest) ≡ ok wanted)
          × (wanted ≤ total + total_of rest))

  select_from-EnoughFrom :
      (target max_inputs : ℕ) (candidates : List SpCoin) (chosen total skipped : ℕ)
      {rest : List SpCoin}
      → chosen ≤ max_inputs
      → select_from fee_for target max_inputs candidates chosen total skipped ≡ ok rest
      → EnoughFrom target max_inputs candidates chosen total rest
  unfolding select_from
  select_from-EnoughFrom target max_inputs [] chosen total skipped few h = cc
  select_from-EnoughFrom target max_inputs (coin ∷ candidates) chosen total skipped {rest = rest}
        few h =
      elim (Bool-cases (leb coin.amount (fee_for input_weight_of_coin))) [
        | inl dust ↦
            let (p, a, n, t, w) =
              select_from-EnoughFrom target max_inputs candidates chosen total (suc skipped) few
                (rw dust at h) in
            (passed coin p, a, n, t, w)
        | inr worth ↦
            let above : fee_for input_weight_of_coin < coin.amount = ground arith in
            let h₁ = rw worth at h in
            elim (Bool-cases (chosen == max_inputs)) [
              | inl full ↦ let k = rw full at h₁ in cc
              | inr room ↦
                  let more : suc chosen ≤ max_inputs = ground arith in
                  let (sum, s, h₂) = >>=-eq-ok _ _ (rw room at h₁) in
                  let (wanted, w, h₃) = >>=-eq-ok _ _ h₂ in
                  let (same_sum, fits) =
                    checked_add-eq-some total coin.amount (or_fail-eq-ok _ _ s) in
                  elim (Bool-cases (leb wanted sum)) [
                    | inl enough ↦
                        let covers : wanted ≤ sum = ground arith in
                        let k = ok-injective (rw enough at h₃) in
                        subst (EnoughFrom target max_inputs (coin ∷ candidates) chosen total) k (
                          taken coin (no_more candidates),
                          (above, tt),
                          omega arith,
                          omega arith,
                          (wanted, ap (needed fee_for target) (omega arith) ∙ w, omega arith),
                        )
                    | inr short ↦
                        let (others, r, e) = >>=-eq-ok _ _ (rw short at h₃) in
                        let (p, a, n, t, (want, q, c)) =
                          select_from-EnoughFrom target max_inputs candidates (suc chosen) sum
                            skipped more r in
                        subst (EnoughFrom target max_inputs (coin ∷ candidates) chosen total)
                          (ok-injective e)
                          (
                            taken coin p,
                            (above, a),
                            omega arith,
                            omega arith,
                            (want, ap (needed fee_for target) (omega arith) ∙ q, omega arith),
                          )
                  ]
            ]
      ]

  needed-eq-ok :
      (target inputs : ℕ) {wanted : ℕ}
      → needed fee_for target inputs ≡ ok wanted
      → wanted ≡ target + fee_for ((338 + 230 * inputs) % 2 ^ 64)
  unfolding needed
  needed-eq-ok target inputs h = (checked_add-eq-some target _ (or_fail-eq-ok _ _ h)).0

  -- The coins pay for `target` and for the fee of a transaction that spends them: an input weighs 230
  -- units, and all else 338.
  abbrev pub IsEnough : ℕ → ℕ → List SpCoin → List SpCoin → Type 0
  IsEnough target max_inputs candidates chosen =
      Picked chosen candidates
      × All (λ coin. fee_for 230 < coin.amount) chosen
      × (length chosen ≤ max_inputs)
      × (total_of chosen < 2 ^ 64)
      × (target + fee_for ((338 + 230 * length chosen) % 2 ^ 64) ≤ total_of chosen)

  -- When coins are selected: they are candidates, in the candidates' order and each taken once; each is
  -- worth more than the fee for the 230 weight units of an input; they are no more than the limit; their
  -- sum fits in 64 bits; and it covers the target and the fee for 338 weight units and 230 more for each
  -- of them, a weight that wraps at 64 bits.
  pub select-IsEnough :
      (candidates : List SpCoin) (target max_inputs : ℕ) (chosen : List SpCoin)
      → select fee_for candidates target max_inputs ≡ ok chosen
      → IsEnough target max_inputs candidates chosen
  unfolding select
  select-IsEnough candidates target max_inputs chosen h =
      let (picked, worth, few, fits, (wanted, n, covers)) =
        select_from-EnoughFrom target max_inputs candidates 0 0 0 (omega arith) h in
      let same_count : length chosen ≡ 0 + length chosen = omega arith in
      let cost = needed-eq-ok target (length chosen) (ap (needed fee_for target) same_count ∙ n) in
      (picked, worth, omega arith, omega arith, omega (arith, cost))

module _ (b : Bitcoin) where
  -- The input has a signature over the whole transaction, by this key.
  abbrev pub IsSigned : Transaction → List V0Input → List TxOut → ℕ → Bytes → Type 0
  IsSigned tx inputs prevouts index key =
      (input : V0Input) × (signature : Signature) × (sighash : Bytes) × (get_elem? inputs index
        ≡ some input)
      × (input.tap_key_sig ≡ some signature)
      × ((signature.sighash_type ≡ 0) ⊎ (signature.sighash_type ≡ 1))
      × (b.taproot_signature_hash tx index prevouts signature.sighash_type ≡ some sighash)
      × (b.verify_schnorr sighash signature.signature key ≡ true)

  whole_transaction : (n : ℕ) → (n == 0 || n == 1) ≡ true → (n ≡ 0) ⊎ (n ≡ 1)
  whole_transaction n h = elim (Bool-cases (n == 0)) [
    | inl e ↦ inl ((==_iff n 0).0 e)
    | inr e ↦ inr ((==_iff n 1).0 (rw e at h))
  ]

  verify_signature-IsSigned :
      (tx : Transaction) (inputs : List V0Input) (prevouts : List TxOut) (index : ℕ) (key : Bytes)
      → verify_signature b tx inputs prevouts index key ≡ ok tt
      → IsSigned tx inputs prevouts index key
  unfolding verify_signature
  verify_signature-IsSigned tx inputs prevouts index key h =
      let (input, i, h₁) = >>=-eq-ok _ _ h in
      let (signature, s, h₂) = >>=-eq-ok _ _ h₁ in
      let (k, h₃) = >>-eq-ok _ _ h₂ in
      let (sighash, d, v) = >>=-eq-ok _ _ h₃ in
      (
        input,
        signature,
        sighash,
        or_fail-eq-ok _ _ i,
        or_fail-eq-ok _ _ s,
        whole_transaction _ (guard-eq-ok _ _ k),
        or_fail-eq-ok _ _ d,
        guard-eq-ok _ _ v,
      )

  abbrev pub AllSigned : Transaction → List V0Input → List TxOut → List (ℕ × Bytes) → Type 0
  AllSigned tx inputs prevouts [] = Unit {0}
  AllSigned tx inputs prevouts ((index, key) ∷ sp) =
      IsSigned tx inputs prevouts index key × AllSigned tx inputs prevouts sp

  pub verify_each-AllSigned :
      (tx : Transaction) (inputs : List V0Input) (prevouts : List TxOut) (sp : List (ℕ × Bytes))
      → verify_each b tx inputs prevouts sp ≡ ok tt
      → AllSigned tx inputs prevouts sp
  unfolding verify_each
  verify_each-AllSigned tx inputs prevouts [] h = tt
  verify_each-AllSigned tx inputs prevouts ((index, key) ∷ sp) h =
      let (v, h₁) = >>-eq-ok _ _ h in
      (
        verify_signature-IsSigned tx inputs prevouts index key v,
        verify_each-AllSigned tx inputs prevouts sp h₁,
      )
