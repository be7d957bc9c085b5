-- ===== src/Shared/Finish/Laws.antt =====
-- What stands behind a transaction that `finalize` returns.
use kiss_bdk.Shared.Fee.Laws.{total_spent, fee_balance, total_paid}
use kiss_bdk.Shared.Proved.{AllProved, check_shares-AllProved}
use kiss_bdk.Shared.Input.{check_input}
use kiss_bdk.Shared.Shares.{Shares, missing}
use kiss_bdk.Shared.Signatures.{transaction_inputs, unsigned_transaction, signature_verifies}
use kiss_bdk.Shared.Scripts.{audit}
use kiss_bdk.Bitcoin.{Bitcoin}
use kiss_bdk.Shared.Finish.{
  none_missing, audit, check_all_inputs, sign_inputs, unsigned_transaction, finalize, check_input,
  signature_verifies, missing,
}
use kiss_bdk.Psbt.{TxIn, Transaction, Input, Psbt}
use kiss_bdk.Shared.Error.{not_signed}
use kiss_bdk.Shared.Input.{outpoint}
use kiss_bdk.Common.{
  ℕ, suc, refl, ◌≡◌, sym, ap, ◌∙◌, subst, ok, true, List, [], ◌∷◌, map, Bytes, ◌+◌, >>-eq-ok,
  ok-injective, >>=-eq-ok, guard-eq-ok,
}

-- The transaction without its witnesses, which is what the signers signed.
abbrev pub without_witness : TxIn → TxIn
without_witness txin = record txin { witness = [] }

abbrev pub without_witnesses : Transaction → Transaction
without_witnesses tx = record tx { input = map without_witness tx.input }

none_missing-nil : (pairs : List (ℕ × Bytes)) → none_missing pairs ≡ ok tt → pairs ≡ []
unfolding none_missing
none_missing-nil [] h = refl
none_missing-nil (pair ∷ rest) h = cc

module _ (b : Bitcoin) where
  audit-AllProved :
      (state : Psbt) {shares : Shares} → audit b state ≡ ok shares → AllProved b 0 state.inputs
  unfolding audit
  audit-AllProved state h =
      let (_, h₁) = >>-eq-ok _ _ h in
      let (found, c, _) = >>=-eq-ok _ _ h₁ in check_shares-AllProved b state found c

  -- Every input, from position `i` on, proves its coin.
  abbrev pub AllChecked : ℕ → List Input → Type 0
  AllChecked i [] = Unit {0}
  AllChecked i (input ∷ inputs) = (check_input b i input ≡ ok tt) × AllChecked (suc i) inputs

  -- The state carries a signature for `tx` on each of `inputs`, the first of which is at `i`.
  abbrev pub AllSigned : Psbt → Transaction → ℕ → List Input → Type 0
  AllSigned state tx i [] = Unit {0}
  AllSigned state tx i (input ∷ inputs) =
      (signature_verifies b state tx i ≡ ok true) × AllSigned state tx (suc i) inputs

  check_all_inputs-AllChecked :
      (i : ℕ) (inputs : List Input) → check_all_inputs b i inputs ≡ ok tt → AllChecked i inputs
  unfolding check_all_inputs
  check_all_inputs-AllChecked i [] h = tt
  check_all_inputs-AllChecked i (input ∷ inputs) h =
      let (e, rest) = >>-eq-ok _ _ h in (e, check_all_inputs-AllChecked (suc i) inputs rest)

  sign_inputs-AllSigned :
      (state : Psbt) (tx : Transaction) (i : ℕ) (inputs : List Input) (txins : List TxIn)
      {signed : List TxIn}
      → sign_inputs b state tx i inputs txins ≡ ok signed
      → AllSigned state tx i inputs × (map without_witness signed ≡ map without_witness txins)
  unfolding sign_inputs
  sign_inputs-AllSigned state tx i [] txins h =
      (tt, ap (map without_witness) (sym (ok-injective h)))
  sign_inputs-AllSigned state tx i (input ∷ inputs) [] h = cc
  sign_inputs-AllSigned state tx i (input ∷ inputs) (txin ∷ txins) {signed = signed} h =
      let (verified, v, h₁) = >>=-eq-ok _ _ h in
      let (g, h₂) = >>-eq-ok _ _ h₁ in
      let (stack, _, h₃) = >>=-eq-ok _ _ h₂ in
      let (rest, r, h₄) = >>=-eq-ok _ _ h₃ in
      let (all, same_rest) = sign_inputs-AllSigned state tx (suc i) inputs txins r in
      (
        (v ∙ ap ok (guard-eq-ok verified (not_signed i) g), all),
        subst (λ l. map without_witness l ≡ without_witness txin ∷ map without_witness txins)
            (ok-injective h₄) (ap (λ l. without_witness txin ∷ l) same_rest),
      )

  transaction_inputs-unsigned :
      (i : ℕ) (inputs : List Input) {txins : List TxIn}
      → transaction_inputs i inputs ≡ ok txins
      → map without_witness txins ≡ txins
  unfolding transaction_inputs
  transaction_inputs-unsigned i [] h = subst (λ l. map without_witness l ≡ l) (ok-injective h) refl
  transaction_inputs-unsigned i (input ∷ inputs) h =
      let (sequence, _, h₁) = >>=-eq-ok _ _ h in
      let (rest, r, h₂) = >>=-eq-ok _ _ h₁ in
      subst (λ l. map without_witness l ≡ l) (ok-injective h₂)
        (ap
          (λ l. record { previous_output = outpoint input; sequence = sequence; witness = [] } ∷ l)
          (transaction_inputs-unsigned (suc i) inputs r))

  unsigned_transaction-unsigned :
      (state : Psbt) {tx : Transaction}
      → unsigned_transaction b state ≡ ok tx
      → map without_witness tx.input ≡ tx.input
  unfolding unsigned_transaction
  unsigned_transaction-unsigned state h =
      let (lock_time, _, h₁) = >>=-eq-ok _ _ h in
      let (inputs, i, h₂) = >>=-eq-ok _ _ h₁ in
      let (outputs, _, h₃) = >>=-eq-ok _ _ h₂ in
      subst (λ tx. map without_witness tx.input ≡ tx.input) (ok-injective h₃)
        (transaction_inputs-unsigned 0 state.inputs i)

  -- What `finalize` has found out about the state when it returns `tx`.
  abbrev pub IsFinal : Psbt → Transaction → Type 0
  IsFinal state tx =
      AllChecked 0 state.inputs
      × AllProved b 0 state.inputs
      × ((shares : Shares) × (audit b state ≡ ok shares) × (missing shares ≡ []))
      × ((sats : ℕ) × (total_spent state.inputs ≡ total_paid state.outputs + sats))
      × (unsigned_transaction b state ≡ ok (without_witnesses tx))
      × AllSigned state (without_witnesses tx) 0 state.inputs

  -- When `finalize` returns a transaction, every input proves its coin, every share is proved for the
  -- key of its input and none is missing, the audit of the scripts passes, the inputs are worth the
  -- outputs and a fee, the transaction without its witnesses is the one that the state describes, and
  -- every input carries a signature that verifies for it.
  pub finalize-IsFinal :
      (state : Psbt) (tx : Transaction) → finalize b state ≡ ok tx → IsFinal state tx
  unfolding finalize
  finalize-IsFinal state tx h =
      let (_, h₁) = >>-eq-ok _ _ h in
      let (checked, h₂) = >>-eq-ok _ _ h₁ in
      let (shares, a, h₃) = >>=-eq-ok _ _ h₂ in
      let (m, h₄) = >>-eq-ok _ _ h₃ in
      let (sats, f, h₅) = >>=-eq-ok _ _ h₄ in
      let (unsigned, u, h₆) = >>=-eq-ok _ _ h₅ in
      let (inputs, s, h₇) = >>=-eq-ok _ _ h₆ in
      let (all, same_inputs) =
        sign_inputs-AllSigned state unsigned 0 state.inputs unsigned.input s in
      let plain : unsigned ≡ without_witnesses tx =
        ap (λ l. record unsigned { input = l })
          (sym (unsigned_transaction-unsigned state u) ∙ sym same_inputs)
        ∙ ap without_witnesses (ok-injective h₇) in
      (
        check_all_inputs-AllChecked 0 state.inputs checked,
        audit-AllProved state a,
        (shares, a, none_missing-nil (missing shares) m),
        (sats, fee_balance state f),
        u ∙ ap ok plain,
        subst (λ t. AllSigned state t 0 state.inputs) plain all,
      )
