-- ===== src/Shared/SignatureView.antt =====
-- What the checks of signatures read of a PSBT: the input at hand, and of all others no signature.
use kiss_bdk.Shared.View.{unsigned_input}
use kiss_bdk.Shared.Input.{prevout}
use kiss_bdk.Bitcoin.{Bitcoin}
use kiss_bdk.Psbt.{Input, Psbt, Transaction, Signature}
use kiss_bdk.Shared.Signatures.{
  all_prevouts, signature_verifies, carries_signature, checked_p2wpkh, checked_taproot,
  p2wpkh_verifies, taproot_verifies, transaction_inputs, lock_requirement, unsigned_transaction,
}
use kiss_bdk.Common.{
  ℕ, suc, refl, ◌≡◌, sym, ap, ◌∙◌, some, none, Option, ok, true, Bool, List, [], ◌∷◌, map, arith,
  ◌>>=◌, ◌>>◌, Bytes, get_elem?,
}

-- What a signature check reads beside the input: every witness UTXO.
all_prevouts-view :
    (i : ℕ) (is : List Input) → all_prevouts i (map unsigned_input is) ≡ all_prevouts i is
unfolding all_prevouts prevout
all_prevouts-view i [] = refl
all_prevouts-view i (x ∷ is) = rw (all_prevouts-view (suc i) is)

transaction_inputs-view :
    (i : ℕ) (is : List Input)
    → transaction_inputs i (map unsigned_input is) ≡ transaction_inputs i is
unfolding transaction_inputs
transaction_inputs-view i [] = refl
transaction_inputs-view i (x ∷ is) = rw (transaction_inputs-view (suc i) is)

locks-view :
    (is : List Input) → map lock_requirement (map unsigned_input is) ≡ map lock_requirement is
locks-view [] = refl
locks-view (x ∷ is) = ap (◌∷◌ (lock_requirement x)) (locks-view is)

-- Two states with one view of their inputs.
abbrev pub SameView : Psbt → Psbt → Type 0
SameView p q = map unsigned_input p.inputs ≡ map unsigned_input q.inputs

prevouts-view : (p q : Psbt) → SameView p q → all_prevouts 0 p.inputs ≡ all_prevouts 0 q.inputs
prevouts-view p q v =
    sym (all_prevouts-view 0 p.inputs) ∙ ap (all_prevouts 0) v ∙ all_prevouts-view 0 q.inputs

module _ (b : Bitcoin) where
  pub taproot_verifies-view :
      (p q : Psbt) (tx : Transaction) (i : ℕ) (key : Bytes) (o : Option Signature)
      → SameView p q
      → taproot_verifies b p tx i key o ≡ taproot_verifies b q tx i key o
  unfolding taproot_verifies
  taproot_verifies-view p q tx i key none v = refl
  taproot_verifies-view p q tx i key (some s) v = rw (prevouts-view p q v)

  pub checked_taproot-view :
      (p q : Psbt) (tx : Transaction) (i : ℕ) (input : Input) (key : Bytes)
      → SameView p q
      → checked_taproot b p tx i input key ≡ checked_taproot b q tx i input key
  unfolding checked_taproot
  checked_taproot-view p q tx i input key v =
      rw (taproot_verifies-view p q tx i key input.tap_key_sig v)

  pub signature_verifies-view :
      (p q : Psbt) (tx : Transaction) (i : ℕ)
      → get_elem? p.inputs i ≡ get_elem? q.inputs i
      → SameView p q
      → signature_verifies b p tx i ≡ signature_verifies b q tx i
  unfolding signature_verifies
  signature_verifies-view p q tx i e v =
      let taproot = λ (input : Input) (key : Bytes). checked_taproot-view p q tx i input key v in
      simp (signature_verifies, e, taproot)

  -- A check that does not fail on an input with a signature found it good.
  pub verified_if_carried :
      (p : Psbt) (tx : Transaction) (i : ℕ) (input : Input) {good : Bool}
      → get_elem? p.inputs i ≡ some input
      → carries_signature input ≡ true
      → signature_verifies b p tx i ≡ ok good
      → good ≡ true
  unfolding signature_verifies checked_p2wpkh checked_taproot p2wpkh_verifies taproot_verifies
      carries_signature ◌>>=◌ ◌>>◌
  verified_if_carried p tx i input g c h = ground arith

  -- The transaction does not depend on the signatures.
  pub unsigned_transaction-view :
      (p q : Psbt)
      → p.global ≡ q.global
      → p.outputs ≡ q.outputs
      → SameView p q
      → unsigned_transaction b p ≡ unsigned_transaction b q
  unfolding unsigned_transaction
  unsigned_transaction-view p q g o v =
      let inputs : transaction_inputs 0 p.inputs ≡ transaction_inputs 0 q.inputs =
        sym (transaction_inputs-view 0 p.inputs)
        ∙ ap (transaction_inputs 0) v
        ∙ transaction_inputs-view 0 q.inputs in
      let locks : map lock_requirement p.inputs ≡ map lock_requirement q.inputs =
        sym (locks-view p.inputs) ∙ ap (map lock_requirement) v ∙ locks-view q.inputs in
      simp (unsigned_transaction, inputs, locks, g, o)
