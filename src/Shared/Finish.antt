-- ===== src/Shared/Finish.antt =====
-- src/shared.rs, "Talking to the signer, and finishing": the request that a signer gets, and the
-- checks that stand between a state and the transaction.
pub mod Laws
use kiss_bdk.Shared.Fee.{fee}
use kiss_bdk.Shared.Shares.{missing}
use kiss_bdk.Shared.Scripts.{audit}
use kiss_bdk.Shared.Signatures.{signature_verifies, unsigned_transaction}
use kiss_bdk.Shared.Input.{check_input}
use kiss_bdk.Bitcoin.{Bitcoin}
use kiss_bdk.Psbt.{Input, Psbt, Transaction, TxIn}
use kiss_bdk.Shared.Error.{
  Error, missing_share, index_out_of_range, modifiable, not_signed, signature_expected,
}
use kiss_bdk.Common.{
  ℕ, suc, some, none, Option, ok, err, Result, List, [], ◌∷◌, ◌>>=◌, ◌>>◌, Bytes, if◌then◌else◌,
  elem, guard, ◌==◌, or_fail,
}

-- The inputs of the request: the other wallet's lose their signatures.
unfoldable pub request_inputs : ℕ → List ℕ → List Input → List Input
request_inputs index mine [] = []
request_inputs index mine (input ∷ inputs) =
    (if elem index mine then input else record input { partial_sigs = []; tap_key_sig = none })
    ∷ request_inputs (suc index) mine inputs

-- What `signer_request` serializes.
unfoldable pub signer_psbt : Psbt → List ℕ → Psbt
signer_psbt state mine = record {
  global = record (state.global) { tx_modifiable_flags = 0 };
  inputs = request_inputs 0 mine state.inputs;
  outputs = state.outputs;
}

unfoldable pub none_missing : List (ℕ × Bytes) → Result Error (Unit {0})
none_missing [] = ok tt
none_missing (pair ∷ rest) = err missing_share

module _ (b : Bitcoin) where
  unfoldable pub check_all_inputs : ℕ → List Input → Result Error (Unit {0})
  check_all_inputs index [] = ok tt
  check_all_inputs index (input ∷ inputs) = do
    check_input b index input
    check_all_inputs (suc index) inputs

  -- The witness of a signed input. A verified P2WPKH input has its signature.
  unfoldable pub witness : Input → Option (List Bytes)
  witness input = elim input.tap_key_sig [
    | some signature ↦ some (b.p2tr_witness signature)
    | none ↦ elim input.partial_sigs [
      | [] ↦ none
      | (public, signature) ∷ more ↦ some (b.p2wpkh_witness signature public.inner)
    ]
  ]

  -- The loop over the inputs, each with its transaction input.
  unfoldable pub sign_inputs :
      Psbt → Transaction → ℕ → List Input → List TxIn → Result Error (List TxIn)
  sign_inputs state unsigned index [] txins = ok txins
  sign_inputs state unsigned index (input ∷ inputs) [] = err index_out_of_range
  sign_inputs state unsigned index (input ∷ inputs) (txin ∷ txins) = do
    signed ← signature_verifies b state unsigned index
    guard signed (not_signed index)
    stack ← or_fail (witness input) signature_expected
    rest ← sign_inputs state unsigned (suc index) inputs txins
    ok (record txin { witness = stack } ∷ rest)

  -- Everything checked once more, from nothing, and the transaction.
  unfoldable pub finalize : Psbt → Result Error Transaction
  finalize state = do
    guard (state.global.tx_modifiable_flags == 0) modifiable
    check_all_inputs 0 state.inputs
    shares ← audit b state
    none_missing (missing shares)
    _ ← fee state
    tx ← unsigned_transaction b state
    inputs ← sign_inputs state tx 0 state.inputs tx.input
    ok (record tx { input = inputs })
