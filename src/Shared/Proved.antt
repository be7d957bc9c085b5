-- ===== src/Shared/Proved.antt =====
-- What a successful `check_shares` says: every share was made with the key of its own input.
use kiss_bdk.Shared.Input.{input_key}
use kiss_bdk.Shared.Shares.{check_input_shares, check_inputs, check_shares, Shares, scan_keys_from}
use kiss_bdk.Psbt.{Input, Psbt}
use kiss_bdk.Bitcoin.{Bitcoin}
use kiss_bdk.Common.{
  ℕ, suc, ◌≡◌, some, ok, List, [], ◌∷◌, Bytes, All, >>=-eq-ok, lookup, >>-eq-ok, or_fail-eq-ok,
  context-eq-ok,
}
use kiss_bdk.Dleq

-- The share `e` on input `i` passed its proof for the key that `input_key` gives.
abbrev pub ShareProved : Bitcoin → ℕ → Input → Bytes × Bytes → Type 0
ShareProved b i input (scan, share) =
    (key : Bytes) × (proof : Bytes) × (input_key b i input ≡ ok key)
    × (lookup scan input.sp_dleq_proofs ≡ some proof)
    × (Dleq.verify b key scan share proof ≡ ok tt)

-- Every share of every input, from position `i` on.
abbrev pub AllProved : Bitcoin → ℕ → List Input → Type 0
AllProved b i [] = Unit {0}
AllProved b i (input ∷ inputs) =
    All (ShareProved b i input) input.sp_ecdh_shares × AllProved b (suc i) inputs

module _ (b : Bitcoin) where
  check_input_shares-Proved :
      (i : ℕ) (input : Input) (key : Bytes) (keys : List Bytes) (shares : List (Bytes × Bytes))
      {v : List (ℕ × Bytes)}
      → input_key b i input ≡ ok key
      → check_input_shares b i key keys input.sp_dleq_proofs shares ≡ ok v
      → All (ShareProved b i input) shares
  unfolding check_input_shares
  check_input_shares-Proved i input key keys [] k h = tt
  check_input_shares-Proved i input key keys ((scan, share) ∷ shares) k h =
      let (_, h₁) = >>-eq-ok _ _ h in
      let (proof, p, h₂) = >>=-eq-ok _ _ h₁ in
      let (v, h₃) = >>-eq-ok _ _ h₂ in
      let (rest, r, h₄) = >>=-eq-ok _ _ h₃ in
      (
        (key, proof, k, or_fail-eq-ok _ _ p, context-eq-ok _ _ v),
        check_input_shares-Proved i input key keys shares k r,
      )

  check_inputs-Proved :
      (keys : List Bytes) (i : ℕ) (inputs : List Input) {v : List (ℕ × Bytes)}
      → check_inputs b keys i inputs ≡ ok v
      → AllProved b i inputs
  unfolding check_inputs
  check_inputs-Proved keys i [] h = tt
  check_inputs-Proved keys i (input ∷ inputs) h =
      let (key, k, h₁) = >>=-eq-ok _ _ h in
      let (here, e, h₂) = >>=-eq-ok _ _ h₁ in
      let (_, h₃) = >>-eq-ok _ _ h₂ in
      let (rest, e', h₄) = >>=-eq-ok _ _ h₃ in
      (
        check_input_shares-Proved i input key keys input.sp_ecdh_shares k e,
        check_inputs-Proved keys (suc i) inputs e',
      )

  -- A PSBT that passes `check_shares` holds only shares that pass the proof beside them for the
  -- public key of their own input.
  pub check_shares-AllProved :
      (psbt : Psbt) (shares : Shares) → check_shares b psbt ≡ ok shares → AllProved b 0 psbt.inputs
  unfolding check_shares
  check_shares-AllProved psbt shares h =
      let (_, h₁) = >>-eq-ok _ _ h in
      let (rs, _, h₂) = >>=-eq-ok _ _ h₁ in
      let (v, e, h₃) = >>=-eq-ok _ _ h₂ in
      check_inputs-Proved (scan_keys_from [] rs) 0 psbt.inputs e
