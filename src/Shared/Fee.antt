-- ===== src/Shared/Fee.antt =====
-- src/shared.rs: the weight and the fee of the joined transaction. Amounts are `u64`: sums are
-- checked, and the product of the fee rate and the weight wraps, as it does in a release build.
pub mod Laws
use kiss_bdk.Shared.Signatures.{is_some}
use kiss_bdk.Shared.Input.{prevout}
use kiss_bdk.Bitcoin.{Bitcoin}
use kiss_bdk.Psbt.{Input, Output, Psbt}
use kiss_bdk.Shared.Error.{
  Error, input_overflow, output_overflow, overspent, fee_too_low, fee_too_high,
}
use kiss_bdk.Common.{
  ℕ, zero, suc, refl, ◌≡◌, sym, ap, ◌∙◌, subst, inl, inr, some, none, Option, ok, err, Result, true,
  false, Bool, List, [], ◌∷◌, ◌++◌, map, arith, ◌>>=◌, ◌>>◌, Bytes, ◌+◌, ◌≤◌, ◌<◌, ◌⊎◌, ◌≢◌, ◌^◌,
  if◌then◌else◌, ◌-◌, ltb, leb, or_fail, ◌/◌, length, ◌*◌, ◌%◌, refuse,
}

abbrev pub u64_mod : ℕ
u64_mod = 2 ^ 64

abbrev pub taproot_script_bytes : ℕ
taproot_script_bytes = 34

abbrev pub p2wpkh_witness_weight : ℕ
p2wpkh_witness_weight = 1 + 1 + 71 + 1 + 33

abbrev pub taproot_witness_weight : ℕ
taproot_witness_weight = 1 + 1 + 64

abbrev pub fee_ceiling_factor : ℕ
fee_ceiling_factor = 3

abbrev pub fee_ceiling_slack_sats : ℕ
fee_ceiling_slack_sats = 1000

-- `Amount::checked_add`
abbrev pub checked_add : ℕ → ℕ → Option ℕ
checked_add a b = if ltb (a + b) u64_mod then some (a + b) else none

-- `Amount::checked_sub`
abbrev pub checked_sub : ℕ → ℕ → Option ℕ
checked_sub a b = if leb b a then some (a - b) else none

unfoldable pub spent_from : ℕ → ℕ → List Input → Result Error ℕ
spent_from i spent [] = ok spent
spent_from i spent (input ∷ inputs) = do
  utxo ← prevout i input
  total ← or_fail (checked_add spent utxo.value) input_overflow
  spent_from (suc i) total inputs

unfoldable pub paid_from : ℕ → List Output → Result Error ℕ
paid_from paid [] = ok paid
paid_from paid (output ∷ outputs) = do
  total ← or_fail (checked_add paid output.amount) output_overflow
  paid_from total outputs

-- What the transaction pays in fees: the inputs minus the outputs.
unfoldable pub fee : Psbt → Result Error ℕ
fee psbt = do
  spent ← spent_from 0 0 psbt.inputs
  paid ← paid_from 0 psbt.outputs
  or_fail (checked_sub spent paid) overspent

abbrev pub compact_size : ℕ → ℕ
compact_size value = if leb value 0xfc then 1 else if leb value 0xffff then 3 else 5

abbrev pub script_size : Output → ℕ
script_size output =
    if is_some output.sp_v0_info then taproot_script_bytes else length output.script_pubkey

unfoldable pub output_weight : ℕ → List Output → ℕ
output_weight base [] = base
output_weight base (output ∷ outputs) =
    let script = script_size output in
    output_weight (base + (8 + compact_size script + script)) outputs

abbrev pub div_ceil : ℕ → ℕ → ℕ
div_ceil a d = (a + (d - 1)) / d

module _ (b : Bitcoin) where
  unfoldable pub input_weight : ℕ → ℕ → ℕ → List Input → Result Error (ℕ × ℕ)
  input_weight i base witness [] = ok (base, witness)
  input_weight i base witness (input ∷ inputs) = do
    utxo ← prevout i input
    input_weight (suc i) (base + (36 + 4 + 1))
        (witness
          + (if b.is_p2tr utxo.script_pubkey
              then taproot_witness_weight
              else p2wpkh_witness_weight))
        inputs

  -- The weight that the signed transaction will have, estimated on the low side.
  unfoldable pub estimated_weight : Psbt → Result Error ℕ
  estimated_weight psbt = do
    inputs ←
        input_weight 0
          (4 + 4 + compact_size (length psbt.inputs) + compact_size (length psbt.outputs)) 2
          psbt.inputs
    ok (output_weight inputs.0 psbt.outputs * 4 + inputs.1)

  -- At least the agreed rate, and not wildly more.
  unfoldable pub check_fee : Psbt → ℕ → Result Error ℕ
  check_fee psbt fee_rate = do
    paid ← fee psbt
    weight ← estimated_weight psbt
    let wanted = div_ceil ((fee_rate * weight) % u64_mod) 4
    refuse (ltb paid wanted) fee_too_low
    refuse (ltb (((wanted * fee_ceiling_factor) % u64_mod + fee_ceiling_slack_sats) % u64_mod) paid)
        fee_too_high
    ok paid
