-- ===== src/Shared/Half.antt =====
-- src/shared.rs, section 4 of the contract: a wallet's half of the payment, as BDK built it, in PSBTv2.
pub mod Laws
use kiss_bdk.Shared.Fee.{u64_mod, checked_add, checked_sub}
use kiss_bdk.Psbt.{TxOut, Psbt, Input, Output, V0Psbt}
use kiss_bdk.Bitcoin.{Bitcoin}
use kiss_bdk.Sp.{SilentPaymentAddress}
use kiss_bdk.SpSend.Placeholder.{placeholder_count, placeholder_index}
use kiss_bdk.SpSend.Build.{build_v2}
use kiss_bdk.Shared.Error.{
  Error, index_out_of_range, half_pays_recipient, output_overflow, no_placeholder, half_pays_share,
  half_outputs, not_built, half_overspends,
}
use kiss_bdk.Shared.Wire.{Wire, read_psbt}
use kiss_bdk.Shared.Finish.{check_all_inputs}
use kiss_bdk.Common.{
  ℕ, zero, suc, some, none, Option, ok, Result, List, [], ◌∷◌, ◌>>=◌, ◌>>◌, ◌+◌, ◌*◌, ◌%◌,
  if◌then◌else◌, or_fail, guard, ◌==◌, get_elem?, ltb, ◌/◌, context, set, refuse, length,
}

-- Version, lock time, counts, the silent payment output, and the segwit marker and flag.
abbrev pub shared_weight : ℕ
shared_weight = (4 + 4 + 1 + 1 + 43) * 4 + 2

-- `Sum` of `u64`, which wraps in a release build.
abbrev pub sum_values : List TxOut → ℕ
sum_values [] = 0
sum_values (output ∷ outputs) = (output.value + sum_values outputs) % u64_mod

-- The loop over the inputs that have a witness UTXO.
abbrev pub witness_utxos : List Input → List TxOut
witness_utxos [] = []
witness_utxos (input ∷ inputs) = elim input.witness_utxo as (λ x. List TxOut) [
  | none ↦ witness_utxos inputs
  | some utxo ↦ utxo ∷ witness_utxos inputs
]

-- `(i..i + n).find(|other| *other != index)`
abbrev pub find_other : ℕ → ℕ → ℕ → Option ℕ
find_other index i zero = none
find_other index i (suc n) =
    let rest = find_other index (suc i) n in if i == index then rest else some i

-- `outputs[index].amount += refund`, where `Amount` panics on overflow.
unfoldable pub add_amount : List Output → ℕ → ℕ → Result Error (List Output)
add_amount outputs index refund = do
  output ← or_fail (get_elem? outputs index) index_out_of_range
  amount ← or_fail (checked_add output.amount refund) output_overflow
  ok (set outputs index (record output { amount = amount }))

-- Half of the fee for what both halves have in common goes back into the change.
abbrev pub refund_of : ℕ → ℕ
refund_of fee_rate = (fee_rate * shared_weight) % u64_mod / 8

unfoldable pub refund_change : List Output → ℕ → ℕ → ℕ → ℕ → Result Error (List Output)
refund_change outputs index count refund paid_fee =
    elim (find_other index 0 count) as (λ x. Result Error (List Output)) [
      | none ↦ ok outputs
      | some change ↦
          let refunded = add_amount outputs change refund in
          if ltb refund paid_fee then refunded else ok outputs
    ]

module _ (b : Bitcoin) (w : Wire) (updater : Psbt → Option Psbt) where
  -- The PSBT, and the position of the placeholder in it.
  unfoldable pub half_as_v2 : V0Psbt → SilentPaymentAddress → ℕ → ℕ → Result Error (Psbt × ℕ)
  half_as_v2 half recipient share fee_rate = do
    let outputs = half.unsigned_tx.output
    guard (placeholder_count b half.unsigned_tx recipient == 1) half_pays_recipient
    index ← context (placeholder_index b half.unsigned_tx recipient) no_placeholder
    output ← or_fail (get_elem? outputs index) index_out_of_range
    guard (output.value == share) half_pays_share
    refuse (ltb 2 (length outputs)) half_outputs
    bytes ←
        context
          (build_v2 updater w.serialize half (record { index = index; recipient = recipient } ∷ []))
          not_built
    psbt ← read_psbt w bytes
    check_all_inputs b 0 psbt.inputs
    paid_fee ←
        or_fail (checked_sub (sum_values (witness_utxos psbt.inputs)) (sum_values outputs))
          half_overspends
    changed ← refund_change psbt.outputs index (length outputs) (refund_of fee_rate) paid_fee
    ok (record psbt { outputs = changed }, index)
