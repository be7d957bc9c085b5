-- ===== src/Examples/Payments.antt =====
-- The terms, the fee and the wire format of a payment, at the payment of the examples.
use kiss_bdk.Shared.Shares.{Shares, missing, complete}
use kiss_bdk.Shared.Shares.Laws.{missing-complete}
use kiss_bdk.Common.{refl, false, ◌↔◌, ◌*◌, true, ◌≢◌, err}
use kiss_bdk.Shared.Input.{outpoint, prevout}
use kiss_bdk.Shared.Fee.{
  fee, check_fee, estimated_weight, spent_from, paid_from, input_weight, output_weight,
  fee_ceiling_slack_sats,
}
use kiss_bdk.Shared.Fee.Laws.{check_fee_bounds, total_spent, total_paid}
use kiss_bdk.Shared.Terms.{check_terms, taproot_dust_sats, no_coin_twice, share_of, start, join}
use kiss_bdk.Shared.Terms.Laws.{share_of_sum, check_terms_iff, no_coin_twice_iff, AllDifferent}
use kiss_bdk.Sp.{SilentPaymentAddress}
use kiss_bdk.Examples.Toy.{toy, answer, scan_key, spend_key}
use kiss_bdk.SpSend.Strip.{strip_empty_output_scripts, magic}
use kiss_bdk.SpSend.Strip.Fuel.{strip_empty_output_scripts-Ends}
use kiss_bdk.SpSend.Cursor.{no_fuel}
use kiss_bdk.SpSend.Strip.Laws.{strip_empty_output_scripts-encode_maps}
use kiss_bdk.SpSend.Strip.Format.{encode_maps, stripped}
use kiss_bdk.Common.{
  refl, ◌≡◌, ok, false, List, [], ◌∷◌, ◌++◌, map, arith, ◌>>=◌, ◌>>◌, Bytes, ◌+◌, ◌≤◌, ◌<◌,
}

share_of_sum_example :
    (share_of 50001 start + share_of 50001 join ≡ 50001)
    × (share_of 50001 join ≤ share_of 50001 start)
    × (share_of 50001 start ≤ share_of 50001 join + 1)
share_of_sum_example = share_of_sum 50001

abbrev address : SilentPaymentAddress
address = record { mainnet = false; scan = scan_key; spend = spend_key }

check_terms_iff_example : (check_terms address 40000 2 ≡ ok tt) ↔ (
    (address.mainnet ≡ false)
    × (0 < 2)
    × (taproot_dust_sats ≤ share_of 40000 start)
    × (taproot_dust_sats ≤ share_of 40000 join))
check_terms_iff_example = check_terms_iff address 40000 2

no_coin_twice_iff_example :
    (no_coin_twice answer ≡ ok tt) ↔ AllDifferent (map outpoint answer.inputs)
no_coin_twice_iff_example = no_coin_twice_iff answer

answer_weight : estimated_weight toy answer ≡ ok 444
unfolding estimated_weight ◌>>=◌ input_weight output_weight prevout
answer_weight = refl

answer_fee : check_fee toy answer 80 ≡ ok 10000
unfolding check_fee fee estimated_weight ◌>>=◌ ◌>>◌ input_weight output_weight prevout spent_from
    paid_from
answer_fee = refl

check_fee_bounds_example :
    (total_spent answer.inputs ≡ total_paid answer.outputs + 10000)
    × (80 * 444 ≤ 4 * 10000)
    × (4 * 10000 ≤ 3 * (80 * 444 + 3) + 4 * fee_ceiling_slack_sats)
check_fee_bounds_example =
    check_fee_bounds toy answer 80 444 10000 answer_weight (omega arith) answer_fee

-- A global map with one pair, and an output map whose script is empty.
abbrev wire_maps : List (List (Bytes × Bytes))
wire_maps = ((0xfb ∷ [], 2 ∷ []) ∷ []) ∷ ((3 ∷ [], 9 ∷ []) ∷ (4 ∷ [], []) ∷ []) ∷ []

strip_empty_output_scripts-encode_maps_example :
    strip_empty_output_scripts (magic ++ encode_maps wire_maps) 0
    ≡ ok (magic ++ encode_maps (stripped 1 0 wire_maps))
strip_empty_output_scripts-encode_maps_example =
    strip_empty_output_scripts-encode_maps 0 wire_maps (
      ((omega arith, omega arith, omega arith), tt),
      (
        ((omega arith, omega arith, omega arith), ((omega arith, omega arith, omega arith), tt)),
        tt,
      ),
    )

abbrev one_share : Shares
one_share = record { scan_keys = scan_key ∷ []; verified = (0, scan_key) ∷ []; inputs = 2 }

missing-complete_example : (missing one_share ≡ []) ↔ (complete one_share ≡ true)
missing-complete_example = missing-complete one_share

strip_empty_output_scripts-Ends_example :
    strip_empty_output_scripts (magic ++ encode_maps wire_maps) 0 ≢ err no_fuel
strip_empty_output_scripts-Ends_example =
    strip_empty_output_scripts-Ends (magic ++ encode_maps wire_maps) 0
