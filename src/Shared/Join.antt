-- ===== src/Shared/Join.antt =====
-- src/shared.rs, `adopt_join`: what the wallet that proposed takes over from the wallet that joined.
pub mod Laws
use kiss_bdk.Shared.Fee.{check_fee}
use kiss_bdk.Shared.Terms.{no_coin_twice, set_counts}
use kiss_bdk.Shared.Signatures.{is_some}
use kiss_bdk.Shared.Input.{
  outpoint, sequence, adopt_input, is_empty, adopt_output, fallback_lock_time,
}
use kiss_bdk.Bitcoin.{Bitcoin}
use kiss_bdk.Psbt.{
  OutPoint, Input, Output, Psbt, OutPoint-discrete, OptionNat-discrete, OptionBytes-discrete,
}
use mathlib.Core.Option
use kiss_bdk.Shared.Error.{
  Error, output_not_agreed, payment_changed, global_share, sequence_changed, change_removed,
  version_changed, lock_time_changed, modifiable, coin_dropped, no_coins_added,
}
use kiss_bdk.Common.{
  ℕ, suc, some, none, Option, ok, err, Result, Bool, List, [], ◌∷◌, ◌>>=◌, ◌>>◌, if◌then◌else◌,
  guard, ◌==◌, holds, ◌&&◌, ◌||◌, same, length, refuse,
}

-- `proposal.inputs.iter().find(...)`: this wallet's own coin with that outpoint.
unfoldable pub find_own : OutPoint → List Input → Option Input
find_own coin [] = none
find_own coin (own ∷ inputs) =
    if holds (OutPoint-discrete (outpoint own) coin) then some own else find_own coin inputs

-- How this wallet's coin is spent, which the other wallet may not change.
unfoldable pub same_spending : ℕ → Input → Input → Result Error (Unit {0})
same_spending index own theirs =
    guard
      (sequence own == sequence theirs
        && holds (OptionNat-discrete own.min_time theirs.min_time)
        && holds (OptionNat-discrete own.min_height theirs.min_height))
      (sequence_changed index)

-- An output that says the same as one of this wallet's; a silent payment script may differ.
abbrev pub claims : Output → Output → Bool
claims theirs own =
    own.amount == theirs.amount
    && holds (OptionBytes-discrete own.sp_v0_info theirs.sp_v0_info)
    && holds (OptionNat-discrete own.sp_v0_label theirs.sp_v0_label)
    && (is_some own.sp_v0_info || same own.script_pubkey theirs.script_pubkey)

-- The first unclaimed output that `theirs` claims, and the ones that stay unclaimed.
unfoldable pub claim : Output → List Output → Option (Output × List Output)
claim theirs [] = none
claim theirs (own ∷ unclaimed) =
    let rest = claim theirs unclaimed in
    if claims theirs own
    then some (own, unclaimed)
    else Option.map (λ found. (found.0, own ∷ found.1)) rest

abbrev pub new_outputs : ℕ → Output → Result Error Output
new_outputs index theirs =
    if is_some theirs.sp_v0_info then err (output_not_agreed index) else adopt_output index theirs

-- The loop over the outputs of `joined`: the new outputs, and what is unclaimed at its end.
unfoldable pub adopt_outputs :
    ℕ → List Output → List Output → Result Error (List Output × List Output)
adopt_outputs index unclaimed [] = ok ([], unclaimed)
adopt_outputs index unclaimed (theirs ∷ outputs) = elim (claim theirs unclaimed) [
  | some found ↦ do rest ← adopt_outputs (suc index) found.1 outputs; ok (found.0 ∷ rest.0, rest.1)
  | none ↦ do
    new ← new_outputs index theirs
    rest ← adopt_outputs (suc index) unclaimed outputs
    ok (new ∷ rest.0, rest.1)
]

unfoldable pub none_lost : List Output → Result Error (Unit {0})
none_lost [] = ok tt
none_lost (lost ∷ unclaimed) =
    err (if is_some lost.sp_v0_info then payment_changed else change_removed)

module _ (b : Bitcoin) where
  -- The loop over the inputs of `joined`: how many are this wallet's, and the new inputs.
  unfoldable pub adopt_inputs : List Input → ℕ → List Input → Result Error (ℕ × List Input)
  adopt_inputs proposed index [] = ok (0, [])
  adopt_inputs proposed index (theirs ∷ inputs) = elim (find_own (outpoint theirs) proposed) [
    | some own ↦ do
      same_spending index own theirs
      rest ← adopt_inputs proposed (suc index) inputs
      ok (suc rest.0, own ∷ rest.1)
    | none ↦ do
      new ← adopt_input b index theirs
      rest ← adopt_inputs proposed (suc index) inputs
      ok (rest.0, new ∷ rest.1)
  ]

  unfoldable pub adopt_join : Psbt → Psbt → ℕ → Result Error Psbt
  adopt_join proposal joined fee_rate = do
    guard (is_empty joined.global.sp_ecdh_shares && is_empty joined.global.sp_dleq_proofs)
        global_share
    guard (joined.global.tx_version == proposal.global.tx_version) version_changed
    guard (fallback_lock_time joined == fallback_lock_time proposal) lock_time_changed
    guard (joined.global.tx_modifiable_flags == 0) modifiable
    no_coin_twice joined
    inputs ← adopt_inputs proposal.inputs 0 joined.inputs
    guard (inputs.0 == length proposal.inputs) coin_dropped
    refuse (length joined.inputs == inputs.0) no_coins_added
    outputs ← adopt_outputs 0 proposal.outputs joined.outputs
    none_lost outputs.1
    let state = set_counts (record {
      global = record (proposal.global) { tx_modifiable_flags = 0 };
      inputs = inputs.1;
      outputs = outputs.0;
    })
    _ ← check_fee b state fee_rate
    ok state
