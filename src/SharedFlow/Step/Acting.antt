-- ===== src/SharedFlow/Step/Acting.antt =====
-- What a visit to the signer and a message lead to, while the session file stays as it was.
use kiss_bdk.SharedFlow.Run.{Saved, Links, World, attempt, Visit, signer_link}
use kiss_bdk.SharedFlow.Start.{Terms, join_proposal, NotJoined, refused_by, failed}
use kiss_bdk.SharedFlow.Step.{
  sign, visit_signer, ask_again, handle, handle_message, handle_parsed, consider, take_join,
  consider,
}
use kiss_bdk.SharedFlow.Step.Moves.{
  Acts, IsAnswered, no_message, unasked, refused, told, joins, Stays, >>=-Stays, answered-Stays,
}
use kiss_bdk.SharedFlow.Step.Joining.{IsOutcome, join_proposal-IsOutcome}
use kiss_bdk.Psbt.{Psbt}
use kiss_bdk.Bitcoin.{Bitcoin}
use kiss_bdk.Sp.Address.{AddressText}
use kiss_bdk.Shared.Error.{Error}
use kiss_bdk.Shared.Message.{Message, Kind, proposal, update, done, parse}
use kiss_bdk.Shared.Wire.{Wire}
use kiss_bdk.Shared.Proposal.{is_proposal}
use kiss_bdk.Shared.Session.{Session}
use kiss_bdk.Shared.Session.Steps.{respond}
use kiss_bdk.Common.{
  ℕ, zero, suc, Bytes, Option, none, some, Result, ok, err, ◌≡◌, refl, inl, inr, Result-cases,
  Bool-cases, false, ◌≢◌,
}

module _ {O : Type 0} (links : Links O) (b : Bitcoin) (w : Wire) (text : AddressText)
    (updater : Psbt → Option Psbt) where
  -- The signer's visits give the session that an answer made of it.
  pub visit_signer-Stays :
      (attempts : ℕ) (s : Session) (asked : Bytes) (visit : Visit) (before : Saved)
      (world : World O)
      → world.saved ≡ before
      → Stays
          (λ after. IsAnswered links b w s asked after)
          before
          (visit_signer links b w text updater attempts s asked visit world)
  unfolding visit_signer sign
  visit_signer-Stays zero s asked visit before world e = e
  visit_signer-Stays (suc attempts) s asked visit before world e =
      >>=-Stays (λ answer. (links.sign asked visit world.outside).0 ≡ some answer)
        (λ after. IsAnswered links b w s asked after) before (sign links asked visit) _ world
        (answered-Stays signer_link before world (links.sign asked visit world.outside) e)
        (λ answer after e' given. elim (Result-cases (respond b w s answer)) [
          | inl (passed, h) ↦ rw h (e', (visit, world.outside, answer, passed.0, given, h))
          | inr (reason, h) ↦ rw h (
              >>=-Stays (λ _. Unit {0}) (λ after. IsAnswered links b w s asked after) before
                (ask_again links reason) _ after (e', tt)
                (λ again after' e'' _. elim (Bool-cases again) [
                  | inl yes_again ↦
                      rw yes_again (visit_signer-Stays attempts s asked visit before after' e'')
                  | inr no_more ↦ rw no_more e''
                ]))
        ])

  module _ (from_str : Bytes → Option Message) (me : Bytes) (terms : Option Terms) where
    take_join-Stays :
        (line : Bytes) (saved : Saved) (message : Message) (outcome : Result NotJoined Session)
        (world : World O)
        → world.saved ≡ saved
        → saved.session ≡ none
        → parse from_str line ≡ ok message
        → IsOutcome links b w text updater me message terms outcome
        → Stays
            (Acts links b w text updater from_str me terms line saved)
            saved
            (take_join links b w text updater saved outcome world)
    take_join-Stays line saved message (ok s) world e fresh p (agreed, half, read, meets, f, h) =
        (e, joins message agreed half s fresh p read meets f h)
    take_join-Stays line saved message (err (refused_by x)) world e fresh p r =
        (e, refused message fresh p r)
    take_join-Stays line saved message (err (failed x)) world e fresh p r = e

    other_kind : (kind : Kind) → is_proposal kind ≡ false → kind ≢ proposal
    other_kind proposal h = cc
    other_kind update h = λ e. cc
    other_kind done h = λ e. cc

    consider-Stays :
        (line : Bytes) (saved : Saved) (message : Message) (world : World O)
        → world.saved ≡ saved
        → saved.session ≡ none
        → parse from_str line ≡ ok message
        → Stays
            (Acts links b w text updater from_str me terms line saved)
            saved
            (consider links b w text updater me terms saved message world)
    unfolding consider
    consider-Stays line saved message world e fresh p =
        elim (Bool-cases (is_proposal message.kind)) [
          | inr other ↦ rw other (e, unasked message fresh p (other_kind message.kind other))
          | inl is ↦ rw is (
              >>=-Stays (IsOutcome links b w text updater me message terms)
                (Acts links b w text updater from_str me terms line saved) saved
                (attempt (join_proposal links b w text updater me message terms)) _ world
                (join_proposal-IsOutcome links b w text updater me message terms saved world e)
                (λ outcome after e' deserved.
                  take_join-Stays line saved message outcome after e' fresh p deserved))
        ]

    handle_message-Stays :
        (line : Bytes) (saved : Saved) (held : Option Session) (message : Message) (world : World O)
        → world.saved ≡ saved
        → saved.session ≡ held
        → parse from_str line ≡ ok message
        → Stays
            (Acts links b w text updater from_str me terms line saved)
            saved
            (handle_message links b w text updater from_str me terms saved held message world)
    unfolding handle_message
    handle_message-Stays line saved none message world e fresh h =
        consider-Stays line saved message world e fresh h
    handle_message-Stays line saved (some s) message world e held h = (e, told s message held h)

    pub handle-Stays :
        (line : Bytes) (saved : Saved) (world : World O)
        → world.saved ≡ saved
        → Stays
            (Acts links b w text updater from_str me terms line saved)
            saved
            (handle links b w text updater from_str me terms saved line world)
    unfolding handle
    handle-Stays line saved world e = by_parse (parse from_str line) refl
      where
        by_parse :
            (r : Result Error Message)
            → parse from_str line ≡ r
            → Stays
                (Acts links b w text updater from_str me terms line saved)
                saved
                (handle_parsed links b w text updater from_str me terms saved r world)
        by_parse (ok message) h =
            handle_message-Stays line saved saved.session message world e refl h
        by_parse (err x) h = (e, no_message x h)
