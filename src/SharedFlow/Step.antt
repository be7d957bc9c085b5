-- ===== src/SharedFlow/Step.antt =====
-- src/sharedflow.rs, `Flow`: the one next thing that a wallet does in its shared send.
pub mod Joining
pub mod Moves
pub mod Acting
pub mod Keeps
pub mod Sent
pub mod Laws
use kiss_bdk.Shared.Input.{unwrap_or, is_empty}
use kiss_bdk.SharedFlow.Run.{
  Saved, FlowError, Visit, Links, World, Run, ◌>>=◌, ◌>>◌, ret, fail, lift, shared, confirmed,
  answered, out_of_attempts, attempt, no_such_message, channel, wallet, signer_link, gave_up,
}
use kiss_bdk.SharedFlow.Start.{
  Terms, refused_by, failed, join_proposal, load, save, NotJoined, is_broadcast,
}
use kiss_bdk.Psbt.{Psbt, Transaction}
use kiss_bdk.Bitcoin.{Bitcoin}
use kiss_bdk.Sp.Address.{AddressText}
use kiss_bdk.Shared.Error.{Error}
use kiss_bdk.Shared.Message.{Message, parse}
use kiss_bdk.Shared.Wire.{Wire}
use kiss_bdk.Shared.Proposal.{is_proposal}
use kiss_bdk.Shared.Session.{
  Session, Stage, proposed, active, broadcast, Newest, mine, theirs, joined, ready, my_turn,
  request,
}
use kiss_bdk.Shared.Session.Steps.{receive, pass, respond, finalize_session, finish}
use kiss_bdk.Common.{
  ℕ, zero, suc, Bytes, Option, none, some, List, [], ◌∷◌, ◌++◌, Result, ok, err, Bool, true, false,
  if◌then◌else◌, ◌&&◌, not, ◌+◌, ◌%◌, ◌^◌, get_elem?,
}

-- How one call to `step` ended. `Progress::Done` is `finished`.
pub data Progress : Type 0 where
  waiting moved : Progress
  finished : Bytes → Progress

abbrev pub is_theirs : Newest → Bool
is_theirs mine = false
is_theirs theirs = true
is_theirs joined = false

-- `Vec::remove`
abbrev pub remove {ℓ} : {A : Type ℓ} → List A → ℕ → List A
remove [] i = []
remove (x ∷ xs) zero = xs
remove (x ∷ xs) (suc i) = x ∷ remove xs i

-- Whether a waiting message is a proposal; the JSON reader is the parameter.
abbrev pub is_proposal_text : (Bytes → Option Message) → Bytes → Bool
is_proposal_text from_str text = elim (parse from_str text) as (λ x. Bool) [
  | ok message ↦ is_proposal message.kind
  | err e ↦ false
]

-- `rposition`: the last position, from `i` on.
abbrev pub rposition : (Bytes → Bool) → ℕ → List Bytes → Option ℕ
rposition p i [] = none
rposition p i (x ∷ xs) = elim (rposition p (suc i) xs) as (λ r. Option ℕ) [
  | some j ↦ some j
  | none ↦ if p x then some i else none
]

-- Oldest first, but a wallet without a shared send takes the newest proposal.
unfoldable pub next_in_inbox : (Bytes → Option Message) → Saved → ℕ
next_in_inbox from_str saved = elim saved.session as (λ x. ℕ) [
  | some s ↦ 0
  | none ↦ unwrap_or (rposition (is_proposal_text from_str) 0 saved.inbox) 0
]

module _ {O : Type 0} (links : Links O) where
  unfoldable pub send : Bytes → Run O FlowError (Unit {0})
  send message world = confirmed channel world world (links.send message world.outside)

  -- The loop over the outbox.
  unfoldable pub send_all : List Bytes → Run O FlowError (Unit {0})
  send_all [] = ret tt
  send_all (message ∷ messages) = do send message; send_all messages

  unfoldable pub broadcast_tx : Transaction → Run O FlowError (Unit {0})
  broadcast_tx tx world = confirmed wallet world world (links.broadcast_tx tx world.outside)

  unfoldable pub sign : Bytes → Visit → Run O FlowError Bytes
  sign asked visit world = answered signer_link world (links.sign asked visit world.outside)

  abbrev pub ask_again : Error → Run O FlowError Bool
  ask_again e world =
      let (again, after) = links.refused e world.outside in
      (ok again, record world { outside = after })

  abbrev pub set_waited : Run O FlowError (Unit {0})
  set_waited world = (ok tt, record world { waited = true })

  abbrev pub get_waited : Run O FlowError Bool
  get_waited world = (ok world.waited, world)

  unfoldable pub receive_batch : Run O FlowError (List Bytes)
  receive_batch world = answered channel world (links.receive world.outside)

  -- Ask the channel for news and put it in the session file.
  unfoldable pub listen : Saved → Run O FlowError Progress
  listen saved = do
    batch ← receive_batch
    (if is_empty batch
        then ret waiting
        else (do save links (record saved { inbox = saved.inbox ++ batch }); ret moved))

  module _ (b : Bitcoin) (w : Wire) (text : AddressText) (updater : Psbt → Option Psbt) where
    -- The visits to the signer, until an answer passes or the signer gives up.
    unfoldable pub visit_signer : ℕ → Session → Bytes → Visit → Run O FlowError Session
    visit_signer zero s asked visit = fail out_of_attempts
    visit_signer (suc attempts) s asked visit = do
      answer ← sign asked visit
      elim (respond b w s answer) as (λ r. Run O FlowError Session) [
        | ok passed ↦ ret passed.1
        | err e ↦ do
          again ← ask_again e
          (if again then visit_signer attempts s asked visit else fail (gave_up e))
      ]

    -- What came of joining: a proposal that fails a check is dropped, trouble on this side is not.
    abbrev pub take_join : Saved → Result NotJoined Session → Run O FlowError Saved
    take_join saved (ok s) = ret (record saved { session = some s })
    take_join saved (err (refused_by reason)) = ret saved
    take_join saved (err (failed reason)) = fail reason

    -- A message while this wallet has no shared send.
    unfoldable pub consider : Bytes → Option Terms → Saved → Message → Run O FlowError Saved
    consider me terms saved message = if not (is_proposal message.kind) then ret saved else (do
      outcome ← attempt (join_proposal links b w text updater me message terms)
      take_join saved outcome)

    module _ (from_str : Bytes → Option Message) (me : Bytes) (terms : Option Terms) where
      -- Act on one message, which the session takes when there is one.
      unfoldable pub handle_message : Saved → Option Session → Message → Run O FlowError Saved
      handle_message saved none message = consider me terms saved message
      handle_message saved (some s) message =
          ret (record saved { session = some ((receive b w s message).1) })

      abbrev pub handle_parsed : Saved → Result Error Message → Run O FlowError Saved
      handle_parsed saved (ok message) = handle_message saved saved.session message
      handle_parsed saved (err e) = ret saved

      unfoldable pub handle : Saved → Bytes → Run O FlowError Saved
      handle saved line = handle_parsed saved (parse from_str line)

      -- The message at a position of the inbox, which leaves it.
      abbrev pub step_message : Saved → ℕ → Option Bytes → Run O FlowError Progress
      step_message saved next none = fail no_such_message
      step_message saved next (some line) = do
        handled ← handle saved line
        save links (record handled { inbox = remove handled.inbox next })
        ret moved

      unfoldable pub step_inbox : Saved → Run O FlowError Progress
      step_inbox saved =
          let next = next_in_inbox from_str saved in
          step_message saved next (get_elem? saved.inbox next)

      -- Every input is signed.
      unfoldable pub step_ready : Saved → Session → Run O FlowError Progress
      step_ready saved s = do
        spent ← get_waited
        (if is_theirs s.newest && not spent then (do set_waited; listen saved) else (do
          tx ← lift (finalize_session b w s)
          broadcast_tx tx
          after ← lift (finish b w s (b.compute_txid tx))
          save links (record saved { session = some after })
          ret moved))

      unfoldable pub step_sign : ℕ → Saved → Session → Run O FlowError Progress
      step_sign attempts saved s = do
        asked ← lift (request w s)
        next ← lift (pass b w s)
        after ←
            visit_signer attempts s asked
              (record { session = s.session; number = (s.visits + 1) % 2 ^ 32; pass = next })
        save links (record saved { session = some after })
        ret moved

      unfoldable pub step_active : ℕ → Saved → Session → Run O FlowError Progress
      step_active attempts saved s = do
        is_ready ← lift (ready w s)
        (if is_ready then step_ready saved s else (do
          turn ← lift (my_turn w s)
          (if turn then step_sign attempts saved s else listen saved)))

      abbrev pub step_session : ℕ → Saved → Option Session → Run O FlowError Progress
      step_session attempts saved none = listen saved
      step_session attempts saved (some s) =
          if is_broadcast s.stage
          then ret (finished (unwrap_or s.txid []))
          else step_active attempts saved s

      unfoldable pub step_next : ℕ → Saved → Run O FlowError Progress
      step_next attempts saved =
          if not (is_empty saved.inbox)
          then step_inbox saved
          else step_session attempts saved saved.session

      -- What is owed to the other wallet goes out before anything else.
      abbrev pub step_outbox : ℕ → Saved → Option Session → Run O FlowError Progress
      step_outbox attempts saved none = step_next attempts saved
      step_outbox attempts saved (some s) =
          if is_empty s.outbox then step_next attempts saved else (do
            send_all s.outbox
            save links (record saved { session = some (record s { outbox = [] }) })
            ret moved)

      -- Do the one next thing. The signer is asked `attempts` times at most.
      unfoldable pub step : ℕ → Run O FlowError Progress
      step attempts = do saved ← load links; step_outbox attempts saved saved.session
