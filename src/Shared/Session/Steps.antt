-- ===== src/Shared/Session/Steps.antt =====
-- src/shared.rs, `impl Session`: the operations that change a session.
use kiss_bdk.Shared.Finish.{finalize}
use kiss_bdk.Shared.Fee.{fee}
use kiss_bdk.Shared.Shares.{check_shares, missing}
use kiss_bdk.Shared.Signatures.{unsigned_transaction}
use kiss_bdk.Shared.Join.{adopt_join}
use kiss_bdk.Psbt.{Psbt, Transaction, Psbt-discrete, OptionBytes-discrete}
use kiss_bdk.Shared.Wire.{Wire, read_psbt, decode, encode}
use kiss_bdk.Bitcoin.{Bitcoin}
use kiss_bdk.Shared.Error.{
  Error, not_joined, not_my_turn, needs_psbt, txid_mismatch, needs_txid, bad_txid, adds_nothing,
  other_txid, broadcast_before_join,
}
use kiss_bdk.Shared.Message.{done, update, proposal, Message, version}
use kiss_bdk.Shared.Absorb.{signer, peer, Line, peer_joined, absorb}
use kiss_bdk.Shared.Session.{
  proposed, active, broadcast, mine, theirs, Received, Session, Wire, Pass, Psbt, state, my_inputs,
  my_turn, ignored, already_sent, decode, reported, update_message, any_outside, is_active,
  already_recorded, other_session, share_only, nothing_new, own_message, sign, applied, is_stranger,
  other_wallet, already_part,
}
use kiss_bdk.Common.{
  if◌then◌else◌, some, none, ok, err, Result, List, [], ◌∷◌, ◌++◌, ◌>>=◌, ◌>>◌, Bytes, ◌+◌, guard,
  or_fail, same, length, refuse, holds, ◌%◌, ◌^◌, not, ◌&&◌,
}

-- The outcome of one message, with the session after it.
abbrev pub Outcome : Type 0
Outcome = Result Error (Received × Session)

-- A message is applied to a copy, which replaces the session when nothing was refused.
abbrev pub settle : Session → Outcome → Result Error Received × Session
settle s (ok (outcome, trial)) = (ok outcome, trial)
settle s (err e) = (err e, s)

module _ (b : Bitcoin) (w : Wire) where
  unfoldable pub pass : Session → Result Error Pass
  pass s = do
    current ← state w s
    own ← my_inputs w s current
    shares ← check_shares b current
    ok (if any_outside own (missing shares) then share_only else sign)

  -- This wallet's signer's answer. `update_message` fails only before the other wallet has joined,
  -- when it is not this wallet's turn.
  unfoldable pub respond : Session → Bytes → Result Error (List Line × Session)
  respond s answer = do
    turn ← my_turn w s
    guard turn not_my_turn
    current ← state w s
    own ← my_inputs w s current
    arrived ← read_psbt w answer
    next ← absorb b current arrived signer own
    refuse (holds (Psbt-discrete next.0 current)) adds_nothing
    text ← encode w next.0
    let after = record s { psbt = text; newest = mine; visits = (s.visits + 1) % 2 ^ 32 }
    message ← update_message after
    ok (next.1, record after { outbox = after.outbox ++ w.to_json message ∷ [] })

  -- The state that an update is taken into, with the report so far: as it is, or adopted from the
  -- wallet that joins.
  unfoldable pub base_state : Session → Bytes → Psbt → Psbt → Result Error (Psbt × List Line)
  base_state s from current incoming = elim s.stage [
    | proposed ↦ do
      adopted ← adopt_join b current incoming s.fee_rate
      sats ← fee adopted
      ok (adopted, peer_joined from (length adopted.inputs) (length adopted.outputs) sats ∷ [])
    | _ ↦ ok (current, [])
  ]

  unfoldable pub apply_update : Session → Message → Outcome
  apply_update s message = do
    text ← or_fail message.psbt needs_psbt
    incoming ← decode w text
    current ← state w s
    base ← base_state s message.from current incoming
    own ← my_inputs w s base.0
    next ← absorb b base.0 incoming peer own
    (if is_active s.stage && holds (Psbt-discrete next.0 base.0)
        then ok (ignored nothing_new, s)
        else do
          text' ← encode w next.0
          ok (
            applied (base.1 ++ next.1),
            record s { psbt = text'; stage = active; newest = theirs; peer = some message.from },
          ))

  unfoldable pub receive_update : Session → Message → Outcome
  receive_update s message = elim s.stage [
    | broadcast ↦ ok (ignored already_sent, s)
    | _ ↦ apply_update s message
  ]

  -- The last state may travel with the news, and is taken in first.
  unfoldable pub last_state : Session → Message → Result Error Session
  last_state s message = elim message.psbt [
    | none ↦ ok s
    | some text ↦ do taken ← receive_update s (record message { kind = update }); ok taken.1
  ]

  -- The news of a broadcast: the transaction must be this shared send's own.
  unfoldable pub record_done : Session → Bytes → Outcome
  record_done s txid = do
    current ← state w s
    tx ← unsigned_transaction b current
    guard (same (b.compute_txid tx) txid) txid_mismatch
    ok (
      reported (w.txid_to_string txid),
      record s { stage = broadcast; txid = some (w.txid_to_string txid) },
    )

  unfoldable pub receive_done : Session → Message → Outcome
  receive_done s message = do
    text ← or_fail message.txid needs_txid
    txid ← or_fail (w.txid_from_str text) bad_txid
    elim s.stage [
      | broadcast ↦
          if holds (OptionBytes-discrete s.txid (some (w.txid_to_string txid)))
          then ok (ignored already_recorded, s)
          else err other_txid
      | proposed ↦ err broadcast_before_join
      | active ↦ do after ← last_state s message; record_done after txid
    ]

  unfoldable pub apply : Session → Message → Outcome
  apply s message =
      if not (same message.session s.session)
      then ok (ignored other_session, s)
      else if same message.from s.me
      then ok (ignored own_message, s)
      else if is_stranger s.peer message.from
      then ok (ignored other_wallet, s)
      else elim message.kind [
        | proposal ↦ ok (ignored already_part, s)
        | update ↦ receive_update s message
        | done ↦ receive_done s message
      ]

  unfoldable pub receive : Session → Message → Result Error Received × Session
  receive s message = settle s (apply s message)

  unfoldable pub finalize_session : Session → Result Error Transaction
  finalize_session s = elim s.stage [
    | proposed ↦ err not_joined
    | _ ↦ do current ← state w s; finalize b current
  ]

  unfoldable pub done_message : Session → Bytes → Message
  done_message s txid = record {
    v = version;
    session = s.session;
    kind = done;
    from = s.me;
    psbt = some s.psbt;
    to = none;
    sats = none;
    fee_rate = none;
    txid = some (w.txid_to_string txid);
  }

  -- The broadcast by this wallet, and the news of it for the other.
  unfoldable pub finish : Session → Bytes → Result Error Session
  finish s txid = do
    tx ← finalize_session s
    guard (same (b.compute_txid tx) txid) txid_mismatch
    ok (record s {
      stage = broadcast;
      txid = some (w.txid_to_string txid);
      outbox = s.outbox ++ w.to_json (done_message s txid) ∷ [];
    })
