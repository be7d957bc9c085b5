-- ===== src/Shared/Session/Handled.antt =====
-- What handling one message does to a session: nothing, a new state, or the record of a broadcast.
use kiss_bdk.Shared.Signatures.{unsigned_transaction}
use kiss_bdk.Shared.Session.Steps.{
  Outcome, apply_update, receive_update, last_state, record_done, receive_done, apply, base_state,
}
use kiss_bdk.Psbt.{Psbt, OptionBytes-discrete, Transaction}
use kiss_bdk.Bitcoin.{Bitcoin}
use kiss_bdk.Shared.Wire.{Wire, encode}
use kiss_bdk.Shared.Error.{Error, broadcast_before_join, other_txid}
use kiss_bdk.Shared.Message.{done, update, proposal, Kind, Message}
use kiss_bdk.Shared.Absorb.{peer, Line, absorb}
use kiss_bdk.Shared.Session.{
  proposed, active, broadcast, theirs, Stage, Session, Wire, Psbt, Reason, Received, is_stranger,
  ignored, state, already_part, other_wallet, own_message, other_session, nothing_new,
  already_recorded, applied,
}
use kiss_bdk.Common.{
  if◌then◌else◌, ℕ, refl, ◌≡◌, subst, some, none, Option, ok, err, Result, true, false, Bool, List,
  arith, ◌>>=◌, Bytes, ◌≤◌, same, ok-injective, holds, >>=-eq-ok, >>-eq-ok, guard-eq-ok, not,
  same-≡,
}

-- How far a stage is.
abbrev pub rank : Stage → ℕ
rank proposed = 0
rank active = 1
rank broadcast = 2

-- The session with the state that came in an update.
abbrev pub updated_session : Session → Bytes → Bytes → Session
updated_session s from text = record s {
  psbt = text;
  stage = active;
  newest = theirs;
  peer = some from;
}

abbrev pub broadcast_session : Wire → Session → Bytes → Session
broadcast_session w s txid = record s { stage = broadcast; txid = some (w.txid_to_string txid) }

-- The sessions that handling a message can lead to.
pub data Handled (b : Bitcoin) (w : Wire) (s : Session) : Session → Type 0 where
  kept : Handled b w s s
  updated :
      (from text : Bytes) (incoming current : Psbt) (base next : Psbt × List Line) (own : List ℕ)
      → is_stranger s.peer from ≡ false
      → rank s.stage ≤ 1
      → state w s ≡ ok current
      → base_state b w s from current incoming ≡ ok base
      → absorb b base.0 incoming peer own ≡ ok next
      → encode w next.0 ≡ ok text
      → Handled b w s (updated_session s from text)
  told :
      {t : Session} (current : Psbt) (tx : Transaction) (txid : Bytes)
      → Handled b w s t
      → state w t ≡ ok current
      → unsigned_transaction b current ≡ ok tx
      → b.compute_txid tx ≡ txid
      → Handled b w s (broadcast_session w t txid)

after-injective :
    {A B : Type 0} {outcome outcome' : A} {after after' : B}
    → ◌≡◌ {A = Result Error (A × B)} (ok (outcome, after)) (ok (outcome', after'))
    → after ≡ after'
after-injective h = cc

abbrev update_end : Session → Bytes → Bool → Result Error Bytes → List Line → Outcome
update_end s from stale text lines =
    if stale
    then ok (ignored nothing_new, s)
    else do text' ← text; ok (applied lines, updated_session s from text')

abbrev ignored_if : Session → Bool → Reason → Outcome → Outcome
ignored_if s harmless reason rest = if harmless then ok (ignored reason, s) else rest

abbrev by_kind : Session → Kind → Outcome → Outcome → Outcome
by_kind s kind x y = elim kind [ proposal ↦ ok (ignored already_part, s) | update ↦ x | done ↦ y ]

abbrev already : Session → Bool → Outcome
already s known = if known then ok (ignored already_recorded, s) else err other_txid

module _ (b : Bitcoin) (w : Wire) where
  -- The end of an update: nothing new, or the new state.
  update_end-Handled :
      (s : Session) (from : Bytes) (stale : Bool) (text : Result Error Bytes) (lines : List Line)
      {outcome : Received} {after : Session}
      → ((t : Bytes) → text ≡ ok t → Handled b w s (updated_session s from t))
      → update_end s from stale text lines ≡ ok (outcome, after)
      → Handled b w s after
  unfolding ◌>>=◌
  update_end-Handled s from true text lines f h = subst (Handled b w s) (after-injective h) kept
  update_end-Handled s from false (ok text) lines f h =
      subst (Handled b w s) (after-injective h) (f text refl)
  update_end-Handled s from false (err e) lines f h = cc

  apply_update-Handled :
      (s : Session) (m : Message) {outcome : Received} {after : Session}
      → is_stranger s.peer m.from ≡ false
      → rank s.stage ≤ 1
      → apply_update b w s m ≡ ok (outcome, after)
      → Handled b w s after
  unfolding apply_update
  apply_update-Handled s m known early h =
      let (text, _, h₁) = >>=-eq-ok _ _ h in
      let (incoming, _, h₂) = >>=-eq-ok _ _ h₁ in
      let (current, c, h₃) = >>=-eq-ok _ _ h₂ in
      let (base, e, h₄) = >>=-eq-ok _ _ h₃ in
      let (own, _, h₅) = >>=-eq-ok _ _ h₄ in
      let (next, a, h₆) = >>=-eq-ok _ _ h₅ in
      update_end-Handled s m.from _ (encode w next.0) _
        (λ t w'. updated m.from t incoming current base next own known early c e a w') h₆

  by_stage-Handled :
      (s : Session) (stage : Stage) (sent open_update : Outcome) {outcome : Received}
      {after : Session}
      → (sent ≡ ok (outcome, after) → Handled b w s after)
      → (rank stage ≤ 1 → open_update ≡ ok (outcome, after) → Handled b w s after)
      → elim stage as (λ x. Outcome) [ broadcast ↦ sent | _ ↦ open_update ] ≡ ok (outcome, after)
      → Handled b w s after
  by_stage-Handled s proposed sent open_update f g h = g (omega arith) h
  by_stage-Handled s active sent open_update f g h = g (omega arith) h
  by_stage-Handled s broadcast sent open_update f g h = f h

  receive_update-Handled :
      (s : Session) (m : Message) {outcome : Received} {after : Session}
      → is_stranger s.peer m.from ≡ false
      → receive_update b w s m ≡ ok (outcome, after)
      → Handled b w s after
  unfolding receive_update
  receive_update-Handled s m known h =
      by_stage-Handled s s.stage _ (apply_update b w s m)
        (λ e. subst (Handled b w s) (after-injective e) kept) (apply_update-Handled s m known) h

  option-Handled :
      (s : Session) (text : Option Bytes) (f : Bytes → Result Error Session) {after : Session}
      → ((t : Bytes) → f t ≡ ok after → Handled b w s after)
      → elim text as (λ x. Result Error Session) [ none ↦ ok s | some t ↦ f t ] ≡ ok after
      → Handled b w s after
  option-Handled s none f g h = subst (Handled b w s) (ok-injective h) kept
  option-Handled s (some t) f g h = g t h

  done-Handled :
      (s : Session) (stage : Stage) (sent open_done : Outcome) {outcome : Received}
      {after : Session}
      → (sent ≡ ok (outcome, after) → Handled b w s after)
      → (open_done ≡ ok (outcome, after) → Handled b w s after)
      → elim stage as (λ x. Outcome) [
        | proposed ↦ err broadcast_before_join
        | active ↦ open_done
        | broadcast ↦ sent
      ]
        ≡ ok (outcome, after)
      → Handled b w s after
  done-Handled s proposed sent open_done f g h = cc
  done-Handled s active sent open_done f g h = g h
  done-Handled s broadcast sent open_done f g h = f h

  already-Handled :
      (s : Session) (known : Bool) {outcome : Received} {after : Session}
      → already s known ≡ ok (outcome, after)
      → Handled b w s after
  already-Handled s true h = subst (Handled b w s) (after-injective h) kept
  already-Handled s false h = cc

  last_state-Handled :
      (s : Session) (m : Message) {after : Session}
      → is_stranger s.peer m.from ≡ false
      → last_state b w s m ≡ ok after
      → Handled b w s after
  unfolding last_state
  last_state-Handled s m known h =
      option-Handled s m.psbt _
        (λ text e.
          let (taken, t, e₁) = >>=-eq-ok _ _ e in
          subst (Handled b w s) (ok-injective e₁) (
            receive_update-Handled s (record m { kind = update }) {outcome = taken.0}
              {after = taken.1} known t))
        h

  record_done-Handled :
      (s t : Session) (txid : Bytes) {outcome : Received} {after : Session}
      → Handled b w s t
      → record_done b w t txid ≡ ok (outcome, after)
      → Handled b w s after
  unfolding record_done
  record_done-Handled s t txid before h =
      let (current, c, h₁) = >>=-eq-ok _ _ h in
      let (tx, u, h₂) = >>=-eq-ok _ _ h₁ in
      let (g, h₃) = >>-eq-ok _ _ h₂ in
      subst (Handled b w s) (after-injective h₃)
        (told current tx txid before c u (same-≡ (b.compute_txid tx) txid (guard-eq-ok _ _ g)))

  receive_done-Handled :
      (s : Session) (m : Message) {outcome : Received} {after : Session}
      → is_stranger s.peer m.from ≡ false
      → receive_done b w s m ≡ ok (outcome, after)
      → Handled b w s after
  unfolding receive_done
  receive_done-Handled s m {after = after} known h =
      let (text, _, h₁) = >>=-eq-ok _ _ h in
      let (txid, _, h₂) = >>=-eq-ok _ _ h₁ in
      done-Handled s s.stage _ _
        (λ e.
          already-Handled s (holds (OptionBytes-discrete s.txid (some (w.txid_to_string txid)))) e)
        (λ e.
          let (next, n, e₁) = >>=-eq-ok _ _ e in
          record_done-Handled s next txid (last_state-Handled s m known n) e₁)
        h₂

  kind-Handled :
      (s : Session) (kind : Kind) (x y : Outcome) {outcome : Received} {after : Session}
      → (x ≡ ok (outcome, after) → Handled b w s after)
      → (y ≡ ok (outcome, after) → Handled b w s after)
      → by_kind s kind x y ≡ ok (outcome, after)
      → Handled b w s after
  kind-Handled s proposal x y f g h = subst (Handled b w s) (after-injective h) kept
  kind-Handled s update x y f g h = f h
  kind-Handled s done x y f g h = g h

  unless-Handled :
      (s : Session) (harmless : Bool) (reason : Reason) (rest : Outcome) {outcome : Received}
      {after : Session}
      → (harmless ≡ false → rest ≡ ok (outcome, after) → Handled b w s after)
      → ignored_if s harmless reason rest ≡ ok (outcome, after)
      → Handled b w s after
  unless-Handled s true reason rest f h = subst (Handled b w s) (after-injective h) kept
  unless-Handled s false reason rest f h = f refl h

  pub apply-Handled :
      (s : Session) (m : Message) {outcome : Received} {after : Session}
      → apply b w s m ≡ ok (outcome, after)
      → Handled b w s after
  unfolding apply
  apply-Handled s m h =
      unless-Handled s (not (same m.session s.session)) other_session later
        (λ _. unless-Handled s (same m.from s.me) own_message from_other (λ _.
          unless-Handled s (is_stranger s.peer m.from) other_wallet handled (λ known.
            kind-Handled s m.kind (receive_update b w s m) (receive_done b w s m)
              (receive_update-Handled s m known) (receive_done-Handled s m known))))
        h
    where
      handled : Outcome
      handled = by_kind s m.kind (receive_update b w s m) (receive_done b w s m)

      from_other : Outcome
      from_other = ignored_if s (is_stranger s.peer m.from) other_wallet handled

      later : Outcome
      later = ignored_if s (same m.from s.me) own_message from_other
