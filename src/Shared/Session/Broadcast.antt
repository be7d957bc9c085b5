-- ===== src/Shared/Session/Broadcast.antt =====
-- What a session says about a broadcast, and what an update does to a fixed transaction.
use kiss_bdk.Shared.Session.Follows.{receive-Handled}
use kiss_bdk.Shared.Signatures.{unsigned_transaction}
use kiss_bdk.Shared.Finish.Laws.{without_witnesses, finalize-IsFinal}
use kiss_bdk.Psbt.{Transaction, Psbt}
use kiss_bdk.Shared.Session.Steps.{respond, finish, finalize_session}
use kiss_bdk.Shared.Wire.{Wire}
use kiss_bdk.Bitcoin.{Bitcoin}
use kiss_bdk.Shared.Error.{Error, not_my_turn}
use kiss_bdk.Shared.Absorb.{Line}
use kiss_bdk.Shared.Session.{
  proposed, active, broadcast, Stage, Wire, Session, my_turn, state, Newest, is_active, is_mine,
}
use kiss_bdk.Shared.Session.Handled.{kept, updated, told, Handled}
use kiss_bdk.Shared.Session.History.{Step, Steps, received, responded, finished, here, later}
use kiss_bdk.Common.{
  refl, ◌≡◌, sym, ap, ◌∙◌, subst, some, ok, err, Result, true, false, Bool, List, Bytes, ◌≢◌,
  >>=-eq-ok, >>-eq-ok, ok-injective, if◌then◌else◌, guard-eq-ok, not, ◌||◌, same-≡,
}

-- The session records the id of the very transaction that its own state describes.
abbrev pub RecordsOwn : Bitcoin → Wire → Session → Type 0
RecordsOwn b w s =
    (current : Psbt) × (tx : Transaction) × (state w s ≡ ok current)
    × (unsigned_transaction b current ≡ ok tx)
    × (s.txid ≡ some (w.txid_to_string (b.compute_txid tx)))

abbrev Honest : Bitcoin → Wire → Session → Type 0
Honest b w s = s.stage ≡ broadcast → RecordsOwn b w s

active-broadcast : active ≢ broadcast
active-broadcast e = cc

turn_active :
    (stage : Stage) (newest : Newest) (turn : Result Error Bool)
    → (if◌then◌else◌ {A = Result Error Bool}
        (not (is_active stage) || is_mine newest)
        (ok false)
        turn)
      ≡ ok true
    → stage ≡ active
turn_active proposed newest turn h = cc
turn_active active newest turn h = refl
turn_active broadcast newest turn h = cc

by_stage-eq-ok :
    (stage : Stage) (early : Error) (finished_tx : Result Error Transaction) {tx : Transaction}
    → elim stage as (λ x. Result Error Transaction) [ proposed ↦ err early | _ ↦ finished_tx ]
      ≡ ok tx
    → finished_tx ≡ ok tx
by_stage-eq-ok proposed early r h = cc
by_stage-eq-ok active early r h = h
by_stage-eq-ok broadcast early r h = h

module _ (b : Bitcoin) (w : Wire) where
  Handled-Honest : (s after : Session) → Honest b w s → Handled b w s after → Honest b w after
  unfolding state
  Handled-Honest s after honest kept = honest
  Handled-Honest s after honest (updated _ _ _ _ _ _ _ _ _ _ _ _ _) =
      λ e. absurd (active-broadcast e)
  Handled-Honest s after honest (told {t = t} current tx txid _ c u e) =
      λ _. (current, tx, c, u, ap (λ id. some (w.txid_to_string id)) (sym e))

  respond-active :
      (s : Session) (answer : Bytes) {lines : List Line} {after : Session}
      → respond b w s answer ≡ ok (lines, after)
      → after.stage ≡ active
  unfolding respond my_turn
  respond-active s answer h =
      let (turn, t, h₁) = >>=-eq-ok _ _ h in
      let (g, h₂) = >>-eq-ok _ _ h₁ in
      let (current, _, h₃) = >>=-eq-ok _ _ h₂ in
      let (own, _, h₄) = >>=-eq-ok _ _ h₃ in
      let (arrived, _, h₅) = >>=-eq-ok _ _ h₄ in
      let (next, _, h₆) = >>=-eq-ok _ _ h₅ in
      let (_, h₇) = >>-eq-ok _ _ h₆ in
      let (text, _, h₈) = >>=-eq-ok _ _ h₇ in
      let (message, _, h₉) = >>=-eq-ok _ _ h₈ in
      sym (ap (λ r. r.1.stage) (ok-injective h₉))
      ∙ turn_active s.stage s.newest _ (t ∙ ap ok (guard-eq-ok turn not_my_turn g))

  -- The documented fact that a transaction's id does not depend on its witnesses.
  module _
      (ignores_witness : (tx : Transaction)
        → b.compute_txid (without_witnesses tx) ≡ b.compute_txid tx) where
    finish-Honest :
        (s : Session) (txid : Bytes) {after : Session}
        → finish b w s txid ≡ ok after
        → RecordsOwn b w after
    unfolding finish finalize_session state
    finish-Honest s txid h =
        let (tx, f, h₁) = >>=-eq-ok _ _ h in
        let (g, h₂) = >>-eq-ok _ _ h₁ in
        let (current, c, f') = >>=-eq-ok _ _ (by_stage-eq-ok s.stage _ _ f) in
        let (_, _, _, _, unsigned, _) = finalize-IsFinal b current tx f' in
        let id : b.compute_txid tx ≡ txid = same-≡ _ _ (guard-eq-ok _ _ g) in
        subst (RecordsOwn b w) (ok-injective h₂) (
          current,
          without_witnesses tx,
          c,
          unsigned,
          ap (λ i. some (w.txid_to_string i)) (sym (ignores_witness tx ∙ id)),
        )

    Step-Honest : (s after : Session) → Honest b w s → Step b w s after → Honest b w after
    Step-Honest s after honest (received _ m) =
        Handled-Honest s after honest (receive-Handled b w s m).0
    Step-Honest s after honest (responded answer h) =
        λ e. absurd (active-broadcast (sym (respond-active s answer h) ∙ e))
    Step-Honest s after honest (finished txid h) = λ _. finish-Honest s txid h

    Steps-Honest : (s after : Session) → Honest b w s → Steps b w s after → Honest b w after
    Steps-Honest s after honest here = honest
    Steps-Honest s after honest (later {t = t} steps step) =
        Step-Honest t after (Steps-Honest s t honest steps) step

    -- Whatever order of messages, answers and broadcasts a session that was not broadcast goes
    -- through: once it is broadcast, by either side, the transaction id that it records is that of the
    -- transaction which its own state describes. It takes the documented fact that a transaction's id
    -- does not depend on its witnesses.
    pub broadcast-RecordsOwn :
        (s after : Session)
        → s.stage ≢ broadcast
        → Steps b w s after
        → after.stage ≡ broadcast
        → RecordsOwn b w after
    broadcast-RecordsOwn s after not_yet steps =
        Steps-Honest s after (λ e. absurd (not_yet e)) steps
