-- ===== src/Shared/Session/History.antt =====
-- A session's whole life: any order of messages, signer's answers and broadcasts.
use kiss_bdk.Shared.Absorb.{Line}
use kiss_bdk.Shared.Message.{Message}
use kiss_bdk.Shared.Session.Steps.{respond, finish, receive, done_message}
use kiss_bdk.Shared.Wire.{Wire}
use kiss_bdk.Bitcoin.{Bitcoin}
use kiss_bdk.Shared.Session.{Wire, Session, Message, Line}
use kiss_bdk.Shared.Session.Follows.{
  Follows, Follows-refl, Follows-trans, PeerKept-refl, rank-top, receive-Follows,
}
use kiss_bdk.Common.{
  refl, ◌≡◌, subst, ok, List, [], ◌∷◌, arith, Bytes, >>=-eq-ok, >>-eq-ok, ok-injective,
}

-- One step: a message that arrived, an answer that was taken in, or a broadcast that was recorded.
pub data Step (b : Bitcoin) (w : Wire) : Session → Session → Type 0 where
  received : (s : Session) (m : Message) → Step b w s (receive b w s m).1
  responded :
      {s after : Session} {lines : List Line} (answer : Bytes)
      → respond b w s answer ≡ ok (lines, after)
      → Step b w s after
  finished : {s after : Session} (txid : Bytes) → finish b w s txid ≡ ok after → Step b w s after

pub data Steps (b : Bitcoin) (w : Wire) (s : Session) : Session → Type 0 where
  here : Steps b w s s
  later : {t after : Session} → Steps b w s t → Step b w t after → Steps b w s after

module _ (b : Bitcoin) (w : Wire) where
  respond-Follows :
      (s : Session) (answer : Bytes) {lines : List Line} {after : Session}
      → respond b w s answer ≡ ok (lines, after)
      → Follows s after
  unfolding respond
  respond-Follows s answer {lines = lines} {after = after} h =
      let (turn, _, h₁) = >>=-eq-ok _ _ h in
      let (_, h₂) = >>-eq-ok _ _ h₁ in
      let (current, _, h₃) = >>=-eq-ok _ _ h₂ in
      let (own, _, h₄) = >>=-eq-ok _ _ h₃ in
      let (arrived, _, h₅) = >>=-eq-ok _ _ h₄ in
      let (next, _, h₆) = >>=-eq-ok _ _ h₅ in
      let (_, h₇) = >>-eq-ok _ _ h₆ in
      let (text, _, h₈) = >>=-eq-ok _ _ h₇ in
      let (message, _, h₉) = >>=-eq-ok _ _ h₈ in
      subst (λ r. Follows s r.1) (ok-injective h₉)
        (refl, omega arith, PeerKept-refl s.peer, (w.to_json message ∷ [], refl))

  finish-Follows :
      (s : Session) (txid : Bytes) {after : Session}
      → finish b w s txid ≡ ok after
      → Follows s after
  unfolding finish
  finish-Follows s txid h =
      let (tx, _, h₁) = >>=-eq-ok _ _ h in
      let (_, h₂) = >>-eq-ok _ _ h₁ in
      subst (Follows s) (ok-injective h₂) (
        refl,
        rank-top s.stage,
        PeerKept-refl s.peer,
        (w.to_json (done_message b w s txid) ∷ [], refl),
      )

  pub Step-Follows : (s after : Session) → Step b w s after → Follows s after
  Step-Follows s after (received _ m) = (receive-Follows b w s m).0
  Step-Follows s after (responded answer h) = respond-Follows s answer h
  Step-Follows s after (finished txid h) = finish-Follows s txid h

  -- However many messages, answers and broadcasts a session goes through, in whatever order, it keeps
  -- its version, name, role, wallet, recipient, amount, fee rate and coins; it never goes back to an
  -- earlier stage; the other wallet, once known, stays the same; and its outbox only grows.
  pub Steps-Follows : (s after : Session) → Steps b w s after → Follows s after
  Steps-Follows s after here = Follows-refl s
  Steps-Follows s after (later {t = t} steps step) =
      Follows-trans s t after (Steps-Follows s t steps) (Step-Follows t after step)
