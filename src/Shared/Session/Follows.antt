-- ===== src/Shared/Session/Follows.antt =====
-- What no message changes in a session.
use kiss_bdk.Shared.Message.{Message}
use kiss_bdk.Shared.Session.Steps.{Outcome, receive, apply, settle}
use kiss_bdk.Shared.Wire.{Wire}
use kiss_bdk.Shared.Terms.{Role}
use kiss_bdk.Bitcoin.{Bitcoin}
use kiss_bdk.Shared.Error.{Error}
use kiss_bdk.Shared.Session.{
  proposed, active, broadcast, Session, is_stranger, Stage, Role, Wire, Message, Received,
}
use kiss_bdk.Shared.Session.Handled.{kept, updated, told, Handled, rank, apply-Handled}
use mathlib.Core.List.{append_assoc}
use kiss_bdk.Common.{
  ℕ, refl, ◌≡◌, sym, ap, ◌∙◌, some, none, Option, ok, err, false, List, [], ◌∷◌, ◌++◌, arith, Bytes,
  ◌≤◌, not, same, Bytes-discrete, holds,
}

-- What the two wallets agreed on, and what the session is about.
abbrev pub terms : Session → ℕ × Bytes × Role × Bytes × Bytes × ℕ × ℕ × List Bytes
terms s = (s.v, s.session, s.role, s.me, s.to, s.sats, s.fee_rate, s.mine)

-- The other wallet stays the same once it is known.
abbrev pub PeerKept : Option Bytes → Option Bytes → Type 0
PeerKept none after = Unit {0}
PeerKept (some other) after = after ≡ some other

pub PeerKept-refl : (p : Option Bytes) → PeerKept p p
PeerKept-refl none = tt
PeerKept-refl (some other) = refl

PeerKept-trans : (p q r : Option Bytes) → PeerKept p q → PeerKept q r → PeerKept p r
PeerKept-trans none q r k l = tt
PeerKept-trans (some other) none r k l = cc
PeerKept-trans (some other) (some same_other) r k l = l ∙ k

-- `after` has the terms of `before`, is as far or further, keeps the other wallet once it is known,
-- and has only added to the outbox.
abbrev pub Follows : Session → Session → Type 0
Follows before after =
    (terms after ≡ terms before)
    × (rank before.stage ≤ rank after.stage)
    × PeerKept before.peer after.peer
    × ((added : List Bytes) × (after.outbox ≡ before.outbox ++ added))

++-nil : (xs : List Bytes) → xs ≡ xs ++ []
++-nil [] = refl
++-nil (x ∷ xs) = ap (λ rest. x ∷ rest) (++-nil xs)

pub Follows-refl : (s : Session) → Follows s s
Follows-refl s = (refl, omega arith, PeerKept-refl s.peer, ([], ++-nil s.outbox))

pub Follows-trans : (r s t : Session) → Follows r s → Follows s t → Follows r t
Follows-trans r s t (e, n, p, (xs, ox)) (e', n', p', (ys, oy)) = (
  e' ∙ e,
  omega arith,
  PeerKept-trans r.peer s.peer t.peer p p',
  (xs ++ ys, oy ∙ ap (λ o. o ++ ys) ox ∙ append_assoc r.outbox xs ys),
)

not-same : (x y : Bytes) → not (same x y) ≡ false → x ≡ y
not-same x y = elim (Bytes-discrete x y) as (λ d. not (holds d) ≡ false → x ≡ y) [
  | yes e ↦ λ h. e
  | no n ↦ λ h. cc
]

known-peer : (p : Option Bytes) (from : Bytes) → is_stranger p from ≡ false → PeerKept p (some from)
known-peer none from known = tt
known-peer (some other) from known = ap some (sym (not-same other from known))

pub rank-top : (stage : Stage) → rank stage ≤ 2
rank-top proposed = omega arith
rank-top active = omega arith
rank-top broadcast = omega arith

module _ (b : Bitcoin) (w : Wire) where
  Handled-Follows : (s after : Session) → Handled b w s after → Follows s after
  Handled-Follows s after kept = Follows-refl s
  Handled-Follows s after (updated from _ _ _ _ _ _ known early _ _ _ _) =
      (refl, early, known-peer s.peer from known, ([], ++-nil s.outbox))
  Handled-Follows s after (told {t = t} _ _ _ before _ _ _) =
      Follows-trans s t after (Handled-Follows s t before)
        (refl, rank-top t.stage, PeerKept-refl t.peer, ([], ++-nil t.outbox))

  settle-Handled :
      (s : Session) (r : Outcome)
      → ((outcome : Received) (after : Session) → r ≡ ok (outcome, after) → Handled b w s after)
      → Handled b w s (settle s r).1 × ((e : Error) → (settle s r).0 ≡ err e → (settle s r).1 ≡ s)
  settle-Handled s (ok (outcome, after)) f = (f outcome after refl, λ e h. cc)
  settle-Handled s (err e) f = (kept, λ _ _. refl)

  pub receive-Handled :
      (s : Session) (m : Message)
      → Handled b w s (receive b w s m).1
        × ((e : Error) → (receive b w s m).0 ≡ err e → (receive b w s m).1 ≡ s)
  unfolding receive
  receive-Handled s m =
      settle-Handled s (apply b w s m) (λ outcome after h. apply-Handled b w s m h)

  -- Whatever message arrives, the session after `receive` follows the one before, and it is the one
  -- before when the message is refused.
  pub receive-Follows :
      (s : Session) (m : Message)
      → Follows s (receive b w s m).1
        × ((e : Error) → (receive b w s m).0 ≡ err e → (receive b w s m).1 ≡ s)
  receive-Follows s m =
      let (handled, refused) = receive-Handled s m in
      (Handled-Follows s (receive b w s m).1 handled, refused)
