-- ===== src/Shared/Session/Fixed.antt =====
-- Once both wallets have joined, no message changes what the transaction spends and pays.
use kiss_bdk.Shared.Session.Follows.{receive-Handled}
use kiss_bdk.Shared.Absorb.Sound.{absorb-IsSound, IsSound}
use kiss_bdk.Shared.Message.{Message}
use kiss_bdk.Shared.Absorb.Skeleton.{absorb-skeleton, skeleton}
use kiss_bdk.Psbt.{Psbt}
use kiss_bdk.Shared.Session.Steps.{base_state, receive}
use kiss_bdk.Shared.Wire.{Wire, encode}
use kiss_bdk.Bitcoin.{Bitcoin}
use kiss_bdk.Shared.Error.{Error}
use kiss_bdk.Shared.Absorb.{peer, Line}
use kiss_bdk.Shared.Session.{
  proposed, active, broadcast, Wire, Session, Psbt, Stage, Message, state,
}
use kiss_bdk.Shared.Session.Handled.{kept, updated, told, Handled}
use kiss_bdk.Common.{refl, ◌≡◌, sym, ap, ◌∙◌, inl, inr, ok, Result, List, [], ◌⊎◌, ok-injective}

-- The new state text holds a PSBT that is sound and has the skeleton of the one before.
abbrev pub KeepsSkeleton : Bitcoin → Wire → Session → Session → Type 0
KeepsSkeleton b w before after =
    (current : Psbt) × (next : Psbt) × (state w before ≡ ok current)
    × (encode w next ≡ ok after.psbt)
    × (skeleton next ≡ skeleton current)
    × IsSound b next

module _ (b : Bitcoin) (w : Wire) where
  base_state-active :
      (s : Session) (stage : Stage) (start_over : Result Error (Psbt × List Line)) (current : Psbt)
      {base : Psbt × List Line}
      → stage ≡ active
      → elim stage as (λ x. Result Error (Psbt × List Line)) [
        | proposed ↦ start_over
        | _ ↦ ok (current, [])
      ]
        ≡ ok base
      → current ≡ base.0
  base_state-active s proposed r current e h = cc
  base_state-active s active r current e h = ap (λ x. x.0) (ok-injective h)
  base_state-active s broadcast r current e h = cc

  Handled-KeepsSkeleton :
      (s after : Session)
      → s.stage ≡ active
      → Handled b w s after
      → (after.psbt ≡ s.psbt) ⊎ KeepsSkeleton b w s after
  unfolding base_state
  Handled-KeepsSkeleton s after e kept = inl refl
  Handled-KeepsSkeleton s after e (updated from text incoming current base next own _ _ c a h w') =
      let started = base_state-active s s.stage _ current e a in
      inr (
        current,
        next.0,
        c,
        w',
        absorb-skeleton b base.0 incoming peer own next.0 next.1 h ∙ sym (ap skeleton started),
        absorb-IsSound b base.0 incoming peer own next.0 next.1 h,
      )
  Handled-KeepsSkeleton s after e (told {t = t} _ _ _ before _ _ _) =
      Handled-KeepsSkeleton s t e before

  -- Whatever message an active session receives, the text of its state stays as it is or becomes that
  -- of a PSBT that is sound (its shares proved, its silent payment scripts the derived ones) and whose
  -- skeleton, so every coin, amount and recipient, is that of the state before.
  pub receive-KeepsSkeleton :
      (s : Session) (m : Message)
      → s.stage ≡ active
      → ((receive b w s m).1.psbt ≡ s.psbt) ⊎ KeepsSkeleton b w s (receive b w s m).1
  receive-KeepsSkeleton s m e = Handled-KeepsSkeleton s _ e (receive-Handled b w s m).0
