-- ===== src/SharedFlow/Step/Keeps.antt =====
-- A wallet folder stays in its shared send, whatever arrives.
use kiss_bdk.SharedFlow.Run.{Saved, FlowError, Links, World}
use kiss_bdk.SharedFlow.Start.{Terms}
use kiss_bdk.SharedFlow.Step.{Progress, step, receive}
use kiss_bdk.SharedFlow.Step.Moves.{
  Acts, Moves, no_message, unasked, refused, told, joins, unmoved, sent, arrived, acted, signed,
  broadcast, Lands,
}
use kiss_bdk.SharedFlow.Step.Laws.{step-Lands}
use kiss_bdk.Psbt.{Psbt}
use kiss_bdk.Bitcoin.{Bitcoin}
use kiss_bdk.Sp.Address.{AddressText}
use kiss_bdk.Shared.Message.{Message}
use kiss_bdk.Shared.Wire.{Wire}
use kiss_bdk.Shared.Session.{Session}
use kiss_bdk.Shared.Session.Handled.{rank}
use kiss_bdk.Shared.Session.Follows.{terms, PeerKept, PeerKept-refl, receive-Follows}
use kiss_bdk.Shared.Session.History
use kiss_bdk.Shared.Session.History.{Step-Follows}
use kiss_bdk.Common.{
  ℕ, Bytes, Option, none, some, [], Result, ok, err, ◌≡◌, refl, sym, ◌∙◌, subst, ◌≤◌, arith,
}

-- The same send, as far or further, with the other wallet once it is known.
abbrev pub SameSend : Session → Session → Type 0
SameSend before after =
    (terms after ≡ terms before)
    × (rank before.stage ≤ rank after.stage)
    × PeerKept before.peer after.peer

abbrev pub Keeps : Session → Option Session → Type 0
Keeps s none = ⊥
Keeps s (some after) = SameSend s after

Keeps-same : (s : Session) (held : Option Session) → held ≡ some s → Keeps s held
Keeps-same s held h = subst (Keeps s) (sym h) (refl, omega arith, PeerKept-refl s.peer)

some-injective : {x y : Session} → ◌≡◌ {A = Option Session} (some x) (some y) → x ≡ y
some-injective h = cc

module _ {O : Type 0} (links : Links O) (b : Bitcoin) (w : Wire) (text : AddressText)
    (updater : Psbt → Option Psbt) (from_str : Bytes → Option Message) (me : Bytes)
    (rules : Option Terms) where
  Acts-Keeps :
      (line : Bytes) (saved handled : Saved) (s : Session)
      → saved.session ≡ some s
      → Acts links b w text updater from_str me rules line saved handled
      → Keeps s handled.session
  Acts-Keeps line saved handled s h (no_message e p) = Keeps-same s saved.session h
  Acts-Keeps line saved handled s h (unasked message fresh p k) = Keeps-same s saved.session h
  Acts-Keeps line saved handled s h (refused message fresh p r) = Keeps-same s saved.session h
  Acts-Keeps line saved handled s h (told t message e p) =
      let same_session : s ≡ t = some-injective (sym h ∙ e) in
      let (kept, further, peers, _) = (receive-Follows b w t message).0 in
      subst (λ x. SameSend x (receive b w t message).1) (sym same_session) (kept, further, peers)
  Acts-Keeps line saved handled s h (joins message agreed half t fresh p r m f j) = absurd cc

  stepped-Keeps :
      (saved : Saved) (s t next : Session)
      → saved.session ≡ some s
      → saved.session ≡ some t
      → History.Step b w t next
      → SameSend s next
  stepped-Keeps saved s t next h e st =
      let same_session : s ≡ t = some-injective (sym h ∙ e) in
      let (kept, further, peers, _) = Step-Follows b w t next st in
      subst (λ x. SameSend x next) (sym same_session) (kept, further, peers)

  Moves-Keeps :
      (saved after : Saved) (s : Session)
      → saved.session ≡ some s
      → Moves links b w text updater from_str me rules saved after
      → Keeps s after.session
  Moves-Keeps saved after s h unmoved = Keeps-same s saved.session h
  Moves-Keeps saved after s h (sent t e) =
      let same_session : s ≡ t = some-injective (sym h ∙ e) in
      subst (λ x. SameSend x (record t { outbox = [] })) (sym same_session)
        (refl, omega arith, PeerKept-refl t.peer)
  Moves-Keeps saved after s h (arrived batch o got) = Keeps-same s saved.session h
  Moves-Keeps saved after s h (acted {line = line} {handled = handled} i e acts) =
      Acts-Keeps line saved handled s h acts
  Moves-Keeps saved after s h (signed t next asked e q (visit, o, answer, lines, given, r)) =
      stepped-Keeps saved s t next h e (History.responded answer r)
  Moves-Keeps saved after s h (broadcast t next tx o e f taken d) =
      stepped-Keeps saved s t next h e (History.finished (b.compute_txid tx) d)

  Lands-Keeps :
      (saved : Saved) (s : Session) (r : Result FlowError Progress × World O)
      → saved.session ≡ some s
      → Lands links b w text updater from_str me rules saved r
      → Keeps s r.1.saved.session
  Lands-Keeps saved s (ok p, after) h m = Moves-Keeps saved after.saved s h m
  Lands-Keeps saved s (err x, after) h e =
      subst (λ f. Keeps s f.session) (sym e) (Keeps-same s saved.session h)

module _ {O : Type 0} (links : Links O) (b : Bitcoin) (w : Wire) (text : AddressText)
    (updater : Psbt → Option Psbt) where
  -- Whatever the channel, the wallet, the signer and the disk answer, and whether or not the step fails:
  -- a wallet folder that holds a shared send still holds that send after it, with the same terms, as
  -- far as before or further, and with the same other wallet once one is known.
  pub step-Keeps :
      (from_str : Bytes → Option Message) (me : Bytes) (rules : Option Terms) (attempts : ℕ)
      (world : World O) (s : Session)
      → world.saved.session ≡ some s
      → Keeps s (step links b w text updater from_str me rules attempts world).1.saved.session
  step-Keeps from_str me rules attempts world s h =
      Lands-Keeps links b w text updater from_str me rules world.saved s _ h
        (step-Lands links b w text updater from_str me rules attempts world)
