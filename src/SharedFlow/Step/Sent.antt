-- ===== src/SharedFlow/Step/Sent.antt =====
-- What is owed to the other wallet stays in the session file until the channel has taken it.
use kiss_bdk.Shared.Input.{is_empty}
use kiss_bdk.SharedFlow.Run.{
  Saved, FlowError, Links, World, Run, ◌>>=◌, ◌>>◌, confirmed, and_then, channel, answered, file,
  ret,
}
use kiss_bdk.SharedFlow.Start.{Terms, load, save}
use kiss_bdk.SharedFlow.Step.{Progress, step, send, send_all, is_empty, moved}
use kiss_bdk.Psbt.{Psbt}
use kiss_bdk.Bitcoin.{Bitcoin}
use kiss_bdk.Sp.Address.{AddressText}
use kiss_bdk.Shared.Message.{Message}
use kiss_bdk.Shared.Wire.{Wire}
use kiss_bdk.Shared.Session.{Session}
use kiss_bdk.Common.{
  if◌then◌else◌, ℕ, Bytes, Option, none, some, List, [], ◌∷◌, Result, ok, err, Bool, true, false,
  ◌≡◌, refl, sym, ap, ◌∙◌, subst, ◌≢◌, ok-injective,
}

-- The channel takes the messages one after another, from one state of the world to another.
pub data Sent {O : Type 0} (links : Links O) : List Bytes → O → O → Type 0 where
  all_sent : (o : O) → Sent links [] o o
  sent_next :
      {message : Bytes} {messages : List Bytes} {o : O} (next last : O)
      → links.send message o ≡ (true, next)
      → Sent links messages next last
      → Sent links (message ∷ messages) o last

module _ {O : Type 0} (links : Links O) where
  -- A run that goes well has its parts go well.
  run-eq-ok :
      {E A B : Type 0} (f : A → Run O E B) (r : Result E A × World O) {x : B} {after : World O}
      → and_then f r ≡ (ok x, after)
      → (a : A) × (mid : World O) × (r ≡ (ok a, mid)) × (f a mid ≡ (ok x, after))
  run-eq-ok f (ok a, mid) h = (a, mid, refl, h)
  run-eq-ok f (err e, mid) h = absurd cc

  confirmed-eq-ok :
      (e : FlowError) (world : World O) (changed : World O) (answer : Bool × O) {mid : World O}
      → confirmed e world changed answer ≡ (ok tt, mid)
      → (answer ≡ (true, answer.1)) × (mid ≡ record changed { outside = answer.1 })
  confirmed-eq-ok e world changed (true, after) h = (refl, ap (λ r. r.1) (sym h))
  confirmed-eq-ok e world changed (false, after) h = absurd (let k = ap (λ r. r.0) h in cc)

  send_all-Sent :
      (messages : List Bytes) (world : World O) {after : World O}
      → send_all links messages world ≡ (ok tt, after)
      → Sent links messages world.outside after.outside
  unfolding send_all send ◌>>=◌ ◌>>◌
  send_all-Sent [] world h =
      subst (λ x. Sent links [] world.outside x.outside) (ap (λ r. r.1) h) (all_sent world.outside)
  send_all-Sent (message ∷ messages) world {after = after} h =
      let (_, mid, s, h₁) =
        run-eq-ok _ (confirmed channel world world (links.send message world.outside)) h in
      let (taken, e) = confirmed-eq-ok channel world world (links.send message world.outside) s in
      let rest = send_all-Sent messages mid h₁ in
      sent_next _ _ taken
        (subst (λ x. Sent links messages x after.outside) (ap (λ x. x.outside) e) rest)

  confirmed-saved :
      (e : FlowError) (world changed : World O) (answer : Bool × O) {mid : World O}
      → confirmed e world changed answer ≡ (ok tt, mid)
      → mid.saved ≡ changed.saved
  confirmed-saved e world changed answer h =
      ap (λ x. x.saved) (confirmed-eq-ok e world changed answer h).1

  send_all-saved :
      (messages : List Bytes) (world : World O) {after : World O}
      → send_all links messages world ≡ (ok tt, after)
      → after.saved ≡ world.saved
  unfolding send_all send ◌>>=◌ ◌>>◌
  send_all-saved [] world h = ap (λ r. r.1.saved) (sym h)
  send_all-saved (message ∷ messages) world h =
      let (_, mid, s, h₁) =
        run-eq-ok _ (confirmed channel world world (links.send message world.outside)) h in
      send_all-saved messages mid h₁ ∙ confirmed-saved channel world world _ s

  is_empty-cons : (xs : List Bytes) → xs ≢ [] → is_empty xs ≡ false
  is_empty-cons [] h = absurd (h refl)
  is_empty-cons (x ∷ xs) h = refl

  loaded :
      (world : World O) (saved : Saved) (mid : World O)
      → load links world ≡ (ok saved, mid)
      → (saved ≡ world.saved) × (mid ≡ record world { outside = (links.can_read world.outside).1 })
  unfolding load
  loaded world saved mid h = by_answer (links.can_read world.outside) h
    where
      by_answer :
          (answer : Bool × O)
          → answered file world (if answer.0 then some world.saved else none, answer.1)
            ≡ (ok saved, mid)
          → (saved ≡ world.saved) × (mid ≡ record world { outside = answer.1 })
      by_answer (true, after) k = (ok-injective (ap (λ r. r.0) (sym k)), ap (λ r. r.1) (sym k))
      by_answer (false, after) k = absurd (let e = ap (λ r. r.0) k in cc)

  send_save :
      (messages : List Bytes) (next : Saved) (mid : World O) {p : Progress} {after : World O}
      → (send_all links messages >> (save links next >> ret moved)) mid ≡ (ok p, after)
      → (o : O) × Sent links messages mid.outside o × (after.saved ≡ next)
  unfolding ◌>>=◌ ◌>>◌ save
  send_save messages next mid {after = after} h =
      let (_, last, t, h₁) = run-eq-ok _ (send_all links messages mid) h in
      let changed : World O = record last { saved = next } in
      let (_, stored, v, h₂) =
        run-eq-ok _ (confirmed file last changed (links.can_write last.outside)) h₁ in
      let same_after : after ≡ stored = ap (λ r. r.1) (sym h₂) in
      (
        last.outside,
        send_all-Sent messages mid t,
        ap (λ x. x.saved) same_after
            ∙ confirmed-saved file last changed (links.can_write last.outside) v,
      )

  module _ (b : Bitcoin) (w : Wire) (text : AddressText) (updater : Psbt → Option Psbt)
      (from_str : Bytes → Option Message) (me : Bytes) (rules : Option Terms) where
    -- What follows once the outbox is sent.
    abbrev pub IsCleared : Session → World O → World O → Type 0
    IsCleared s world after =
        (o : O) × Sent links s.outbox (links.can_read world.outside).1 o
        × (after.saved ≡ record (world.saved) { session = some (record s { outbox = [] }) })

    -- When something is owed to the other wallet and a step goes well: the channel has taken every
    -- message of the outbox, in their order and before anything else was done, and the session file
    -- differs in nothing but the outbox, which is empty.
    pub step-Sent :
        (attempts : ℕ) (world : World O) (s : Session) (p : Progress) (after : World O)
        → world.saved.session ≡ some s
        → s.outbox ≢ []
        → step links b w text updater from_str me rules attempts world ≡ (ok p, after)
        → IsCleared s world after
    unfolding step ◌>>=◌
    step-Sent attempts world s p after held owed h =
        let (saved, mid, l, h₁) = run-eq-ok _ (load links world) h in
        let (same_saved, same_mid) = loaded world saved mid l in
        let here : saved.session ≡ some s = ap (λ x. x.session) same_saved ∙ held in
        let h₂ = rw (here, is_empty-cons s.outbox owed) at h₁ in
        let (o, sent_there, stored) =
          send_save s.outbox (record saved { session = some (record s { outbox = [] }) }) mid h₂ in
        (
          o,
          subst (λ x. Sent links s.outbox x o) (ap (λ x. x.outside) same_mid) sent_there,
          stored
              ∙ ap (λ (x : Saved). record x { session = some (record s { outbox = [] }) })
                  same_saved,
        )
