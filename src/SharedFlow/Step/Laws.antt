-- ===== src/SharedFlow/Step/Laws.antt =====
-- A step moves the session file as the session's own operations say, or not at all.
use kiss_bdk.SharedFlow.Step.Acting.{handle-Stays, visit_signer-Stays}
use kiss_bdk.Shared.Session.Steps.{pass}
use kiss_bdk.Shared.Input.{is_empty}
use kiss_bdk.SharedFlow.Run.{Saved, Links, World, answered, wallet, channel, lift, file, ◌>>◌}
use kiss_bdk.SharedFlow.Start.{Terms, is_broadcast, load}
use kiss_bdk.SharedFlow.Step.{
  visit_signer, listen, handle, step_message, receive_batch, step_ready, get_waited, set_waited,
  is_theirs, is_empty, broadcast_tx, step_sign, step_active, step_session, step_next, step_outbox,
  step, send_all, send, step_inbox, next_in_inbox,
}
use kiss_bdk.SharedFlow.Step.Moves.{
  Acts, unmoved, arrived, acted, Stays, Lands, >>=-Lands, >>=-Stays, answered-Stays, save-Lands,
  lift-Stays, confirmed-Stays, signed, broadcast, IsAnswered, sent, Moves, >>-Lands,
}
use kiss_bdk.Psbt.{Psbt}
use kiss_bdk.Bitcoin.{Bitcoin}
use kiss_bdk.Sp.Address.{AddressText}
use kiss_bdk.Shared.Message.{Message}
use kiss_bdk.Shared.Wire.{Wire}
use kiss_bdk.Shared.Session.{Session, request, ready, my_turn}
use kiss_bdk.Shared.Session.Steps.{finalize_session, finish}
use kiss_bdk.Common.{
  true, false, if◌then◌else◌, [], ℕ, Bytes, Option, none, some, ok, get_elem?, ◌≡◌, refl, subst,
  inl, inr, Bool-cases, ◌&&◌, not, true, List, Bool, sym, ◌∷◌, ◌+◌, ◌%◌, ◌^◌, ◌∙◌,
}

module _ {O : Type 0} (links : Links O) (b : Bitcoin) (w : Wire) (text : AddressText)
    (updater : Psbt → Option Psbt) where
  module _ (from_str : Bytes → Option Message) (me : Bytes) (terms : Option Terms) where
    step_message-Lands :
        (saved : Saved) (next : ℕ) (found : Option Bytes) (world : World O)
        → world.saved ≡ saved
        → get_elem? saved.inbox next ≡ found
        → Lands links b w text updater from_str me terms saved
            (step_message links b w text updater from_str me terms saved next found world)
    step_message-Lands saved next none world e h = e
    step_message-Lands saved next (some line) world e h =
        >>=-Lands links b w text updater from_str me terms
          (Acts links b w text updater from_str me terms line saved) saved
          (handle links b w text updater from_str me terms saved line) _ world
          (handle-Stays links b w text updater from_str me terms line saved world e)
          (λ handled after e' acts.
            save-Lands links b w text updater from_str me terms saved _ after e'
              (acted next h acts))

    listen-Lands :
        (saved : Saved) (world : World O)
        → world.saved ≡ saved
        → Lands links b w text updater from_str me terms saved (listen links saved world)
    unfolding listen receive_batch
    listen-Lands saved world e =
        >>=-Lands links b w text updater from_str me terms
          (λ batch. (links.receive world.outside).0 ≡ some batch) saved _ _ world
          (answered-Stays channel saved world (links.receive world.outside) e)
          (λ batch after e' got. elim (Bool-cases (is_empty batch)) [
            | inl none_new ↦ rw (none_new, e') unmoved
            | inr some_new ↦ rw some_new (
                save-Lands links b w text updater from_str me terms saved _ after e'
                  (arrived batch world.outside got))
          ])

    step_ready-Lands :
        (saved : Saved) (s : Session) (world : World O)
        → world.saved ≡ saved
        → saved.session ≡ some s
        → Lands links b w text updater from_str me terms saved
            (step_ready links b w text updater from_str me terms saved s world)
    unfolding step_ready broadcast_tx
    step_ready-Lands saved s world e held =
        >>=-Lands links b w text updater from_str me terms (λ _. Unit {0}) saved (get_waited links)
          _ world (e, tt)
          (λ spent after e' _. elim (Bool-cases (is_theirs s.newest && not spent)) [
            | inl wait ↦ rw wait (
                >>-Lands links b w text updater from_str me terms (Unit {0}) saved
                  (set_waited links) (listen links saved) after (e', tt)
                  (λ last e'' _. listen-Lands saved last e''))
            | inr go ↦ rw go (
                >>=-Lands links b w text updater from_str me terms
                  (λ tx. finalize_session b w s ≡ ok tx) saved (lift (finalize_session b w s)) _
                  after (lift-Stays saved (finalize_session b w s) after e')
                  (λ tx w₁ e₁ f.
                    >>-Lands links b w text updater from_str me terms
                      ((links.broadcast_tx tx w₁.outside).0 ≡ true) saved (broadcast_tx links tx) _
                      w₁ (confirmed-Stays wallet saved w₁ (links.broadcast_tx tx w₁.outside) e₁)
                      (λ w₂ e₂ taken.
                        >>=-Lands links b w text updater from_str me terms
                          (λ t. finish b w s (b.compute_txid tx) ≡ ok t) saved
                          (lift (finish b w s (b.compute_txid tx))) _ w₂
                          (lift-Stays saved (finish b w s (b.compute_txid tx)) w₂ e₂)
                          (λ t w₃ e₃ h.
                            save-Lands links b w text updater from_str me terms saved _ w₃ e₃
                              (broadcast s t tx w₁.outside held f taken h)))))
          ])

    step_sign-Lands :
        (attempts : ℕ) (saved : Saved) (s : Session) (world : World O)
        → world.saved ≡ saved
        → saved.session ≡ some s
        → Lands links b w text updater from_str me terms saved
            (step_sign links b w text updater from_str me terms attempts saved s world)
    unfolding step_sign
    step_sign-Lands attempts saved s world e held =
        >>=-Lands links b w text updater from_str me terms (λ asked. request w s ≡ ok asked) saved
          (lift (request w s)) _ world (lift-Stays saved (request w s) world e)
          (λ asked w₁ e₁ r.
            >>=-Lands links b w text updater from_str me terms (λ p. pass b w s ≡ ok p) saved
              (lift (pass b w s)) _ w₁ (lift-Stays saved (pass b w s) w₁ e₁)
              (λ next w₂ e₂ _.
                >>=-Lands links b w text updater from_str me terms
                  (λ t. IsAnswered links b w s asked t) saved
                  (visit_signer links b w text updater attempts s asked
                    (record { session = s.session; number = (s.visits + 1) % 2 ^ 32; pass = next }))
                  _ w₂ (visit_signer-Stays links b w text updater attempts s asked _ saved w₂ e₂)
                  (λ t w₃ e₃ answered_step.
                    save-Lands links b w text updater from_str me terms saved _ w₃ e₃
                      (signed s t asked held r answered_step))))

    step_active-Lands :
        (attempts : ℕ) (saved : Saved) (s : Session) (world : World O)
        → world.saved ≡ saved
        → saved.session ≡ some s
        → Lands links b w text updater from_str me terms saved
            (step_active links b w text updater from_str me terms attempts saved s world)
    unfolding step_active
    step_active-Lands attempts saved s world e held =
        >>=-Lands links b w text updater from_str me terms (λ r. ready w s ≡ ok r) saved
          (lift (ready w s)) _ world (lift-Stays saved (ready w s) world e)
          (λ is_ready w₁ e₁ _. elim (Bool-cases is_ready) [
            | inl yes_ready ↦ rw yes_ready (step_ready-Lands saved s w₁ e₁ held)
            | inr not_ready ↦ rw not_ready (
                >>=-Lands links b w text updater from_str me terms (λ t. my_turn w s ≡ ok t) saved
                  (lift (my_turn w s)) _ w₁ (lift-Stays saved (my_turn w s) w₁ e₁)
                  (λ turn w₂ e₂ _. elim (Bool-cases turn) [
                    | inl mine_now ↦ rw mine_now (step_sign-Lands attempts saved s w₂ e₂ held)
                    | inr not_now ↦ rw not_now (listen-Lands saved w₂ e₂)
                  ]))
          ])

    step_session-Lands :
        (attempts : ℕ) (saved : Saved) (held : Option Session) (world : World O)
        → world.saved ≡ saved
        → saved.session ≡ held
        → Lands links b w text updater from_str me terms saved
            (step_session links b w text updater from_str me terms attempts saved held world)
    step_session-Lands attempts saved none world e h = listen-Lands saved world e
    step_session-Lands attempts saved (some s) world e h =
        elim (Bool-cases (is_broadcast s.stage)) [
          | inl over ↦
              rw over (subst (Moves links b w text updater from_str me terms saved) (sym e) unmoved)
          | inr active_still ↦ rw active_still (step_active-Lands attempts saved s world e h)
        ]

    step_next-Lands :
        (attempts : ℕ) (saved : Saved) (world : World O)
        → world.saved ≡ saved
        → Lands links b w text updater from_str me terms saved
            (step_next links b w text updater from_str me terms attempts saved world)
    unfolding step_next step_inbox
    step_next-Lands attempts saved world e = elim (Bool-cases (is_empty saved.inbox)) [
      | inl none_left ↦ rw none_left (step_session-Lands attempts saved saved.session world e refl)
      | inr some_left ↦ rw some_left (
          step_message-Lands saved (next_in_inbox from_str saved)
            (get_elem? saved.inbox (next_in_inbox from_str saved)) world e refl)
    ]

    send_all-Stays :
        (messages : List Bytes) (before : Saved) (world : World O)
        → world.saved ≡ before
        → Stays (λ _. Unit {0}) before (send_all links messages world)
    unfolding send_all send ◌>>◌
    send_all-Stays [] before world e = (e, tt)
    send_all-Stays (message ∷ messages) before world e =
        >>=-Stays (λ _. (links.send message world.outside).0 ≡ true) (λ _. Unit {0}) before
          (send links message) _ world
          (confirmed-Stays channel before world (links.send message world.outside) e)
          (λ _ after e' _. send_all-Stays messages before after e')

    step_outbox-Lands :
        (attempts : ℕ) (saved : Saved) (held : Option Session) (world : World O)
        → world.saved ≡ saved
        → saved.session ≡ held
        → Lands links b w text updater from_str me terms saved
            (step_outbox links b w text updater from_str me terms attempts saved held world)
    step_outbox-Lands attempts saved none world e h = step_next-Lands attempts saved world e
    step_outbox-Lands attempts saved (some s) world e h = elim (Bool-cases (is_empty s.outbox)) [
      | inl nothing_owed ↦ rw nothing_owed (step_next-Lands attempts saved world e)
      | inr owed ↦ rw owed (
          >>-Lands links b w text updater from_str me terms (Unit {0}) saved
            (send_all links s.outbox) _ world (send_all-Stays s.outbox saved world e)
            (λ after e' _.
              save-Lands links b w text updater from_str me terms saved _ after e' (sent s h)))
    ]

    -- Whatever the channel, the wallet, the signer and the disk answer: a step that fails leaves the
    -- session file as it was, and a step that does not fail makes at most one of these changes to it:
    -- it clears the outbox; it adds to the inbox what the channel handed over; it replaces the session
    -- by what an answer that the signer gave to its request makes of it; it replaces the session by the
    -- finished one, after the wallet took the finalized transaction; or it takes one message out of the
    -- inbox. That message the session has received, if there is one. If there is none, the message is
    -- dropped if it is no proposal, or one that does not pass the checks, says other terms than this
    -- wallet insists on or does not join with a half that the wallet gave for it; or it is a proposal
    -- that passes and says those terms, and the session is now the one that joins it with such a half.
    -- A text that is no message is dropped.
    pub step-Lands :
        (attempts : ℕ) (world : World O)
        → Lands links b w text updater from_str me terms world.saved
            (step links b w text updater from_str me terms attempts world)
    unfolding step load
    step-Lands attempts world =
        >>=-Lands links b w text updater from_str me terms (λ saved. saved ≡ world.saved)
          world.saved (load links) _ world (loaded (links.can_read world.outside))
          (λ saved after e same_saved.
            subst
              (λ before. Lands links b w text updater from_str me terms before (
                step_outbox links b w text updater from_str me terms attempts saved saved.session
                  after))
              same_saved
              (step_outbox-Lands attempts saved saved.session after (e ∙ sym same_saved) refl))
      where
        loaded :
            (answer : Bool × O)
            → Stays
                (λ saved. saved ≡ world.saved)
                world.saved
                (answered file world (if answer.0 then some world.saved else none, answer.1))
        loaded (true, after) = (refl, refl)
        loaded (false, after) = refl
