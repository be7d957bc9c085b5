-- ===== src/Examples/Flow.antt =====
-- A wallet folder with two messages to send and one to act on.
use kiss_bdk.SharedFlow.Run.{◌>>=◌, ◌>>◌, Links, World}
use kiss_bdk.SharedFlow.Start.{load, save}
use kiss_bdk.SharedFlow.Step.{moved, step, send, send_all}
use kiss_bdk.SharedFlow.Step.Moves.{Lands}
use kiss_bdk.SharedFlow.Step.Laws.{step-Lands}
use kiss_bdk.SharedFlow.Step.Keeps.{Keeps, step-Keeps}
use kiss_bdk.SharedFlow.Step.Sent.{IsCleared, step-Sent}
use kiss_bdk.Shared.Message.{Message}
use kiss_bdk.Shared.Session.{Session}
use kiss_bdk.Examples.Toy.{toy}
use kiss_bdk.Examples.Sessions.{wire, session, news}
use kiss_bdk.Examples.Verifying.{zero_text}
use kiss_bdk.Common.{ℕ, suc, Bytes, refl, ◌≡◌, some, none, Option, true, false, ok, [], ◌∷◌}

-- The state of the outside world counts the calls.
abbrev links : Links ℕ
links = record {
  send = λ message o. (true, suc o);
  receive = λ o. (some [], suc o);
  fund = λ recipient sats fee_rate o. (none, suc o);
  broadcast_tx = λ tx o. (true, suc o);
  sign = λ asked visit o. (some [], suc o);
  refused = λ e o. (false, suc o);
  can_read = λ o. (true, suc o);
  can_write = λ o. (true, suc o);
}

-- No text is a message.
abbrev no_message : Bytes → Option Message
no_message line = none

abbrev owing : Session
owing = record session { outbox = (1 ∷ []) ∷ (2 ∷ []) ∷ [] }

abbrev folder : World ℕ
folder = record {
  saved = record { inbox = (9 ∷ []) ∷ []; session = some owing };
  retired = [];
  waited = false;
  outside = 0;
}

abbrev cleared : World ℕ
cleared = record folder {
  saved = record { inbox = (9 ∷ []) ∷ []; session = some session };
  outside = 4;
}

outbox_sent :
    step links toy wire zero_text some no_message (1 ∷ []) none 3 folder ≡ (ok moved, cleared)
unfolding step load send_all send save ◌>>=◌ ◌>>◌
outbox_sent = refl

step-Sent_example :
    IsCleared links toy wire zero_text some no_message (1 ∷ []) none owing folder cleared
step-Sent_example =
    step-Sent links toy wire zero_text some no_message (1 ∷ []) none 3 folder owing moved cleared
      refl (λ e. cc) outbox_sent

-- Every text is the news of the other wallet, which the session of the folder takes.
abbrev heard : Bytes → Option Message
heard line = some news

step-Lands_example :
    Lands links toy wire zero_text some heard
      (1 ∷ [])
      none
      cleared.saved
      (step links toy wire zero_text some heard (1 ∷ []) none 3 cleared)
step-Lands_example = step-Lands links toy wire zero_text some heard (1 ∷ []) none 3 cleared

step-Keeps_example :
    Keeps session
      (step links toy wire zero_text some no_message (1 ∷ []) none 3 cleared).1.saved.session
step-Keeps_example =
    step-Keeps links toy wire zero_text some no_message (1 ∷ []) none 3 cleared session refl
