-- ===== src/SharedFlow/Step/Moves.antt =====
-- How the session file may change in one step, and the lemmas that follow the file through a run.
use kiss_bdk.Shared.Error.{Error}
use kiss_bdk.SharedFlow.Run.{
  Saved, Visit, FlowError, Links, World, Run, ◌>>=◌, ◌>>◌, ret, and_then, answered, confirmed, lift,
  file,
}
use kiss_bdk.SharedFlow.Start.{save, Terms}
use kiss_bdk.SharedFlow.Step.Joining.{IsRefused, MeetsAny, IsFunded}
use kiss_bdk.SharedFlow.Step.{moved, remove}
use kiss_bdk.Psbt.{Psbt, V0Psbt, Transaction}
use kiss_bdk.Sp.Address.{AddressText}
use kiss_bdk.Shared.Absorb.{Line}
use kiss_bdk.Bitcoin.{Bitcoin}
use kiss_bdk.Shared.Message.{Message, proposal, parse}
use kiss_bdk.Shared.Wire.{Wire}
use kiss_bdk.Shared.Proposal.{Proposal, read_proposal}
use kiss_bdk.Shared.Session.{Session, request}
use kiss_bdk.Shared.Session.Steps.{receive, respond, finish, finalize_session}
use kiss_bdk.Shared.Session.Start.{join_session}
use kiss_bdk.Common.{
  ℕ, Bytes, Option, none, some, List, [], ◌++◌, Result, ok, err, Bool, true, false, get_elem?, ◌≡◌,
  refl, ◌≢◌,
}

-- What acting on a message makes of the file, while the message is in the inbox still. A text that is
-- no message is dropped. A session takes every message. A wallet without one drops what is not a
-- proposal and a proposal that is refused, and joins a proposal that reads and says what is insisted on.
pub data Acts {O : Type 0} (links : Links O) (b : Bitcoin) (w : Wire) (text : AddressText)
    (updater : Psbt → Option Psbt) (from_str : Bytes → Option Message) (me : Bytes)
    (terms : Option Terms) (line : Bytes) (saved : Saved) : Saved → Type 0 where
  no_message :
      (e : Error)
      → parse from_str line ≡ err e
      → Acts links b w text updater from_str me terms line saved saved
  told :
      (s : Session) (message : Message)
      → saved.session ≡ some s
      → parse from_str line ≡ ok message
      → Acts links b w text updater from_str me terms line saved
          (record saved { session = some ((receive b w s message).1) })
  unasked :
      (message : Message)
      → saved.session ≡ none
      → parse from_str line ≡ ok message
      → message.kind ≢ proposal
      → Acts links b w text updater from_str me terms line saved saved
  refused :
      (message : Message)
      → saved.session ≡ none
      → parse from_str line ≡ ok message
      → IsRefused links b w text updater me message terms
      → Acts links b w text updater from_str me terms line saved saved
  joins :
      (message : Message) (agreed : Proposal) (half : V0Psbt) (s : Session)
      → saved.session ≡ none
      → parse from_str line ≡ ok message
      → read_proposal b w text message me ≡ ok agreed
      → MeetsAny b text terms agreed
      → IsFunded links agreed half
      → join_session b w updater me agreed half ≡ ok s
      → Acts links b w text updater from_str me terms line saved (record saved { session = some s })

-- What an answer that the signer gave makes of a session.
abbrev pub IsAnswered : {O : Type 0} → Links O → Bitcoin → Wire → Session → Bytes → Session → Type 0
IsAnswered {O = O} links b w s asked after =
    (visit : Visit) × (o : O) × (answer : Bytes) × (lines : List Line) × ((links.sign asked visit
        o).0
      ≡ some answer)
    × (respond b w s answer ≡ ok (lines, after))

-- The file before and after one step.
pub data Moves {O : Type 0} (links : Links O) (b : Bitcoin) (w : Wire) (text : AddressText)
    (updater : Psbt → Option Psbt) (from_str : Bytes → Option Message) (me : Bytes)
    (terms : Option Terms) (saved : Saved) : Saved → Type 0 where
  unmoved : Moves links b w text updater from_str me terms saved saved
  sent :
      (s : Session)
      → saved.session ≡ some s
      → Moves links b w text updater from_str me terms saved
          (record saved { session = some (record s { outbox = [] }) })
  arrived :
      (batch : List Bytes) (o : O)
      → (links.receive o).0 ≡ some batch
      → Moves links b w text updater from_str me terms saved
          (record saved { inbox = saved.inbox ++ batch })
  acted :
      {line : Bytes} {handled : Saved} (i : ℕ)
      → get_elem? saved.inbox i ≡ some line
      → Acts links b w text updater from_str me terms line saved handled
      → Moves links b w text updater from_str me terms saved
          (record handled { inbox = remove handled.inbox i })
  signed :
      (s after : Session) (asked : Bytes)
      → saved.session ≡ some s
      → request w s ≡ ok asked
      → IsAnswered links b w s asked after
      → Moves links b w text updater from_str me terms saved (record saved { session = some after })
  broadcast :
      (s after : Session) (tx : Transaction) (o : O)
      → saved.session ≡ some s
      → finalize_session b w s ≡ ok tx
      → (links.broadcast_tx tx o).0 ≡ true
      → finish b w s (b.compute_txid tx) ≡ ok after
      → Moves links b w text updater from_str me terms saved (record saved { session = some after })

-- A run that leaves the file alone, with what holds of its result.
abbrev pub Stays : {O E A : Type 0} → (A → Type 0) → Saved → Result E A × World O → Type 0
Stays P before (ok a, after) = (after.saved ≡ before) × P a
Stays P before (err e, after) = after.saved ≡ before

module _ {O : Type 0} (links : Links O) (b : Bitcoin) (w : Wire) (text : AddressText)
    (updater : Psbt → Option Psbt) (from_str : Bytes → Option Message) (me : Bytes)
    (terms : Option Terms) where
  -- A run that moves the file once, and not at all when it fails.
  abbrev pub Lands : {E A : Type 0} → Saved → Result E A × World O → Type 0
  Lands before (ok a, after) = Moves links b w text updater from_str me terms before after.saved
  Lands before (err e, after) = after.saved ≡ before

  and_then-Lands :
      {E A B : Type 0} (P : A → Type 0) (before : Saved) (f : A → Run O E B)
      (r : Result E A × World O)
      → Stays P before r
      → ((a : A) (after : World O) → after.saved ≡ before → P a → Lands before (f a after))
      → Lands before (and_then f r)
  and_then-Lands P before f (ok a, after) (e, p) k = k a after e p
  and_then-Lands P before f (err e, after) s k = s

  pub >>=-Lands :
      {E A B : Type 0} (P : A → Type 0) (before : Saved) (m : Run O E A) (f : A → Run O E B)
      (world : World O)
      → Stays P before (m world)
      → ((a : A) (after : World O) → after.saved ≡ before → P a → Lands before (f a after))
      → Lands before ((m >>= f) world)
  unfolding ◌>>=◌
  >>=-Lands P before m f world s k = and_then-Lands P before f (m world) s k

  pub >>-Lands :
      {E B : Type 0} (P : Type 0) (before : Saved) (m : Run O E (Unit {0})) (k : Run O E B)
      (world : World O)
      → Stays (λ _. P) before (m world)
      → ((after : World O) → after.saved ≡ before → P → Lands before (k after))
      → Lands before ((m >> k) world)
  unfolding ◌>>◌
  >>-Lands P before m k world s f =
      >>=-Lands (λ _. P) before m (λ _. k) world s (λ _ after e p. f after e p)

and_then-Stays :
    {O E A B : Type 0} (P : A → Type 0) (Q : B → Type 0) (before : Saved) (f : A → Run O E B)
    (r : Result E A × World O)
    → Stays P before r
    → ((a : A) (after : World O) → after.saved ≡ before → P a → Stays Q before (f a after))
    → Stays Q before (and_then f r)
and_then-Stays P Q before f (ok a, after) (e, p) k = k a after e p
and_then-Stays P Q before f (err e, after) s k = s

pub >>=-Stays :
    {O E A B : Type 0} (P : A → Type 0) (Q : B → Type 0) (before : Saved) (m : Run O E A)
    (f : A → Run O E B) (world : World O)
    → Stays P before (m world)
    → ((a : A) (after : World O) → after.saved ≡ before → P a → Stays Q before (f a after))
    → Stays Q before ((m >>= f) world)
unfolding ◌>>=◌
>>=-Stays P Q before m f world s k = and_then-Stays P Q before f (m world) s k

-- A call of the outside world, and a result of the shared send itself, leave the file alone.
pub answered-Stays :
    {O A : Type 0} (e : FlowError) (before : Saved) (world : World O) (answer : Option A × O)
    → world.saved ≡ before
    → Stays (λ x. answer.0 ≡ some x) before (answered e world answer)
answered-Stays e before world (some a, after) same_file = (same_file, refl)
answered-Stays e before world (none, after) same_file = same_file

pub confirmed-Stays :
    {O : Type 0} (e : FlowError) (before : Saved) (world : World O) (answer : Bool × O)
    → world.saved ≡ before
    → Stays (λ x. answer.0 ≡ true) before (confirmed e world world answer)
confirmed-Stays e before world (true, after) same_file = (same_file, refl)
confirmed-Stays e before world (false, after) same_file = same_file

pub lift-Stays :
    {O A : Type 0} (before : Saved) (r : Result Error A) (world : World O)
    → world.saved ≡ before
    → Stays (λ x. r ≡ ok x) before (lift r world)
lift-Stays before (ok a) world same_file = (same_file, refl)
lift-Stays before (err e) world same_file = same_file

module _ {O : Type 0} (links : Links O) (b : Bitcoin) (w : Wire) (text : AddressText)
    (updater : Psbt → Option Psbt) (from_str : Bytes → Option Message) (me : Bytes)
    (terms : Option Terms) where
  confirmed-Lands :
      (before next : Saved) (world : World O) (answer : Bool × O)
      → world.saved ≡ before
      → Moves links b w text updater from_str me terms before next
      → Lands links b w text updater from_str me terms before
          (and_then (λ x. ret moved) (confirmed file world (record world { saved = next }) answer))
  confirmed-Lands before next world (true, after) e m = m
  confirmed-Lands before next world (false, after) e m = e

  -- The last thing that a step does.
  pub save-Lands :
      (before next : Saved) (world : World O)
      → world.saved ≡ before
      → Moves links b w text updater from_str me terms before next
      → Lands links b w text updater from_str me terms before ((save links next >> ret moved) world)
  unfolding ◌>>=◌ ◌>>◌ save
  save-Lands before next world e m =
      confirmed-Lands before next world (links.can_write world.outside) e m
