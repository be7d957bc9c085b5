-- ===== src/SharedFlow/Run.antt =====
-- src/sharedflow.rs: what a step works on. The channel, the wallet and the signer are traits in the
-- code; here they are the operations of a record over a state of the outside world. An operation that
-- fails has still changed that state.
use kiss_bdk.Psbt.{Transaction, V0Psbt}
use kiss_bdk.Sp.{SilentPaymentAddress}
use kiss_bdk.Shared.Error.{Error}
use kiss_bdk.Shared.Session.{Session, Pass}
use kiss_bdk.Common.{ℕ, Bytes, Option, none, some, List, Result, ok, err, Bool, true, false}

-- What the session file holds.
pub record Saved : Type 0 where
  pub inbox : List Bytes
  pub session : Option Session

pub data FlowError : Type 0 where
  shared : Error → FlowError
  channel wallet signer_link file : FlowError
  bad_address already_in_send other_recipient other_amount no_such_message : FlowError
  gave_up : Error → FlowError
  out_of_attempts : FlowError

-- One trip to the signer.
pub record Visit : Type 0 where
  pub session : Bytes
  pub number : ℕ
  pub pass : Pass

-- `Transport`, `WalletLink`, `SignerLink`, and whether the session file can be read and written.
pub record Links (Outside : Type 0) : Type 0 where
  pub send : Bytes → Outside → Bool × Outside
  pub receive : Outside → Option (List Bytes) × Outside
  pub fund : SilentPaymentAddress → ℕ → ℕ → Outside → Option V0Psbt × Outside
  pub broadcast_tx : Transaction → Outside → Bool × Outside
  pub sign : Bytes → Visit → Outside → Option Bytes × Outside
  pub refused : Error → Outside → Bool × Outside
  pub can_read : Outside → Bool × Outside
  pub can_write : Outside → Bool × Outside

-- The session file, the files of the sends that were retired, by session, and whether the grace period
-- was spent.
pub record World (Outside : Type 0) : Type 0 where
  pub saved : Saved
  pub retired : List (Bytes × Saved)
  pub waited : Bool
  pub outside : Outside

-- A computation that may fail and changes the world either way.
abbrev pub Run : Type 0 → Type 0 → Type 0 → Type 0
Run Outside E A = World Outside → Result E A × World Outside

-- What follows a result, where a failure ends the computation.
abbrev pub and_then :
    {O E A B : Type 0} → (A → Run O E B) → Result E A × World O → Result E B × World O
and_then f (ok a, world) = f a world
and_then f (err e, world) = (err e, world)

infixl 5 ◌>>=◌ ◌>>◌
unfoldable pub ◌>>=◌ : {O E A B : Type 0} → Run O E A → (A → Run O E B) → Run O E B
(m >>= f) world = and_then f (m world)

unfoldable pub ◌>>◌ : {O E B : Type 0} → Run O E (Unit {0}) → Run O E B → Run O E B
(m >> k) = m >>= λ x. k

abbrev pub ret : {O E A : Type 0} → A → Run O E A
ret a world = (ok a, world)

abbrev pub fail : {O E A : Type 0} → E → Run O E A
fail e world = (err e, world)

-- `?` on a result of the shared send itself.
abbrev pub lift : {O A : Type 0} → Result Error A → Run O FlowError A
lift (ok a) world = (ok a, world)
lift (err e) world = (err (shared e), world)

-- A failure as a value.
abbrev pub attempt : {O D E A : Type 0} → Run O D A → Run O E (Result D A)
attempt m world = let (r, after) = m world in (ok r, after)

-- A call of the outside world: its answer, and what a success changes beside it.
abbrev pub answered :
    {O A : Type 0} → FlowError → World O → Option A × O → Result FlowError A × World O
answered e world (some a, after) = (ok a, record world { outside = after })
answered e world (none, after) = (err e, record world { outside = after })

abbrev pub confirmed :
    {O : Type 0} → FlowError → World O → World O → Bool × O → Result FlowError (Unit {0}) × World O
confirmed e world changed (true, after) = (ok tt, record changed { outside = after })
confirmed e world changed (false, after) = (err e, record world { outside = after })
