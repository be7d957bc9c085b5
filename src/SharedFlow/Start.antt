-- ===== src/SharedFlow/Start.antt =====
-- src/sharedflow.rs: `Store`, `begin` and `join`: how a wallet folder comes to hold a shared send.
use kiss_bdk.SharedFlow.Run.{
  Saved, FlowError, Links, World, Run, ◌>>=◌, ◌>>◌, ret, fail, lift, already_in_send, shared,
  bad_address, other_recipient, other_amount, answered, confirmed, file, wallet,
}
use kiss_bdk.Psbt.{Psbt, V0Psbt}
use kiss_bdk.Bitcoin.{Bitcoin}
use kiss_bdk.Sp.{SilentPaymentAddress}
use kiss_bdk.Sp.Address
use kiss_bdk.Sp.Address.{AddressText}
use kiss_bdk.Shared.Error.{Error, bad_address}
use kiss_bdk.Shared.Message.{Message}
use kiss_bdk.Shared.Terms.{Role, start, join, share_of, check_amount}
use kiss_bdk.Shared.Wire.{Wire}
use kiss_bdk.Shared.Proposal.{Proposal, read_proposal}
use kiss_bdk.Shared.Session.{Session, Stage, proposed, active, broadcast}
use kiss_bdk.Shared.Session.Start.{propose_session, join_session, session_id}
use kiss_bdk.Common.{
  ℕ, Bytes, Option, none, some, [], Result, ok, err, Bool, true, false, if◌then◌else◌, insert, ◌==◌,
  ◌&&◌, same, not,
}

abbrev pub is_broadcast : Stage → Bool
is_broadcast proposed = false
is_broadcast active = false
is_broadcast broadcast = true

-- The session, unless it is already broadcast.
unfoldable pub unfinished : Saved → Option Session
unfinished saved = elim saved.session as (λ x. Option Session) [
  | none ↦ none
  | some s ↦ if is_broadcast s.stage then none else some s
]

-- What the joining wallet insists a proposal says.
pub record Terms : Type 0 where
  pub to : Option Bytes
  pub sats : Option ℕ

-- Why a proposal was not joined.
pub data NotJoined : Type 0 where
  refused_by : FlowError → NotJoined
  failed : FlowError → NotJoined

abbrev pub same_address : SilentPaymentAddress → SilentPaymentAddress → Bool
same_address a other =
    same a.scan other.scan && same a.spend other.spend && same_network a.mainnet other.mainnet
  where
    same_network : Bool → Bool → Bool
    same_network true m = m
    same_network false m = not m

abbrev pub is_start : Role → Bool
is_start start = true
is_start join = false

module _ {O : Type 0} (links : Links O) where
  unfoldable pub load : Run O FlowError Saved
  load world = answered file world (
      let (readable, after) = links.can_read world.outside in
      (if readable then some world.saved else none, after))

  -- The file is replaced in one step, so a failure leaves the old one.
  unfoldable pub save : Saved → Run O FlowError (Unit {0})
  save saved world =
      confirmed file world (record world { saved = saved }) (links.can_write world.outside)

  -- The file of a retired session beside the session file.
  unfoldable pub keep : Bytes → Saved → Run O FlowError (Unit {0})
  keep name kept world =
      confirmed file world (record world { retired = insert name kept world.retired })
        (links.can_write world.outside)

  -- Move a broadcast session out of the way; what is saved after it.
  unfoldable pub retire : Saved → Run O FlowError Saved
  retire saved = elim saved.session as (λ x. Run O FlowError Saved) [
    | none ↦ ret saved
    | some s ↦
        if is_broadcast s.stage
        then (do
          keep s.session (record { inbox = []; session = some s })
          save (record saved { session = none })
          ret (record saved { session = none }))
        else ret saved
  ]

  unfoldable pub fund : SilentPaymentAddress → ℕ → ℕ → Run O FlowError V0Psbt
  fund recipient sats fee_rate world =
      answered wallet world (links.fund recipient sats fee_rate world.outside)

  module _ (b : Bitcoin) (w : Wire) (text : AddressText) (updater : Psbt → Option Psbt) where
    unfoldable pub decode_address : Bytes → Run O FlowError SilentPaymentAddress
    decode_address to world =
        elim (Address.decode b text to) as (λ x. Result FlowError SilentPaymentAddress × World O) [
          | ok address ↦ (ok address, world)
          | err e ↦ (err bad_address, world)
        ]

    -- Whether an unfinished session is the send that is asked for.
    unfoldable pub carries_on : Session → Bytes → ℕ → Run O FlowError Bool
    carries_on s to sats =
        if is_start s.role && s.sats == sats
        then (do
          theirs ← decode_address s.to
          ours ← decode_address to
          ret (same_address theirs ours))
        else ret false

    -- Start a shared send, leaving the proposal in the outbox. Whether a new one was made.
    unfoldable pub begin : Bytes → Bytes → ℕ → ℕ → Bytes → Run O FlowError Bool
    begin me to sats fee_rate seed = do
      saved ← load
      elim (unfinished saved) as (λ x. Run O FlowError Bool) [
        | some s ↦ do
          same_send ← carries_on s to sats
          (if same_send then ret false else fail already_in_send)
        | none ↦ do
          left ← retire saved
          recipient ← decode_address to
          lift (check_amount sats)
          half ← fund recipient (share_of sats start) fee_rate
          created ←
              lift (propose_session b w updater text me (session_id b seed) half to sats fee_rate)
          save (record left { session = some created })
          ret true
      ]

    -- `Terms::refuse`
    unfoldable pub refuse_terms : Terms → Proposal → Result FlowError (Unit {0})
    refuse_terms terms agreed =
        elim (expected_address terms.to) as (λ x. Result FlowError (Unit {0})) [
          | err e ↦ err e
          | ok false ↦ err other_recipient
          | ok true ↦ if expected_amount terms.sats then ok tt else err other_amount
        ]
      where
        expected_address : Option Bytes → Result FlowError Bool
        expected_address none = ok true
        expected_address (some to) =
            elim (Address.decode b text to) as (λ x. Result FlowError Bool) [
              | err e ↦ err bad_address
              | ok address ↦ ok (same_address address agreed.recipient)
            ]

        expected_amount : Option ℕ → Bool
        expected_amount none = true
        expected_amount (some sats) = sats == agreed.sats

    -- The checks before anything is funded.
    unfoldable pub checked_proposal : Bytes → Message → Option Terms → Result FlowError Proposal
    checked_proposal me message terms =
        elim (read_proposal b w text message me) as (λ x. Result FlowError Proposal) [
          | err e ↦ err (shared e)
          | ok agreed ↦ elim terms as (λ x. Result FlowError Proposal) [
            | none ↦ ok agreed
            | some t ↦ elim (refuse_terms t agreed) as (λ x. Result FlowError Proposal) [
              | err e ↦ err e
              | ok _ ↦ ok agreed
            ]
          ]
        ]

    abbrev pub refusing : {A : Type 0} → Result FlowError A → Run O NotJoined A
    refusing (ok a) world = (ok a, world)
    refusing (err e) world = (err (refused_by e), world)

    abbrev pub funding : Result FlowError V0Psbt × World O → Result NotJoined V0Psbt × World O
    funding (ok half, world) = (ok half, world)
    funding (err e, world) = (err (failed e), world)

    abbrev pub joining : Result Error Session → Run O NotJoined Session
    joining (ok s) world = (ok s, world)
    joining (err e) world = (err (refused_by (shared e)), world)

    -- Check a proposal, add this wallet's half, and give the session.
    unfoldable pub join_proposal : Bytes → Message → Option Terms → Run O NotJoined Session
    join_proposal me message terms = do
      agreed ← refusing (checked_proposal me message terms)
      half ← (λ world.
          funding (fund agreed.recipient (share_of agreed.sats join) agreed.fee_rate world))
      joining (join_session b w updater me agreed half)
