-- ===== src/Shared/Session.antt =====
-- src/shared.rs, "The session": one wallet's record of one shared send, and what moves it. An
-- operation on `&mut self` returns the new session; one that fails leaves the session as it was.
use kiss_bdk.Shared.Finish.{signer_psbt}
use kiss_bdk.Shared.Input.{outpoint}
use kiss_bdk.Shared.Signatures.{signed_inputs}
use kiss_bdk.Shared.Wire.{Wire, decode, serialize_v2}
use kiss_bdk.Psbt.{OutPoint, Input, Psbt, OutPoint-discrete}
use kiss_bdk.Shared.Absorb.{Line}
use kiss_bdk.Shared.Error.{
  Error, not_joined, already_broadcast, no_proposal, bad_coin, coin_not_in_transaction, not_my_turn,
}
pub mod Steps
pub mod Start
pub mod Handled
pub mod Follows
pub mod History
pub mod Broadcast
pub mod Fixed
use kiss_bdk.Shared.Message.{done, update, Message, version, proposal}
use kiss_bdk.Shared.Terms.{start, Role}
use kiss_bdk.Common.{
  ℕ, zero, suc, refl, ◌≡◌, sym, ap, ◌∙◌, subst, inl, inr, some, none, Option, ok, err, Result, true,
  false, Bool, List, [], ◌∷◌, ◌++◌, map, arith, ◌>>=◌, ◌>>◌, Bytes, ◌+◌, ◌≤◌, ◌<◌, ◌⊎◌, ◌≢◌, elem,
  not, ◌&&◌, ◌||◌, same, if◌then◌else◌, holds, or_fail, length, ◌==◌, guard,
}

-- How far the shared send has come. `Stage::Done` is `broadcast`.
pub data Stage : Type 0 where
  proposed active broadcast : Stage

-- Where the newest state came from.
pub data Newest : Type 0 where
  mine theirs joined : Newest

-- Why a message was not applied, though it is harmless.
pub data Reason : Type 0 where
  other_session own_message other_wallet already_part already_sent nothing_new already_recorded :
      Reason

-- What became of a message. `Received::Done` is `reported`.
pub data Received : Type 0 where
  ignored : Reason → Received
  applied : List Line → Received
  reported : Bytes → Received

pub record Session : Type 0 where
  pub v : ℕ
  pub session : Bytes
  pub role : Role
  pub me : Bytes
  pub peer : Option Bytes
  pub to : Bytes
  pub sats : ℕ
  pub fee_rate : ℕ
  pub stage : Stage
  pub newest : Newest
  pub psbt : Bytes
  pub mine : List Bytes
  pub visits : ℕ
  pub outbox : List Bytes
  pub txid : Option Bytes

-- What the next visit to the signer will be.
pub data Pass : Type 0 where
  share_only sign : Pass

abbrev pub is_active : Stage → Bool
is_active proposed = false
is_active active = true
is_active broadcast = false

abbrev pub is_mine : Newest → Bool
is_mine mine = true
is_mine theirs = false
is_mine joined = false

-- The position of a coin among the inputs, from `i` on.
unfoldable pub position : OutPoint → ℕ → List Input → Option ℕ
position coin i [] = none
position coin i (input ∷ inputs) =
    if holds (OutPoint-discrete (outpoint input) coin) then some i else position coin (suc i) inputs

abbrev pub is_subset : List ℕ → List ℕ → Bool
is_subset [] signed = true
is_subset (i ∷ own) signed = elem i signed && is_subset own signed

abbrev pub any_outside : List ℕ → List (ℕ × Bytes) → Bool
any_outside own [] = false
any_outside own ((input, scan) ∷ rest) = not (elem input own) || any_outside own rest

-- Whether the message is from another wallet than the one that is known.
abbrev pub is_stranger : Option Bytes → Bytes → Bool
is_stranger none from = false
is_stranger (some peer) from = not (same peer from)

unfoldable pub update_message : Session → Result Error Message
update_message s = elim s.stage [
  | proposed ↦ err not_joined
  | _ ↦ ok (record {
    v = version;
    session = s.session;
    kind = update;
    from = s.me;
    psbt = some s.psbt;
    to = none;
    sats = none;
    fee_rate = none;
    txid = none;
  })
]

unfoldable pub proposal_message : Session → Result Error Message
proposal_message s = elim s.role [
  | start ↦ elim s.stage [
    | proposed ↦ ok (record {
      v = version;
      session = s.session;
      kind = proposal;
      from = s.me;
      psbt = some s.psbt;
      to = some s.to;
      sats = some s.sats;
      fee_rate = some s.fee_rate;
      txid = none;
    })
    | _ ↦ err no_proposal
  ]
  | _ ↦ err no_proposal
]

module _ (w : Wire) where
  unfoldable pub state : Session → Result Error Psbt
  state s = decode w s.psbt

  -- The positions of the coins of this wallet.
  unfoldable pub coin_positions : List Bytes → Psbt → Result Error (List ℕ)
  coin_positions [] psbt = ok []
  coin_positions (text ∷ coins) psbt = do
    coin ← or_fail (w.outpoint_from_str text) bad_coin
    index ← or_fail (position coin 0 psbt.inputs) coin_not_in_transaction
    rest ← coin_positions coins psbt
    ok (index ∷ rest)

  unfoldable pub my_inputs : Session → Psbt → Result Error (List ℕ)
  my_inputs s psbt = coin_positions s.mine psbt

  -- Whether this wallet's signer is the one to visit now.
  unfoldable pub my_turn : Session → Result Error Bool
  my_turn s = if not (is_active s.stage) || is_mine s.newest then ok false else do
    current ← state s
    own ← my_inputs s current
    ok (not (is_subset own (signed_inputs current)))

  -- Whether every input is signed.
  unfoldable pub ready : Session → Result Error Bool
  ready s =
      if not (is_active s.stage)
      then ok false
      else do current ← state s; ok (length (signed_inputs current) == length current.inputs)

  -- The PSBT to show this wallet's signer.
  unfoldable pub request : Session → Result Error Bytes
  request s = elim s.stage [
    | proposed ↦ err not_joined
    | broadcast ↦ err already_broadcast
    | active ↦ do
      turn ← my_turn s
      guard turn not_my_turn
      current ← state s
      own ← my_inputs s current
      serialize_v2 w (signer_psbt current own)
  ]
