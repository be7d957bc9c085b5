-- ===== src/Shared/Session/Start.antt =====
-- src/shared.rs, `Session::propose` and `Session::join`: how a session comes to be on either side.
use kiss_bdk.Shared.Input.{outpoint}
use kiss_bdk.Psbt.{Psbt, Input, V0Psbt, OutPoint}
use kiss_bdk.Bitcoin.{Bitcoin}
use kiss_bdk.Sp.Address
use kiss_bdk.Sp.Address.{AddressText}
use kiss_bdk.Shared.Error.{Error, bad_fingerprint, bad_address, bad_session}
use kiss_bdk.Shared.Message.{version, hex_field}
use kiss_bdk.Shared.Terms.{start, join, has_outpoint}
use kiss_bdk.Shared.Wire.{Wire, encode}
use kiss_bdk.Shared.Proposal.{Proposal, propose, add_half}
use kiss_bdk.Shared.Session.{Session, proposed, active, mine, joined, proposal_message, outpoint}
use kiss_bdk.Common.{
  if◌then◌else◌, ℕ, some, none, Option, ok, Result, List, [], ◌∷◌, ◌++◌, map, ◌>>=◌, Bytes, ◌+◌,
  ◌/◌, take, context, ◌%◌, ltb, ◌-◌,
}

-- The coins of `inputs` that are not among `theirs`.
abbrev pub own_coins : List OutPoint → List Input → List OutPoint
own_coins theirs [] = []
own_coins theirs (input ∷ inputs) =
    let rest = own_coins theirs inputs in
    if has_outpoint (outpoint input) theirs then rest else outpoint input ∷ rest

-- Two hex digits of a byte, as `{byte:02x}` writes them.
abbrev pub hex_digit : ℕ → ℕ
hex_digit n = if ltb n 10 then b'0' + n else b'a' + (n - 10)

abbrev hex_byte : ℕ → Bytes
hex_byte byte = hex_digit (byte / 16) ∷ hex_digit (byte % 16) ∷ []

abbrev pub hex : Bytes → Bytes
hex [] = []
hex (byte ∷ bytes) = hex_byte byte ++ hex bytes

-- A session name, of whatever the caller mixes in.
unfoldable pub session_id : Bitcoin → Bytes → Bytes
session_id b seed = hex (take 8 (b.sha256 seed))

module _ (b : Bitcoin) (w : Wire) (updater : Psbt → Option Psbt) where
  -- The wallet that starts. The proposal message is left in the outbox.
  unfoldable pub propose_session :
      AddressText → Bytes → Bytes → V0Psbt → Bytes → ℕ → ℕ → Result Error Session
  propose_session address me session half to sats fee_rate = do
    recipient ← context (Address.decode b address to) bad_address
    psbt ← propose b w updater half recipient sats fee_rate
    name ← hex_field bad_session session 16
    fingerprint ← hex_field bad_fingerprint me 8
    text ← encode w psbt
    let created : Session = record {
      v = version;
      session = name;
      role = start;
      me = fingerprint;
      peer = none;
      to = address.trim to;
      sats = sats;
      fee_rate = fee_rate;
      stage = proposed;
      newest = mine;
      psbt = text;
      mine = map (λ input. w.outpoint_to_string (outpoint input)) psbt.inputs;
      visits = 0;
      outbox = [];
      txid = none;
    }
    message ← proposal_message created
    ok (record created { outbox = w.to_json message ∷ [] })

  -- The wallet that joins. Nothing is sent before its signer has added its share.
  unfoldable pub join_session : Bytes → Proposal → V0Psbt → Result Error Session
  join_session me agreed half = do
    psbt ← add_half b w updater agreed half
    fingerprint ← hex_field bad_fingerprint me 8
    text ← encode w psbt
    ok (record {
      v = version;
      session = agreed.session;
      role = join;
      me = fingerprint;
      peer = some agreed.from;
      to = agreed.to;
      sats = agreed.sats;
      fee_rate = agreed.fee_rate;
      stage = active;
      newest = joined;
      psbt = text;
      mine = map w.outpoint_to_string (own_coins (map outpoint agreed.psbt.inputs) psbt.inputs);
      visits = 0;
      outbox = [];
      txid = none;
    })
