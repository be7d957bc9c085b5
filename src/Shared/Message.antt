-- ===== src/Shared/Message.antt =====
-- src/shared.rs, "Messages": what the two coordinators send one another. The JSON reader and writer
-- (serde_json) are parameters.
use kiss_bdk.Common.{
  ◌>>=◌, ◌>>◌, ℕ, Bytes, Bool, ◌&&◌, ◌||◌, Option, map, ◌+◌, Result, ok, guard, or_fail, leb, ◌==◌,
  if◌then◌else◌, length, all,
}
use kiss_bdk.Shared.Error.{
  Error, not_a_message, wrong_version, bad_session, bad_from, needs_psbt, needs_to, needs_sats,
  needs_fee_rate, needs_txid,
}

abbrev pub version : ℕ
version = 1

pub data Kind : Type 0 where
  proposal update done : Kind

pub record Message : Type 0 where
  pub v : ℕ
  pub session : Bytes
  pub kind : Kind
  pub from : Bytes
  pub psbt : Option Bytes
  pub to : Option Bytes
  pub sats : Option ℕ
  pub fee_rate : Option ℕ
  pub txid : Option Bytes

abbrev pub is_ascii_hexdigit : ℕ → Bool
is_ascii_hexdigit c =
    (leb b'0' c && leb c b'9') || (leb b'a' c && leb c b'f') || (leb b'A' c && leb c b'F')

abbrev pub to_ascii_lowercase : ℕ → ℕ
to_ascii_lowercase c = if leb b'A' c && leb c b'Z' then c + 32 else c

-- Exactly `len` hex characters, in lowercase.
unfoldable pub hex_field : Error → Bytes → ℕ → Result Error Bytes
hex_field e value len = do
  guard (length value == len && all is_ascii_hexdigit value) e
  ok (map to_ascii_lowercase value)

-- The fields that a message of this kind must have.
unfoldable pub check_required : Message → Result Error (Unit {0})
check_required m = elim m.kind [
  | proposal ↦ do
    _ ← or_fail m.psbt needs_psbt
    _ ← or_fail m.to needs_to
    _ ← or_fail m.sats needs_sats
    _ ← or_fail m.fee_rate needs_fee_rate
    ok tt
  | update ↦ do _ ← or_fail m.psbt needs_psbt; ok tt
  | done ↦ do _ ← or_fail m.txid needs_txid; ok tt
]

-- `Message::parse`, over the JSON reader.
unfoldable pub parse : (Bytes → Option Message) → Bytes → Result Error Message
unfolding check_required hex_field
parse from_str text = do
  message ← or_fail (from_str text) not_a_message
  guard (message.v == version) wrong_version
  session ← hex_field bad_session message.session 16
  from ← hex_field bad_from message.from 8
  let checked = record message { session = session; from = from }
  check_required checked
  ok checked
