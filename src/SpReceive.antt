-- ===== src/SpReceive.antt =====
-- src/spreceive.rs: importing the keys that find payments, as KISS exports them or as two hex strings.
-- A text is its bytes. For hex digits it is ASCII: of a text with other characters the code may stop
-- at a slice that splits one, and here it is refused.
pub mod Laws
use kiss_bdk.Sp.Address.{AddressText, from_base32}
use kiss_bdk.Bitcoin.{Bitcoin}
use kiss_bdk.Shared.Message.{to_ascii_lowercase}
use kiss_bdk.Common.{
  ℕ, zero, suc, Bytes, Option, none, some, List, [], ◌∷◌, Result, ok, err, Bool, if◌then◌else◌,
  ◌==◌, ◌+◌, ◌-◌, ◌*◌, ◌%◌, ◌&&◌, ◌>>=◌, ◌>>◌, leb, same, length, map, guard, or_fail, context,
  take, drop, codes,
}

pub data Error : Type 0 where
  unterminated_origin missing_parenthesis not_bech32m mainnet_key foreign_prefix no_data : Error
  unsupported_version not_base32 payload_length invalid_scan_key invalid_spend_key no_colon : Error
  odd_digits invalid_digit scan_not_hex spend_not_hex scan_length spend_length : Error

pub record ScanKeys : Type 0 where
  pub scan : Bytes
  pub spend : Bytes

abbrev pub scan_payload_bytes : ℕ
scan_payload_bytes = 65

abbrev pub strip_prefix : Bytes → Bytes → Option Bytes
strip_prefix prefix text =
    if same (take (length prefix) text) prefix then some (drop (length prefix) text) else none

abbrev pub kept_before : ℕ → Option Bytes → Option Bytes
kept_before c none = none
kept_before c (some text) = some (c ∷ text)

-- `strip_suffix` of one character.
abbrev pub strip_last : ℕ → Bytes → Option Bytes
strip_last mark [] = none
strip_last mark (c ∷ []) = if c == mark then some [] else none
strip_last mark (c ∷ d ∷ text) = kept_before c (strip_last mark (d ∷ text))

abbrev pub after_first : ℕ → Option (Bytes × Bytes) → Option (Bytes × Bytes)
after_first c none = none
after_first c (some parts) = some (c ∷ parts.0, parts.1)

-- `split_once` at a character.
abbrev pub split_once : ℕ → Bytes → Option (Bytes × Bytes)
split_once mark [] = none
split_once mark (c ∷ text) =
    if c == mark then some ([], text) else after_first c (split_once mark text)

-- A key, or a key behind its origin.
unfoldable pub strip_origin : Bytes → Result Error Bytes
strip_origin text = elim (strip_prefix (codes "[") text) [
  | none ↦ ok text
  | some after ↦ do parts ← or_fail (split_once 0x5d after) unterminated_origin; ok parts.1
]

abbrev pub strip_sp : Bytes → Option Bytes
strip_sp export = elim (strip_prefix (codes "sp(") export) [
  | some rest ↦ some rest
  | none ↦ strip_prefix (codes "SP(") export
]

unfoldable pub strip_descriptor : Bytes → Result Error Bytes
strip_descriptor export = elim (strip_sp export) [
  | none ↦ strip_origin export
  | some rest ↦ do inner ← or_fail (strip_last 0x29 rest) missing_parenthesis; strip_origin inner
]

unfoldable pub check_hrp : Bytes → Result Error (Unit {0})
check_hrp hrp =
    if same hrp (codes "tspscan")
    then ok tt
    else if same hrp (codes "spscan")
    then err mainnet_key
    else err foreign_prefix

unfoldable pub export_payload : List ℕ → Result Error Bytes
export_payload [] = err no_data
export_payload (version ∷ payload_groups) = do
  guard (version == 0) unsupported_version
  payload ← context (from_base32 payload_groups) not_base32
  guard (length payload == scan_payload_bytes) payload_length
  ok payload

-- One digit, as `u8::from_str_radix` reads it.
abbrev pub digit_value : ℕ → Option ℕ
digit_value c =
    if leb 0x30 c && leb c 0x39
    then some (c - 0x30)
    else if leb 0x61 c && leb c 0x66
    then some (c - 0x57)
    else if leb 0x41 c && leb c 0x46
    then some (c - 0x37)
    else none

abbrev pub joined_digits : Option ℕ → Option ℕ → Option ℕ
joined_digits (some high) (some low) = some (high * 16 + low)
joined_digits (some high) none = none
joined_digits none low = none

-- Two characters: two digits, or a plus sign and one.
abbrev pub from_str_radix : ℕ → ℕ → Option ℕ
from_str_radix a b =
    if a == 0x2b then digit_value b else joined_digits (digit_value a) (digit_value b)

unfoldable pub decode_pairs : Bytes → Result Error Bytes
decode_pairs (a ∷ b ∷ hex) = do
  byte ← or_fail (from_str_radix a b) invalid_digit
  bytes ← decode_pairs hex
  ok (byte ∷ bytes)
decode_pairs (a ∷ []) = err invalid_digit
decode_pairs [] = ok []

unfoldable pub decode_hex : Bytes → Result Error Bytes
decode_hex hex = do guard (length hex % 2 == 0) odd_digits; decode_pairs hex

module _ (b : Bitcoin) (text : AddressText) where
  unfoldable pub parse_scan_export : Bytes → Result Error ScanKeys
  parse_scan_export export = do
    key ← strip_descriptor (text.trim export)
    checked ← or_fail (text.bech32m key) not_bech32m
    check_hrp (map to_ascii_lowercase checked.0)
    payload ← export_payload checked.1
    scan ← or_fail (b.scalar_from_slice (take 32 payload)) invalid_scan_key
    spend ← or_fail (b.key_from_slice (drop 32 payload)) invalid_spend_key
    ok (record { scan = scan; spend = spend })

  unfoldable pub parse_scan_hex : Bytes → Result Error ScanKeys
  parse_scan_hex pair = do
    parts ← or_fail (split_once 0x3a (text.trim pair)) no_colon
    scan ← context (decode_hex (text.trim parts.0)) scan_not_hex
    spend ← context (decode_hex (text.trim parts.1)) spend_not_hex
    guard (length scan == 32) scan_length
    guard (length spend == 33) spend_length
    scan_key ← or_fail (b.scalar_from_slice scan) invalid_scan_key
    spend_key ← or_fail (b.key_from_slice spend) invalid_spend_key
    ok (record { scan = scan_key; spend = spend_key })
