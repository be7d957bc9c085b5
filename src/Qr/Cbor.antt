-- ===== src/Qr/Cbor.antt =====
-- src/qr.rs: the CBOR byte string that a `crypto-psbt` QR code carries, and the check of what comes
-- out of it.
pub mod Laws
pub mod Canonical
use kiss_bdk.Common.{
  ℕ, zero, suc, refl, ◌≡◌, sym, ap, ◌∙◌, subst, inl, inr, some, none, Option, ok, err, Result, true,
  false, Bool, List, [], ◌∷◌, ◌++◌, map, arith, ◌>>=◌, ◌>>◌, Bytes, ◌+◌, ◌≤◌, ◌<◌, ◌⊎◌, ◌≢◌,
  if◌then◌else◌, length, ◌*◌, or_fail, guard, leb, refuse, get_elem?, be_bytes, take, ltb, ◌==◌,
  ◌/◌, same, drop, ◌%◌, ◌^◌,
}

pub data Error : Type 0 where
  empty_cbor not_byte_string truncated non_canonical indefinite invalid_length overflow trailing :
      Error
  too_long no_psbt_magic bad_base64 bad_ur bad_fragment no_message too_many_frames : Error
  bad_part not_five_items zero_in_part too_many_fragments oversized_message : Error
  oversized_fragment inconsistent_lengths : Error

abbrev pub max_psbt_bytes : ℕ
max_psbt_bytes = 4096

-- `0x40 | len` and the longer headers, with the length as big-endian bytes.
unfoldable pub cbor_header : ℕ → Bytes
cbor_header len =
    if leb len 23
    then (0x40 + len) ∷ []
    else if leb len 255
    then 0x58 ∷ len ∷ []
    else if leb len 65535
    then 0x59 ∷ be_bytes 2 len
    else 0x5a ∷ be_bytes 4 len

unfoldable pub cbor_byte_string : Bytes → Bytes
cbor_byte_string bytes = cbor_header (length bytes) ++ bytes

-- `from_be_bytes`
abbrev pub be_value_from : ℕ → Bytes → ℕ
be_value_from value [] = value
be_value_from value (x ∷ xs) = be_value_from (value * 256 + x) xs

-- `cbor.get(1..1 + n)`
abbrev pub length_bytes : ℕ → Bytes → Option Bytes
length_bytes n cbor = if leb (1 + n) (length cbor) then some (take n (drop 1 cbor)) else none

-- A length in the `n` bytes behind the first, which must need them.
unfoldable pub wide_length : ℕ → ℕ → Bytes → Result Error (ℕ × ℕ)
wide_length n limit cbor = do
  bytes ← or_fail (length_bytes n cbor) truncated
  let value = be_value_from 0 bytes
  refuse (leb value limit) non_canonical
  ok (1 + n, value)

unfoldable pub short_length : Bytes → Result Error (ℕ × ℕ)
short_length cbor = do
  value ← or_fail (get_elem? cbor 1) truncated
  refuse (ltb value 24) non_canonical
  ok (2, value)

-- The lengths of the header and of the value, by the low five bits of the first byte.
unfoldable pub header_lengths : ℕ → Bytes → Result Error (ℕ × ℕ)
header_lengths additional cbor =
    if leb additional 23
    then ok (1, additional)
    else if additional == 24
    then short_length cbor
    else if additional == 25
    then wide_length 2 255 cbor
    else if additional == 26
    then wide_length 4 65535 cbor
    else if additional == 27
    then wide_length 8 4294967295 cbor
    else if additional == 31
    then err indefinite
    else err invalid_length

unfoldable pub unwrap_cbor_byte_string : Bytes → Result Error Bytes
unwrap_cbor_byte_string cbor = do
  first ← or_fail (get_elem? cbor 0) empty_cbor
  guard (first / 32 == 2) not_byte_string
  lengths ← header_lengths (first % 32) cbor
  guard (ltb (lengths.0 + lengths.1) (2 ^ 64)) overflow
  guard (lengths.0 + lengths.1 == length cbor) trailing
  ok (drop lengths.0 cbor)

-- `b"psbt\xff"`
abbrev pub psbt_magic : Bytes
psbt_magic = 0x70 ∷ 0x73 ∷ 0x62 ∷ 0x74 ∷ 0xff ∷ []

unfoldable pub parse_raw_psbt : Bytes → Result Error Bytes
parse_raw_psbt raw = do
  guard (leb (length raw) max_psbt_bytes) too_long
  guard (same (take 5 raw) psbt_magic) no_psbt_magic
  ok raw

unfoldable pub parse_crypto_psbt_cbor : Bytes → Result Error Bytes
parse_crypto_psbt_cbor cbor = do raw ← unwrap_cbor_byte_string cbor; parse_raw_psbt raw
