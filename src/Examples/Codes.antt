-- ===== src/Examples/Codes.antt =====
-- The CBOR byte string of a QR payload, at a payload of 24 bytes.
use kiss_bdk.Psbt.{OptionBytes-discrete}
use kiss_bdk.Qr.Cbor.{psbt_magic, parse_crypto_psbt_cbor, parse_raw_psbt, header_lengths}
use kiss_bdk.Qr.Decoder.{
  check_part, Minicbor, Ur, Decoder, receive, single_part, receive_frame, receive_decoded, unpack,
}
use kiss_bdk.Qr.Decoder.Laws.{check_part_bounds, receive-IsPayload, IsPayload}
use kiss_bdk.Qr.Cbor.{cbor_byte_string, unwrap_cbor_byte_string}
use kiss_bdk.Qr.Cbor.Canonical.{unwrap_cbor_byte_string_iff, AllBytes}
use kiss_bdk.Common.{
  refl, some, none, true, codes, zero, suc, replicate, ◌↔◌, ◌>>◌, ◌≤◌, false, ◌*◌, ◌+◌,
  Bytes-discrete, ◌>>=◌,
}
use kiss_bdk.Common.{ℕ, zero, suc, ◌≡◌, ok, ◌∷◌, arith, Bytes, ◌<◌}

abbrev payload_bytes : Bytes
payload_bytes = replicate 24 7

small_bytes : (n x : ℕ) → x < 256 → AllBytes (replicate n x)
small_bytes zero x h = tt
small_bytes (suc n) x h = (h, small_bytes n x h)

unwrap_cbor_byte_string_iff_example :
    (unwrap_cbor_byte_string (0x58 ∷ 24 ∷ payload_bytes) ≡ ok payload_bytes)
    ↔ (0x58 ∷ 24 ∷ payload_bytes ≡ cbor_byte_string payload_bytes)
unwrap_cbor_byte_string_iff_example =
    unwrap_cbor_byte_string_iff (0x58 ∷ 24 ∷ payload_bytes) payload_bytes
      (omega arith, (omega arith, small_bytes 24 7 (omega arith))) (omega arith)

part_passes : check_part 1 2 300 200 ≡ ok tt
unfolding check_part ◌>>◌
part_passes = refl

check_part_bounds_example :
    (0 < 1)
    × (0 < 2)
    × (0 < 300)
    × (0 < 200)
    × (2 ≤ 128)
    × (200 ≤ 256)
    × (300 ≤ 4099)
    × (300 ≤ 2 * 200)
    × (2 * 200 < 300 + 200)
check_part_bounds_example = check_part_bounds 1 2 300 200 part_passes

abbrev reader : Minicbor
reader = record { array = λ _. none; u32 = λ _. none; bytes = λ _. none }

-- Every code is a single part that carries the magic bytes.
abbrev codes_of : Ur
codes_of = record {
  State = Unit {0};
  trim = λ text. text;
  base64_decode = some;
  decode = λ _. some (single_part, 0x45 ∷ psbt_magic);
  receive = λ state _. (true, state);
  resolved_fragment_count = λ _. 0;
  complete = λ _. false;
  message = λ _. none;
}

abbrev fresh_decoder : Decoder codes_of
fresh_decoder = record { ur = tt; last_resolved = 0; last_ur = none; ur_frames = 0 }

abbrev scanned : Bytes
scanned = codes "UR:CRYPTO-PSBT/AB"

code_read : (receive reader codes_of fresh_decoder scanned).0 ≡ ok (some psbt_magic)
unfolding receive receive_frame receive_decoded unpack parse_crypto_psbt_cbor parse_raw_psbt
    unwrap_cbor_byte_string header_lengths Bytes-discrete OptionBytes-discrete ◌>>=◌ ◌>>◌
code_read = refl

receive-IsPayload_example : IsPayload (some psbt_magic)
receive-IsPayload_example =
    receive-IsPayload reader codes_of fresh_decoder scanned (some psbt_magic) code_read
