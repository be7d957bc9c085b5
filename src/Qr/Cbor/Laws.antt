-- ===== src/Qr/Cbor/Laws.antt =====
-- The round trip of a payload through its CBOR byte string.
use kiss_bdk.Qr.Cbor.{
  unwrap_cbor_byte_string, cbor_byte_string, cbor_header, header_lengths, short_length, wide_length,
  length_bytes, be_value_from,
}
use kiss_bdk.Common.{
  ℕ, refl, ◌≡◌, ap, inl, inr, some, ok, true, false, [], ◌∷◌, ◌++◌, arith, ◌>>=◌, ◌>>◌, Bytes, ◌+◌,
  ◌≤◌, ◌<◌, ◌/◌, get_elem?, ◌%◌, length, ◌^◌, Bool-cases, ◌==◌, length-append, leb, ltb,
  drop-length_append, be_bytes, take-length_append,
}

unwrap-header :
    (header bytes : Bytes) (first : ℕ) (len : ℕ)
    → first / 32 ≡ 2
    → get_elem? (header ++ bytes) 0 ≡ some first
    → header_lengths (first % 32) (header ++ bytes) ≡ ok (length header, len)
    → len ≡ length bytes
    → length header + len < 2 ^ 64
    → unwrap_cbor_byte_string (header ++ bytes) ≡ ok bytes
unfolding unwrap_cbor_byte_string ◌>>=◌ ◌>>◌
unwrap-header header bytes first len major f lengths l fits =
    let m : (first / 32 == 2) ≡ true = ground arith in
    let n : (length header + len == length (header ++ bytes)) ≡ true =
      ground (arith, length-append header bytes) in
    let o : ltb (length header + len) (2 ^ 64) ≡ true = ground arith in
    rw (f, m, lengths, o, n, drop-length_append header bytes)

wide_length-read :
    (n limit value : ℕ) (cbor raw : Bytes)
    → length_bytes n cbor ≡ some raw
    → be_value_from 0 raw ≡ value
    → limit < value
    → wide_length n limit cbor ≡ ok (1 + n, value)
unfolding wide_length ◌>>=◌ ◌>>◌
wide_length-read n limit value cbor raw l v above =
    let big : leb (be_value_from 0 raw) limit ≡ false = ground arith in
    rw (l, big) (ap (λ x. ok (1 + n, x)) v)

two_bytes : (n : ℕ) → n < 65536 → be_value_from 0 (be_bytes 2 n) ≡ n
two_bytes n h = omega arith

four_bytes : (n : ℕ) → n < 2 ^ 32 → be_value_from 0 (be_bytes 4 n) ≡ n
four_bytes n h = omega arith

direct_length :
    (len : ℕ) (cbor : Bytes) → len ≤ 23 → header_lengths ((64 + len) % 32) cbor ≡ ok (1, len)
unfolding header_lengths
direct_length len cbor h =
    let r : (64 + len) % 32 ≡ len = omega arith in
    let t : leb len 23 ≡ true = ground arith in rw (r, header_lengths, t)

short_length-read :
    (first len : ℕ) (bytes : Bytes) → 23 < len → short_length (first ∷ len ∷ bytes) ≡ ok (2, len)
unfolding short_length ◌>>=◌ ◌>>◌
short_length-read first len bytes h = let t : ltb len 24 ≡ false = ground arith in rw t

length_bytes-append :
    (first : ℕ) (raw bytes : Bytes) → length_bytes (length raw) (first ∷ raw ++ bytes) ≡ some raw
length_bytes-append first raw bytes =
    let t : leb (1 + length raw) (length (first ∷ raw ++ bytes)) ≡ true =
      ground (arith, length-append raw bytes) in
    rw (t, take-length_append raw bytes)

-- The four headers, by the length.
header_case :
    (bytes : Bytes) (len : ℕ)
    → len ≡ length bytes
    → len < 2 ^ 32
    → unwrap_cbor_byte_string (cbor_header len ++ bytes) ≡ ok bytes
unfolding cbor_header header_lengths
header_case bytes len l fits = elim (Bool-cases (leb len 23)) [
  | inl e ↦
      let small : len ≤ 23 = ground arith in
      rw e (
        unwrap-header ((0x40 + len) ∷ []) bytes (0x40 + len) len (omega arith) refl
          (direct_length len _ small) l (omega arith))
  | inr e ↦ elim (Bool-cases (leb len 255)) [
    | inl e2 ↦
        rw (e, e2)
          (unwrap-header (0x58 ∷ len ∷ []) bytes 0x58 len refl refl
            (short_length-read 0x58 len bytes (ground arith)) l (omega arith))
    | inr e2 ↦ elim (Bool-cases (leb len 65535)) [
      | inl e3 ↦
          rw (e, e2, e3)
            (unwrap-header (0x59 ∷ be_bytes 2 len) bytes 0x59 len refl refl
              (wide_length-read 2 255 len _ (be_bytes 2 len)
                (length_bytes-append 0x59 (be_bytes 2 len) bytes) (two_bytes len (ground arith))
                (ground arith))
              l (omega arith))
      | inr e3 ↦
          rw (e, e2, e3)
            (unwrap-header (0x5a ∷ be_bytes 4 len) bytes 0x5a len refl refl
              (wide_length-read 4 65535 len _ (be_bytes 4 len)
                (length_bytes-append 0x5a (be_bytes 4 len) bytes) (four_bytes len fits)
                (ground arith))
              l (omega arith))
    ]
  ]
]

-- Unwrapping undoes wrapping, for every payload of less than 2^32 bytes.
pub unwrap_cbor_byte_string-cbor_byte_string :
    (bytes : Bytes)
    → length bytes < 2 ^ 32
    → unwrap_cbor_byte_string (cbor_byte_string bytes) ≡ ok bytes
unfolding cbor_byte_string
unwrap_cbor_byte_string-cbor_byte_string bytes fits = header_case bytes (length bytes) refl fits
