-- ===== src/SpReceive/Laws.antt =====
-- src/spreceive.rs: the forms of an exported key, and the hex digits of a pair of keys.
use kiss_bdk.SpReceive.{
  decode_hex, decode_pairs, digit_value, from_str_radix, strip_origin, strip_descriptor, strip_last,
  split_once, strip_prefix, strip_sp, kept_before,
}
use kiss_bdk.Shared.Session.Start.{hex, hex_digit}
use kiss_bdk.Common.{
  ℕ, Bytes, none, some, [], ◌∷◌, ◌++◌, ok, ◌≡◌, ◌≢◌, refl, All, arith, ◌<◌, length, ◌%◌, ◌>>=◌,
  ◌>>◌, codes, ◌∙◌, ap, Bytes-discrete, ◌/◌, ◌*◌, ◌+◌, ◌==◌, false,
}

strip_last-append : (mark : ℕ) (text : Bytes) → strip_last mark (text ++ mark ∷ []) ≡ some text
strip_last-append mark [] = ground arith
strip_last-append mark (c ∷ []) = ground arith
strip_last-append mark (c ∷ d ∷ text) = ap (kept_before c) (strip_last-append mark (d ∷ text))

split_once-append :
    (mark : ℕ) (before after : Bytes)
    → All (λ c. c ≢ mark) before
    → split_once mark (before ++ mark ∷ after) ≡ some (before, after)
split_once-append mark [] after h = ground arith
split_once-append mark (c ∷ before) after h =
    rw (split_once-append mark before after h.1) (ground arith)

-- The key of an export behind its origin.
abbrev pub with_origin : Bytes → Bytes → Bytes
with_origin origin key = 0x5b ∷ origin ++ 0x5d ∷ key

strip_origin-with_origin :
    (origin key : Bytes)
    → All (λ c. c ≢ 0x5d) origin
    → strip_origin (with_origin origin key) ≡ ok key
unfolding strip_origin ◌>>=◌ Bytes-discrete
strip_origin-with_origin origin key h = rw (split_once-append 0x5d origin key h) refl

strip_origin_bare : (key : Bytes) → strip_prefix (codes "[") key ≡ none → strip_origin key ≡ ok key
unfolding strip_origin
strip_origin_bare key h = rw (strip_origin, h) refl

-- An export inside `sp(` and `)`.
abbrev pub in_sp : Bytes → Bytes
in_sp inner = 0x73 ∷ 0x70 ∷ 0x28 ∷ inner ++ 0x29 ∷ []

strip_descriptor-in_sp : (inner : Bytes) → strip_descriptor (in_sp inner) ≡ strip_origin inner
unfolding strip_descriptor ◌>>=◌ Bytes-discrete
strip_descriptor-in_sp inner = rw (strip_last-append 0x29 inner) refl

strip_descriptor_bare :
    (text : Bytes) → strip_sp text ≡ none → strip_descriptor text ≡ strip_origin text
unfolding strip_descriptor
strip_descriptor_bare text h = rw (strip_descriptor, h) refl

strip_sp-with_origin : (origin key : Bytes) → strip_sp (with_origin origin key) ≡ none
unfolding Bytes-discrete
strip_sp-with_origin [] key = refl
strip_sp-with_origin (a ∷ []) key = refl
strip_sp-with_origin (a ∷ b ∷ origin) key = refl

-- An origin has no closing bracket, and a key begins neither with an opening one nor with `sp(` or
-- `SP(`. Then the key is read out of each of the four forms of an export: the key alone, the key
-- behind its origin, and either of them inside `sp(` and `)`.
pub strip_descriptor-forms :
    (origin key : Bytes)
    → All (λ c. c ≢ 0x5d) origin
    → strip_prefix (codes "[") key ≡ none
    → strip_sp key ≡ none
    → (strip_descriptor key ≡ ok key)
      × (strip_descriptor (with_origin origin key) ≡ ok key)
      × (strip_descriptor (in_sp key) ≡ ok key)
      × (strip_descriptor (in_sp (with_origin origin key)) ≡ ok key)
strip_descriptor-forms origin key closed bare no_sp = (
  strip_descriptor_bare key no_sp ∙ strip_origin_bare key bare,
  strip_descriptor_bare (with_origin origin key) (strip_sp-with_origin origin key)
      ∙ strip_origin-with_origin origin key closed,
  strip_descriptor-in_sp key ∙ strip_origin_bare key bare,
  strip_descriptor-in_sp (with_origin origin key) ∙ strip_origin-with_origin origin key closed,
)

digit_value-hex_digit : (n : ℕ) → n < 16 → digit_value (hex_digit n) ≡ some n
digit_value-hex_digit n h = ground arith

hex_digit_sign : (n : ℕ) → n < 16 → (hex_digit n == 0x2b) ≡ false
hex_digit_sign n h = ground arith

from_str_radix-hex_digit :
    (m n : ℕ) → m < 16 → n < 16 → from_str_radix (hex_digit m) (hex_digit n) ≡ some (m * 16 + n)
from_str_radix-hex_digit m n h k =
    rw (hex_digit_sign m h, digit_value-hex_digit m h, digit_value-hex_digit n k) refl

decode_pairs-hex : (bytes : Bytes) → All (λ x. x < 256) bytes → decode_pairs (hex bytes) ≡ ok bytes
unfolding decode_pairs ◌>>=◌
decode_pairs-hex [] h = refl
decode_pairs-hex (byte ∷ bytes) h =
    rw
      (
        from_str_radix-hex_digit (byte / 16) (byte % 16) (omega arith) (omega arith),
        decode_pairs-hex bytes h.1,
      )
      (ap (λ x. ok (x ∷ bytes)) (omega arith))

length-hex : (bytes : Bytes) → length (hex bytes) % 2 ≡ 0
length-hex [] = refl
length-hex (byte ∷ bytes) = omega (arith, length-hex bytes)

-- For any bytes, the hex digits that the coordinator writes of them are read back as them.
pub decode_hex-hex : (bytes : Bytes) → All (λ x. x < 256) bytes → decode_hex (hex bytes) ≡ ok bytes
unfolding decode_hex ◌>>◌
decode_hex-hex bytes h = rw (length-hex bytes) (decode_pairs-hex bytes h)
