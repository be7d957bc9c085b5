-- ===== src/SpSend/Strip/Format.antt =====
-- The key-value maps of BIP-174 as the format defines them, and the reading of its lengths.
use native.Mathlib.Nat.{pow-suc}
use kiss_bdk.SpSend.Cursor.{take_bytes, wide, compact_size, le_value, out_script, width}
use kiss_bdk.Common.{
  ℕ, zero, suc, refl, ◌≡◌, ap, subst, inl, inr, ok, true, List, [], ◌∷◌, ◌++◌, arith, ◌>>=◌, Bytes,
  ◌<◌, if◌then◌else◌, length, ◌^◌, ltb, ◌==◌, leb, le_bytes, ◌&&◌, ◌*◌, ◌/◌, same, length-append,
  Bool-cases, take-length_append, drop-length_append,
}

-- BIP-174's compact size, pair and map, as the format defines them.
unfoldable pub compact : ℕ → Bytes
compact n =
    if ltb n 0xfd
    then n ∷ []
    else if ltb n (256 ^ 2)
    then 0xfd ∷ le_bytes 2 n
    else if ltb n (256 ^ 4)
    then 0xfe ∷ le_bytes 4 n
    else 0xff ∷ le_bytes 8 n

unfoldable pub encode_pair : Bytes × Bytes → Bytes
encode_pair (key, value) = compact (length key) ++ (key ++ (compact (length value) ++ value))

unfoldable pub encode_map : List (Bytes × Bytes) → Bytes
encode_map [] = 0 ∷ []
encode_map (p ∷ ps) = encode_pair p ++ encode_map ps

unfoldable pub encode_maps : List (List (Bytes × Bytes)) → Bytes
encode_maps [] = []
encode_maps (m ∷ ms) = encode_map m ++ encode_maps ms

-- A pair of the format: a key that is not empty, and lengths of 64 bits.
abbrev pub IsPair : Bytes × Bytes → Type 0
IsPair (key, value) = (0 < length key) × (length key < 256 ^ 8) × (length value < 256 ^ 8)

-- A map without its empty PSBT_OUT_SCRIPT pairs.
unfoldable pub without_empty : List (Bytes × Bytes) → List (Bytes × Bytes)
without_empty [] = []
without_empty ((key, value) ∷ ps) =
    let rest = without_empty ps in
    if length value == 0 && same key out_script then rest else (key, value) ∷ rest

-- The maps from position `i` on, without these pairs from the first output map on.
unfoldable pub stripped : ℕ → ℕ → List (List (Bytes × Bytes)) → List (List (Bytes × Bytes))
stripped first_output i [] = []
stripped first_output i (m ∷ ms) =
    (if leb first_output i then without_empty m else m) ∷ stripped first_output (suc i) ms

le_value-le_bytes : (w n : ℕ) → n < 256 ^ w → le_value (le_bytes w n) ≡ n
le_value-le_bytes zero n h = omega arith
le_value-le_bytes (suc w) n h =
    let p : n < 256 ^ w * 256 = rw pow-suc at h in
    let ih = le_value-le_bytes w (n / 256) (omega arith) in omega arith

length-le_bytes : (w n : ℕ) → length (le_bytes w n) ≡ w
length-le_bytes zero n = refl
length-le_bytes (suc w) n = ap suc (length-le_bytes w (n / 256))

pub take_bytes-append : (xs ys : Bytes) → take_bytes (length xs) (xs ++ ys) ≡ ok (xs, ys)
unfolding take_bytes
take_bytes-append xs ys =
    let fits : leb (length xs) (length (xs ++ ys)) ≡ true = ground (arith, length-append xs ys) in
    rw (fits, take-length_append xs ys, drop-length_append xs ys)

wide-le_bytes :
    (w first n : ℕ) (rest : Bytes)
    → n < 256 ^ suc w
    → wide (suc w) first (le_bytes (suc w) n ++ rest) ≡ ok (n, rest)
unfolding wide ◌>>=◌
wide-le_bytes w first n rest h =
    let taken : take_bytes (suc w) (le_bytes (suc w) n ++ rest) ≡ ok (le_bytes (suc w) n, rest) =
      subst (λ l. take_bytes l (le_bytes (suc w) n ++ rest) ≡ ok (le_bytes (suc w) n, rest))
        (length-le_bytes (suc w) n) (take_bytes-append (le_bytes (suc w) n) rest) in
    rw (taken, ◌>>=◌) (ap (λ v. ok (v, rest)) (le_value-le_bytes (suc w) n h))

pub compact_size-compact :
    (n : ℕ) (rest : Bytes) → n < 256 ^ 8 → compact_size (compact n ++ rest) ≡ ok (n, rest)
unfolding compact_size wide compact
compact_size-compact n rest h = elim (Bool-cases (ltb n 0xfd)) [
  | inl e ↦ let narrow : width n ≡ 0 = ground arith in rw (e, compact_size, narrow)
  | inr e ↦ elim (Bool-cases (ltb n (256 ^ 2))) [
    | inl e2 ↦ rw (e, e2) (wide-le_bytes 1 0xfd n rest (ground arith))
    | inr e2 ↦ elim (Bool-cases (ltb n (256 ^ 4))) [
      | inl e4 ↦ rw (e, e2, e4) (wide-le_bytes 3 0xfe n rest (ground arith))
      | inr e4 ↦ rw (e, e2, e4) (wide-le_bytes 7 0xff n rest h)
    ]
  ]
]
