-- ===== src/SpSend/Strip/Laws.antt =====
-- Stripping a well-formed PSBTv2 removes the empty scripts of its output maps, and nothing else.
use kiss_bdk.SpSend.Strip.Format.{
  encode_pair, IsPair, without_empty, encode_map, encode_maps, compact, compact_size-compact,
  stripped, take_bytes-append,
}
use kiss_bdk.SpSend.Strip.{strip_maps, strip_empty_output_scripts, magic}
use mathlib.Core.List.{append_assoc}
use kiss_bdk.SpSend.Cursor.{
  take_bytes, wide, compact_size, passed, out_script, copy_pair, pair, dropped, end, copy_map,
}
use kiss_bdk.Common.{
  ℕ, zero, suc, refl, ◌≡◌, sym, ap, ◌∙◌, inl, inr, ok, true, false, Bool, List, [], ◌∷◌, ◌++◌,
  arith, ◌>>=◌, ◌>>◌, Bytes, ◌+◌, ◌≤◌, ◌<◌, if◌then◌else◌, length, ◌==◌, leb, ◌&&◌, same,
  length-append, Bool-cases, ◌-◌, take-length_append, All, Bytes-discrete,
}

passed-append : (xs rest : Bytes) → passed (xs ++ rest) rest ≡ xs
passed-append xs rest =
    let n : length (xs ++ rest) - length rest ≡ length xs = omega (arith, length-append xs rest) in
    rw (n, take-length_append xs rest)

abbrev kept : Bool → Bytes × Bytes → Bytes
kept strip (key, value) =
    if strip && length value == 0 && same key out_script then [] else encode_pair (key, value)

copy_pair_steps :
    (strip : Bool) (start key value c₁ c₂ c₃ rest : Bytes) (key_len value_len : ℕ)
    → compact_size start ≡ ok (key_len, c₁)
    → (key_len == 0) ≡ false
    → take_bytes key_len c₁ ≡ ok (key, c₂)
    → compact_size c₂ ≡ ok (value_len, c₃)
    → take_bytes value_len c₃ ≡ ok (value, rest)
    → copy_pair strip start
      ≡ ok (pair (if dropped strip key value_len then [] else passed start rest) rest)
unfolding copy_pair ◌>>=◌
copy_pair_steps strip start key value c₁ c₂ c₃ rest key_len value_len e₁ e₂ e₃ e₄ e₅ =
    rw (e₁, copy_pair, ◌>>=◌, e₂, e₃, e₄, e₅)

encode_pair-append :
    (key value rest : Bytes)
    → encode_pair (key, value) ++ rest
      ≡ compact (length key) ++ (key ++ (compact (length value) ++ (value ++ rest)))
unfolding encode_pair
encode_pair-append key value rest = simp append_assoc

copy_pair-encode_pair :
    (strip : Bool) (p : Bytes × Bytes) (rest : Bytes)
    → IsPair p
    → copy_pair strip (encode_pair p ++ rest) ≡ ok (pair (kept strip p) rest)
copy_pair-encode_pair strip (key, value) rest (pos, fits, fits') =
    copy_pair_steps strip (encode_pair (key, value) ++ rest) key value _ _ _ rest _ _
      (ap compact_size (encode_pair-append key value rest)
        ∙ compact_size-compact (length key) (key ++ (compact (length value) ++ (value ++ rest)))
            fits)
      (ground arith) (take_bytes-append key _)
      (compact_size-compact (length value) (value ++ rest) fits') (take_bytes-append value rest)
    ∙ rw (passed-append (encode_pair (key, value)) rest)

-- The end of a map.
copy_pair-end : (strip : Bool) (rest : Bytes) → copy_pair strip (0 ∷ rest) ≡ ok (end rest)
unfolding copy_pair compact_size wide ◌>>=◌
copy_pair-end strip rest = refl

unless : Bool → List (Bytes × Bytes) → List (Bytes × Bytes)
unless strip m = if strip then without_empty m else m

encode_map-unless :
    (strip : Bool) (p : Bytes × Bytes) (ps : List (Bytes × Bytes))
    → encode_map (unless strip (p ∷ ps)) ≡ kept strip p ++ encode_map (unless strip ps)
unfolding encode_map unless without_empty
encode_map-unless false (key, value) ps = refl
encode_map-unless true (key, value) ps =
    elim (Bool-cases (length value == 0 && same key out_script)) [ inl e ↦ rw e | inr e ↦ rw e ]

unless-nil : (strip : Bool) → encode_map (unless strip []) ≡ 0 ∷ []
unfolding unless encode_map without_empty
unless-nil true = refl
unless-nil false = refl

copy_map-encode_map :
    (fuel : ℕ) (strip : Bool) (m : List (Bytes × Bytes)) (rest : Bytes)
    → All IsPair m
    → length m < fuel
    → copy_map fuel strip (encode_map m ++ rest) ≡ ok (encode_map (unless strip m), rest)
unfolding copy_map encode_map ◌>>=◌
copy_map-encode_map zero strip m rest a h = elim h [ ]
copy_map-encode_map (suc fuel) strip [] rest a h =
    rw (copy_pair-end strip rest, ◌>>=◌, unless-nil strip)
copy_map-encode_map (suc fuel) strip (p ∷ ps) rest (a, rest_a) h =
    rw
      (
        append_assoc (encode_pair p) (encode_map ps) rest,
        copy_pair-encode_pair strip p (encode_map ps ++ rest) a,
        ◌>>=◌,
        copy_map-encode_map fuel strip ps rest rest_a (omega arith),
      )
      (ap (λ out. ok (out, rest)) (sym (encode_map-unless strip p ps)))

length-encode_map : (m : List (Bytes × Bytes)) → All IsPair m → length m < length (encode_map m)
unfolding encode_map encode_pair
length-encode_map [] a = omega arith
length-encode_map ((key, value) ∷ ps) ((pos, _, _), a) = omega (
  arith,
  length-encode_map ps a,
  length-append (encode_pair (key, value)) (encode_map ps),
  length-append (compact (length key)) (key ++ (compact (length value) ++ value)),
  length-append key (compact (length value) ++ value),
)

length-encode_maps :
    (ms : List (List (Bytes × Bytes))) → All (All IsPair) ms → length ms ≤ length (encode_maps ms)
unfolding encode_maps
length-encode_maps [] a = omega arith
length-encode_maps (m ∷ ms) (a, b) = omega (
  arith,
  length-encode_map m a,
  length-encode_maps ms b,
  length-append (encode_map m) (encode_maps ms),
)

strip_maps_step :
    (fuel first_output i : ℕ) (cursor : Bytes)
    → 0 < length cursor
    → strip_maps (suc fuel) first_output i cursor ≡ (
        copy_map (length cursor) (leb first_output i) cursor >>= λ one.
        strip_maps fuel first_output (suc i) one.1 >>= λ rest. ok (one.0 ++ rest))
unfolding strip_maps
strip_maps_step fuel first_output i [] h = elim h [ ]
strip_maps_step fuel first_output i (x ∷ cursor) h = refl

strip_maps-encode_maps :
    (fuel first_output i : ℕ) (ms : List (List (Bytes × Bytes)))
    → All (All IsPair) ms
    → length ms ≤ fuel
    → strip_maps fuel first_output i (encode_maps ms)
      ≡ ok (encode_maps (stripped first_output i ms))
unfolding encode_maps stripped encode_map ◌>>=◌
strip_maps-encode_maps zero first_output i [] a h = unfold strip_maps in refl
strip_maps-encode_maps (suc fuel) first_output i [] a h = unfold strip_maps in refl
strip_maps-encode_maps zero first_output i (m ∷ ms) a h = elim h [ ]
strip_maps-encode_maps (suc fuel) first_output i (m ∷ ms) (a, b) h =
    let long = length-encode_map m a in
    let all = length-append (encode_map m) (encode_maps ms) in
    strip_maps_step fuel first_output i (encode_map m ++ encode_maps ms) (omega arith)
    ∙ rw
        (
          copy_map-encode_map (length (encode_map m ++ encode_maps ms)) (leb first_output i) m
              (encode_maps ms) a (omega arith),
          ◌>>=◌,
          strip_maps-encode_maps fuel first_output (suc i) ms b (omega arith),
        )
        (unfold unless in refl)

-- Whatever maps a PSBTv2 with `n` inputs has, as long as each key is there and the lengths fit 64
-- bits, stripping its serialization succeeds and gives the serialization of the same maps, in which
-- the output maps, those behind the global map and the `n` input maps, have lost their empty
-- PSBT_OUT_SCRIPT pairs and nothing else.
pub strip_empty_output_scripts-encode_maps :
    (n : ℕ) (ms : List (List (Bytes × Bytes)))
    → All (All IsPair) ms
    → strip_empty_output_scripts (magic ++ encode_maps ms) n
      ≡ ok (magic ++ encode_maps (stripped (1 + n) 0 ms))
unfolding strip_empty_output_scripts ◌>>=◌ ◌>>◌ Bytes-discrete
strip_empty_output_scripts-encode_maps n ms a = rw (
  take_bytes-append magic (encode_maps ms),
  strip_maps-encode_maps (length (encode_maps ms)) (1 + n) 0 ms a (length-encode_maps ms a),
)
