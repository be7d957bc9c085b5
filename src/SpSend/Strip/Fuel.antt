-- ===== src/SpSend/Strip/Fuel.antt =====
-- The loops over the maps of a PSBT come to an end: the bytes that are left are fuel enough.
use kiss_bdk.SpSend.Strip.{strip_maps, strip_empty_output_scripts, magic}
use kiss_bdk.SpSend.Cursor.{
  Error, no_fuel, take_bytes, wide, width, compact_size, copy_pair, pair, end, copy_map, Copied,
  no_magic,
}
use kiss_bdk.Common.{
  ℕ, zero, suc, ◌≢◌, ok, err, Result, Bool, [], ◌∷◌, ◌++◌, arith, ◌>>=◌, Bytes, ◌≤◌, ◌<◌, length,
  ◌==◌, leb, inl, inr, Bool-cases, length-drop, ◌+◌, ◌>>◌, same, subst, guard, true, false, refl,
}

-- What holds of a result, and that it is not for want of fuel that there is none.
abbrev Ends : {A : Type 0} → (A → Type 0) → Result Error A → Type 0
Ends P (ok a) = P a
Ends P (err e) = e ≢ no_fuel

>>=-Ends :
    {A B : Type 0} (P : A → Type 0) (Q : B → Type 0) (m : Result Error A) (f : A → Result Error B)
    → Ends P m
    → ((a : A) → P a → Ends Q (f a))
    → Ends Q (m >>= f)
unfolding ◌>>=◌
>>=-Ends P Q (ok a) f p k = k a p
>>=-Ends P Q (err e) f p k = p

take_bytes-Ends :
    (n : ℕ) (cursor : Bytes) → Ends (λ r. length r.1 ≤ length cursor) (take_bytes n cursor)
unfolding take_bytes
take_bytes-Ends n cursor = elim (Bool-cases (leb n (length cursor))) [
  | inl e ↦ rw e (omega (arith, length-drop n cursor))
  | inr e ↦ rw e (λ x. cc)
]

wide-Ends :
    (w first : ℕ) (cursor : Bytes) → Ends (λ r. length r.1 ≤ length cursor) (wide w first cursor)
unfolding wide
wide-Ends zero first cursor = omega arith
wide-Ends (suc w) first cursor =
    >>=-Ends (λ r. length r.1 ≤ length cursor) (λ r. length r.1 ≤ length cursor)
      (take_bytes (suc w) cursor) _ (take_bytes-Ends (suc w) cursor) (λ r p. p)

compact_size-Ends : (cursor : Bytes) → Ends (λ r. length r.1 < length cursor) (compact_size cursor)
unfolding compact_size
compact_size-Ends [] = λ x. cc
compact_size-Ends (first ∷ cursor) =
    weaken (wide (width first) first cursor) (wide-Ends (width first) first cursor)
  where
    weaken :
        (r : Result Error (ℕ × Bytes))
        → Ends (λ r. length r.1 ≤ length cursor) r
        → Ends (λ r. length r.1 < suc (length cursor)) r
    weaken (ok r) p = omega arith
    weaken (err e) p = p

-- A copied pair takes two bytes of the cursor at least, and the end of a map one.
abbrev pub Passes : Bytes → Copied → Type 0
Passes start (end after) = length after < length start
Passes start (pair copied after) = length after + 2 ≤ length start

below :
    {A : Type 0} (n k m : ℕ) (r : Result Error (A × Bytes))
    → Ends (λ x. length x.1 ≤ n) r
    → n + k ≤ m
    → Ends (λ x. length x.1 + k ≤ m) r
below n k m (ok x) p h = omega arith
below n k m (err e) p h = p

well_below :
    {A : Type 0} (n k m : ℕ) (r : Result Error (A × Bytes))
    → Ends (λ x. length x.1 < n) r
    → n + k ≤ m
    → Ends (λ x. length x.1 + suc k ≤ m) r
well_below n k m (ok x) p h = omega arith
well_below n k m (err e) p h = p

copy_pair-Ends : (strip : Bool) (start : Bytes) → Ends (Passes start) (copy_pair strip start)
unfolding copy_pair
copy_pair-Ends strip start =
    >>=-Ends (λ r. length r.1 + 1 ≤ length start) (Passes start) (compact_size start) _
      (well_below (length start) 0 (length start) (compact_size start) (compact_size-Ends start)
        (omega arith))
      (λ key_len p. elim (Bool-cases (key_len.0 == 0)) [
        | inl e ↦ rw e (omega arith)
        | inr e ↦ rw e (
            >>=-Ends (λ r. length r.1 + 1 ≤ length start) (Passes start)
              (take_bytes key_len.0 key_len.1) _
              (below (length key_len.1) 1 (length start) _ (take_bytes-Ends key_len.0 key_len.1) p)
              (λ key q.
                >>=-Ends (λ r. length r.1 + 2 ≤ length start) (Passes start) (compact_size key.1) _
                  (well_below (length key.1) 1 (length start) _ (compact_size-Ends key.1) q)
                  (λ value_len r.
                    >>=-Ends (λ r. length r.1 + 2 ≤ length start) (Passes start)
                      (take_bytes value_len.0 value_len.1) _
                      (below (length value_len.1) 2 (length start) _
                        (take_bytes-Ends value_len.0 value_len.1) r)
                      (λ value s. s))))
      ])

copy_map-Ends :
    (fuel : ℕ) (strip : Bool) (cursor : Bytes)
    → length cursor ≤ fuel
    → 0 < fuel
    → Ends (λ r. length r.1 < length cursor) (copy_map fuel strip cursor)
unfolding copy_map
copy_map-Ends zero strip cursor h some_fuel = absurd (omega arith)
copy_map-Ends (suc fuel) strip cursor h some_fuel =
    >>=-Ends (Passes cursor) (λ r. length r.1 < length cursor) (copy_pair strip cursor) _
      (copy_pair-Ends strip cursor)
      (λ c.
        elim c
          as (λ c.
            Passes cursor c
            → Ends (λ r. length r.1 < length cursor)
                (elim c as (λ x. Result Error (Bytes × Bytes)) [
                  | end after ↦ ok (0 ∷ [], after)
                  | pair copied after ↦ do
                    rest ← copy_map fuel strip after
                    ok (copied ++ rest.0, rest.1)
                ])) [
                  | end after ↦ λ p. p
                  | pair copied after ↦ λ p.
                      >>=-Ends (λ r. length r.1 < length after) (λ r. length r.1 < length cursor)
                        (copy_map fuel strip after) _
                        (copy_map-Ends fuel strip after (omega arith) (omega arith))
                        (λ r q. omega arith)
                ])

strip_maps-Ends :
    (fuel first_output map_index : ℕ) (cursor : Bytes)
    → length cursor ≤ fuel
    → Ends (λ r. Unit {0}) (strip_maps fuel first_output map_index cursor)
unfolding strip_maps
strip_maps-Ends fuel first_output map_index [] h = tt
strip_maps-Ends zero first_output map_index (x ∷ cursor) h = absurd (omega arith)
strip_maps-Ends (suc fuel) first_output map_index (x ∷ cursor) h =
    >>=-Ends (λ r. length r.1 < suc (length cursor)) (λ r. Unit {0}) _ _
      (copy_map-Ends (suc (length cursor)) (leb first_output map_index) (x ∷ cursor) (omega arith)
        (omega arith))
      (λ one p.
        >>=-Ends (λ r. Unit {0}) (λ r. Unit {0})
          (strip_maps fuel first_output (suc map_index) one.1) _
          (strip_maps-Ends fuel first_output (suc map_index) one.1 (omega arith)) (λ rest _. tt))

any_value :
    (n : ℕ) (r : Result Error (Bytes × Bytes))
    → Ends (λ x. length x.1 ≤ n) r
    → Ends (λ x. Unit {0}) r
any_value n (ok x) p = tt
any_value n (err e) p = p

guarded :
    (t : Bool) (k : Result Error Bytes)
    → Ends (λ r. Unit {0}) k
    → Ends (λ r. Unit {0}) (guard t no_magic >> k)
unfolding ◌>>◌
guarded true k p = p
guarded false k p = λ x. cc

stripping-Ends :
    (bytes : Bytes) (input_count : ℕ)
    → Ends (λ r. Unit {0}) (strip_empty_output_scripts bytes input_count)
unfolding strip_empty_output_scripts
stripping-Ends bytes input_count =
    >>=-Ends (λ r. Unit {0}) (λ r. Unit {0}) (take_bytes (length magic) bytes) _
      (any_value (length bytes) (take_bytes (length magic) bytes)
        (take_bytes-Ends (length magic) bytes))
      (λ start _. guarded (same start.0 magic) _ (
        >>=-Ends (λ r. Unit {0}) (λ r. Unit {0}) _ _
          (strip_maps-Ends (length start.1) (1 + input_count) 0 start.1 (omega arith))
          (λ rest _. tt)))

-- For any bytes and any number of inputs, stripping does not run out of fuel: it gives the stripped
-- bytes, or one of the code's own errors.
pub strip_empty_output_scripts-Ends :
    (bytes : Bytes) (input_count : ℕ) → strip_empty_output_scripts bytes input_count ≢ err no_fuel
strip_empty_output_scripts-Ends bytes input_count h =
    subst (Ends (λ (r : Bytes). Unit {0})) h (stripping-Ends bytes input_count) refl
