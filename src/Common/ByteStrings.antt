-- ===== src/Common/ByteStrings.antt =====
-- Byte strings as lists of numbers, their order, big- and little-endian words, and sorting by a
-- byte string. Rust's `[u8]`, `Vec<u8>`, `String` (its UTF-8 bytes) and `Ord` on slices.
use Prim.Native.Nat.{ℕ, zero, suc, ◌/◌, ◌%◌, ◌^◌}
use mathlib.Core.Path.{◌≡◌}
use Prim.Native.Char.{code}
use Prim.Native.String.{String}
use mathlib.Core.List.{List, [], ◌∷◌}
use mathlib.Core.Bool.{Bool, true, false}
use native.Mathlib.Decide.{ℕ_discrete}
use kiss_bdk.Common.Tests.{ltb, ◌==◌, if◌then◌else◌, holds}

abbrev pub Bytes : Type 0
Bytes = List ℕ

unfoldable pub Bytes-discrete : Discrete Bytes
unfolding ℕ_discrete
Bytes-discrete = hlevel ℕ_discrete

abbrev pub same : Bytes → Bytes → Bool
same a b = holds (Bytes-discrete a b)

pub same-≡ : (x y : Bytes) → same x y ≡ true → x ≡ y
same-≡ x y = elim (Bytes-discrete x y) as (λ d. holds d ≡ true → x ≡ y) [
  | yes e ↦ λ h. e
  | no n ↦ λ h. cc
]

-- The bytes of an ASCII literal.
abbrev pub codes : String → Bytes
codes String.[] = []
codes (String.◌∷◌ c s) = code c ∷ codes s

-- `a < b` on slices.
abbrev pub bytes_lt : Bytes → Bytes → Bool
bytes_lt [] [] = false
bytes_lt [] (y ∷ ys) = true
bytes_lt (x ∷ xs) [] = false
bytes_lt (x ∷ xs) (y ∷ ys) = if ltb x y then true else (if x == y then bytes_lt xs ys else false)

-- The `w` low bytes of a word, least significant first.
abbrev pub le_bytes : ℕ → ℕ → Bytes
le_bytes zero n = []
le_bytes (suc w) n = n % 256 ∷ le_bytes w (n / 256)

abbrev pub be_bytes : ℕ → ℕ → Bytes
be_bytes zero n = []
be_bytes (suc w) n = (n / 256 ^ w) % 256 ∷ be_bytes w n

module _ {ℓ} {A : Type ℓ} (key : A → Bytes) where
  abbrev pub insert_by_key : A → List A → List A
  insert_by_key x [] = x ∷ []
  insert_by_key x (y ∷ ys) = if bytes_lt (key y) (key x) then y ∷ insert_by_key x ys else x ∷ y ∷ ys

  -- Stable: of two elements with one key the earlier stays first.
  abbrev pub sort_by_key : List A → List A
  sort_by_key [] = []
  sort_by_key (x ∷ xs) = insert_by_key x (sort_by_key xs)
