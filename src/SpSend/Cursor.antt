-- ===== src/SpSend/Cursor.antt =====
-- src/spsend.rs, `Cursor` and `copy_map`: walking the key-value maps of a serialized PSBT. A cursor
-- is the list of the bytes that it has not passed yet; `position + length` that overflows is past
-- the end as well, so both give `ended`.
use kiss_bdk.Common.{
  ℕ, zero, suc, ok, err, Result, Bool, [], ◌∷◌, ◌++◌, ◌>>=◌, Bytes, ◌+◌, if◌then◌else◌, ◌*◌, ◌&&◌,
  take, leb, ◌==◌, length, drop, same, ◌-◌,
}

pub data Error : Type 0 where
  ended no_magic no_fuel : Error

-- `take`: the next `len` bytes, and the cursor behind them.
unfoldable pub take_bytes : ℕ → Bytes → Result Error (Bytes × Bytes)
take_bytes len cursor =
    if leb len (length cursor) then ok (take len cursor, drop len cursor) else err ended

-- A little-endian word: `value |= byte << (8 * index)`.
abbrev pub le_value : Bytes → ℕ
le_value [] = 0
le_value (x ∷ xs) = x + 256 * le_value xs

abbrev pub width : ℕ → ℕ
width first =
    if first == 0xfd then 2 else if first == 0xfe then 4 else if first == 0xff then 8 else 0

unfoldable pub wide : ℕ → ℕ → Bytes → Result Error (ℕ × Bytes)
wide zero first cursor = ok (first, cursor)
wide (suc w) first cursor = do raw ← take_bytes (suc w) cursor; ok (le_value raw.0, raw.1)

unfoldable pub compact_size : Bytes → Result Error (ℕ × Bytes)
compact_size [] = err ended
compact_size (first ∷ cursor) = wide (width first) first cursor

-- PSBT_OUT_SCRIPT
abbrev pub out_script : Bytes
out_script = 0x04 ∷ []

abbrev pub dropped : Bool → Bytes → ℕ → Bool
dropped strip key value_len = strip && value_len == 0 && same key out_script

-- The bytes between two positions of one cursor.
abbrev pub passed : Bytes → Bytes → Bytes
passed before after = take (length before - length after) before

-- What copying one pair gives: the end of the map, or a pair and the cursor behind it.
pub data Copied : Type 0 where
  end : Bytes → Copied
  pair : Bytes → Bytes → Copied

-- One round of the loop in `copy_map`.
unfoldable pub copy_pair : Bool → Bytes → Result Error Copied
copy_pair strip start = do
  key_len ← compact_size start
  (if key_len.0 == 0 then ok (end key_len.1) else do
    key ← take_bytes key_len.0 key_len.1
    value_len ← compact_size key.1
    value ← take_bytes value_len.0 value_len.1
    ok (pair (if dropped strip key.0 value_len.0 then [] else passed start value.1) value.1))

-- `copy_map`: the bytes that it writes and the cursor behind the map. Each round passes a byte at
-- least, so as much fuel as there are bytes is enough.
unfoldable pub copy_map : ℕ → Bool → Bytes → Result Error (Bytes × Bytes)
copy_map zero strip cursor = err no_fuel
copy_map (suc fuel) strip cursor = do
  step ← copy_pair strip cursor
  elim step [
    | end after ↦ ok (0 ∷ [], after)
    | pair copied after ↦ do rest ← copy_map fuel strip after; ok (copied ++ rest.0, rest.1)
  ]
