-- ===== src/SpSend/Strip.antt =====
-- src/spsend.rs, `strip_empty_output_scripts`: what every PSBTv2 that leaves here goes through.
pub mod Fuel
pub mod Format
pub mod Laws
use kiss_bdk.SpSend.Cursor.{Error, no_fuel, take_bytes, copy_map, no_magic}
use kiss_bdk.Common.{
  ℕ, zero, suc, refl, ◌≡◌, sym, ap, ◌∙◌, subst, inl, inr, some, none, Option, ok, err, Result, true,
  false, Bool, List, [], ◌∷◌, ◌++◌, map, arith, ◌>>=◌, ◌>>◌, Bytes, ◌+◌, ◌≤◌, ◌<◌, ◌⊎◌, ◌≢◌, length,
  leb, guard, same,
}

abbrev pub magic : Bytes
magic = 0x70 ∷ 0x73 ∷ 0x62 ∷ 0x74 ∷ 0xff ∷ []

-- The loop over the maps: global, one per input, then the outputs, whose maps are stripped.
unfoldable pub strip_maps : ℕ → ℕ → ℕ → Bytes → Result Error Bytes
strip_maps fuel first_output map_index [] = ok []
strip_maps zero first_output map_index (x ∷ cursor) = err no_fuel
strip_maps (suc fuel) first_output map_index (x ∷ cursor) = do
  one ← copy_map (suc (length cursor)) (leb first_output map_index) (x ∷ cursor)
  rest ← strip_maps fuel first_output (suc map_index) one.1
  ok (one.0 ++ rest)

unfoldable pub strip_empty_output_scripts : Bytes → ℕ → Result Error Bytes
strip_empty_output_scripts bytes input_count = do
  start ← take_bytes (length magic) bytes
  guard (same start.0 magic) no_magic
  rest ← strip_maps (length start.1) (1 + input_count) 0 start.1
  ok (magic ++ rest)
