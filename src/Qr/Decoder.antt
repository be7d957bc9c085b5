-- ===== src/Qr/Decoder.antt =====
-- src/qr.rs, `SignedPsbtDecoder` and `validate_fountain_part`: what one scanned code does. The CBOR
-- reader (minicbor), the fountain decoder (ur) and base64 are the operations of two records.
pub mod Laws
use kiss_bdk.Psbt.{OptionBytes-discrete}
use kiss_bdk.Shared.Input.{is_empty}
use kiss_bdk.Shared.Message.{to_ascii_lowercase}
use kiss_bdk.Qr.Cbor.{
  Error, max_psbt_bytes, parse_crypto_psbt_cbor, bad_part, too_many_frames, zero_in_part,
  not_five_items, bad_fragment, bad_ur, too_long, too_many_fragments, no_message, bad_base64,
  oversized_message, trailing, parse_raw_psbt, oversized_fragment, overflow, inconsistent_lengths,
}
use kiss_bdk.Common.{
  ℕ, zero, suc, refl, ◌≡◌, sym, ap, ◌∙◌, subst, inl, inr, some, none, Option, ok, err, Result, true,
  false, Bool, List, [], ◌∷◌, ◌++◌, map, arith, ◌>>=◌, ◌>>◌, Bytes, ◌+◌, ◌≤◌, ◌<◌, ◌⊎◌, ◌≢◌, refuse,
  or_fail, same, if◌then◌else◌, ◌/◌, ◌==◌, take, ◌&&◌, ltb, codes, ◌*◌, ◌||◌, guard, length, not,
  holds, ◌^◌, leb, ◌-◌,
}

abbrev pub max_static_base64_bytes : ℕ
max_static_base64_bytes = ((max_psbt_bytes + 2) / 3) * 4

abbrev pub max_ur_message_bytes : ℕ
max_ur_message_bytes = max_psbt_bytes + 3

abbrev pub max_ur_fragments : ℕ
max_ur_fragments = 128

abbrev pub max_ur_fragment_bytes : ℕ
max_ur_fragment_bytes = 256

abbrev pub max_ur_frames : ℕ
max_ur_frames = 512

-- `minicbor::Decoder`: each reads an item and leaves the bytes behind it.
pub record Minicbor : Type 0 where
  pub array : Bytes → Option (Option ℕ × Bytes)
  pub u32 : Bytes → Option (ℕ × Bytes)
  pub bytes : Bytes → Option (Bytes × Bytes)

pub data UrKind : Type 0 where
  single_part multi_part : UrKind

-- `str::trim`, base64, `ur::decode`, and `ur::Decoder`, whose `receive` says whether it succeeded.
pub record Ur : Type 1 where
  pub State : Type 0
  pub trim : Bytes → Bytes
  pub base64_decode : Bytes → Option Bytes
  pub decode : Bytes → Option (UrKind × Bytes)
  pub receive : State → Bytes → Bool × State
  pub resolved_fragment_count : State → ℕ
  pub complete : State → Bool
  pub message : State → Option Bytes

-- The checks on the numbers of a part: no zero, no size over the limits, and as many fragments of
-- this length as the message needs.
unfoldable pub check_part : ℕ → ℕ → ℕ → ℕ → Result Error (Unit {0})
check_part sequence sequence_count message_length fragment_length = do
  refuse (sequence == 0 || sequence_count == 0 || message_length == 0 || fragment_length == 0)
      zero_in_part
  refuse (ltb max_ur_fragments sequence_count) too_many_fragments
  refuse (ltb max_ur_message_bytes message_length) oversized_message
  refuse (ltb max_ur_fragment_bytes fragment_length) oversized_fragment
  let capacity = sequence_count * fragment_length
  guard (ltb capacity (2 ^ 64)) overflow
  refuse (ltb capacity message_length || leb message_length (capacity - fragment_length))
      inconsistent_lengths

unfoldable pub validate_fountain_part : Minicbor → Bytes → Result Error (Unit {0})
validate_fountain_part m cbor = do
  items ← or_fail (m.array cbor) bad_part
  guard (elim items.0 [ none ↦ false | some n ↦ n == 5 ]) not_five_items
  sequence ← or_fail (m.u32 items.1) bad_part
  sequence_count ← or_fail (m.u32 sequence.1) bad_part
  message_length ← or_fail (m.u32 sequence_count.1) bad_part
  checksum ← or_fail (m.u32 message_length.1) bad_part
  fragment ← or_fail (m.bytes checksum.1) bad_part
  guard (is_empty fragment.1) trailing
  check_part sequence.0 sequence_count.0 message_length.0 (length fragment.0)

pub record Decoder (u : Ur) : Type 0 where
  pub ur : u.State
  pub last_resolved : ℕ
  pub last_ur : Option Bytes
  pub ur_frames : ℕ

abbrev pub starts_with : Bytes → Bytes → Bool
starts_with prefix text = same (take (length prefix) text) prefix

-- The result of a call, and the decoder after it.
abbrev pub Step : Ur → Type 0
Step u = Result Error (Option Bytes) × Decoder u

-- The payload of a unpack code.
unfoldable pub unpack : Bytes → Result Error (Option Bytes)
unpack cbor = do raw ← parse_crypto_psbt_cbor cbor; ok (some raw)

module _ (m : Minicbor) (u : Ur) where
  -- A part that has been validated, into the fountain decoder.
  unfoldable pub receive_part : Decoder u → Bytes → Step u
  receive_part d normalized =
      let fed = u.receive d.ur normalized in
      let resolved = u.resolved_fragment_count fed.1 in
      let after = record d {
        ur = fed.1;
        last_resolved = if fed.0 && ltb d.last_resolved resolved then resolved else d.last_resolved;
      } in
      if not fed.0
      then (err bad_fragment, after)
      else if not (u.complete fed.1)
      then (ok none, after)
      else (or_fail (u.message fed.1) no_message >>= unpack, after)

  unfoldable pub receive_decoded : Decoder u → Bytes → UrKind × Bytes → Step u
  receive_decoded d normalized (single_part, decoded) = (unpack decoded, d)
  receive_decoded d normalized (multi_part, decoded) = elim (validate_fountain_part m decoded) [
    | ok _ ↦ receive_part d normalized
    | err e ↦ (err e, d)
  ]

  -- A frame that was not the last one, counted against the limit.
  unfoldable pub receive_frame : Decoder u → Bytes → Step u
  receive_frame d normalized =
      let counted = record d { last_ur = some normalized; ur_frames = d.ur_frames + 1 } in
      if ltb max_ur_frames (d.ur_frames + 1)
      then (err too_many_frames, counted)
      else elim (u.decode normalized) [
        | none ↦ (err bad_ur, counted)
        | some part ↦ receive_decoded counted normalized part
      ]

  unfoldable pub receive_static : Bytes → Result Error (Option Bytes)
  receive_static payload = do
    refuse (ltb max_static_base64_bytes (length payload)) too_long
    raw ← or_fail (u.base64_decode payload) bad_base64
    psbt ← parse_raw_psbt raw
    ok (some psbt)

  unfoldable pub receive : Decoder u → Bytes → Step u
  receive d text =
      let payload = u.trim text in
      let normalized = map to_ascii_lowercase payload in
      if starts_with (codes "cHNidP") payload
      then (receive_static payload, d)
      else if not (starts_with (codes "ur:") normalized)
      then (ok none, d)
      else if not (starts_with (codes "ur:crypto-psbt/") normalized)
      then (ok none, d)
      else if holds (OptionBytes-discrete d.last_ur (some normalized))
      then (ok none, d)
      else receive_frame d normalized
