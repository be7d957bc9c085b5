-- ===== src/Qr/Decoder/Laws.antt =====
-- What a scanned code has to be.
use kiss_bdk.Psbt.{OptionBytes-discrete}
use kiss_bdk.Shared.Message.{to_ascii_lowercase}
use kiss_bdk.Qr.Decoder.{
  check_part, unpack, Minicbor, receive, receive_frame, receive_part, receive_decoded,
  receive_static, Ur, Decoder, Step, UrKind, single_part, multi_part, validate_fountain_part,
  to_ascii_lowercase, max_ur_frames, starts_with, OptionBytes-discrete,
}
use kiss_bdk.Qr.Cbor.{
  Error, psbt_magic, parse_raw_psbt, parse_crypto_psbt_cbor, bad_ur, too_many_frames,
}
use kiss_bdk.Common.{
  if◌then◌else◌, ℕ, ◌≡◌, subst, inl, inr, some, none, Option, ok, err, Result, true, false, Bool,
  map, arith, ◌>>◌, Bytes, ◌+◌, ◌≤◌, ◌<◌, length, take, ◌*◌, >>-eq-ok, guard-eq-ok, >>=-eq-ok,
  ok-injective, Bool-cases, same-≡, ltb, codes, not, holds,
}

-- When the numbers of a fountain part pass, none is zero, the fragments are at most 128 of at most 256
-- bytes, the message is at most 4099 bytes, and it fills all fragments but the last, and no more than
-- all of them.
pub check_part_bounds :
    (sequence count message fragment : ℕ)
    → check_part sequence count message fragment ≡ ok tt
    → (0 < sequence)
      × (0 < count)
      × (0 < message)
      × (0 < fragment)
      × (count ≤ 128)
      × (fragment ≤ 256)
      × (message ≤ 4099)
      × (message ≤ count * fragment)
      × (count * fragment < message + fragment)
unfolding check_part ◌>>◌
check_part_bounds sequence count message fragment h = ground arith

-- A PSBT of a size that the signer could have produced.
abbrev pub IsPayload : Option Bytes → Type 0
IsPayload none = Unit {0}
IsPayload (some raw) = (length raw ≤ 4096) × (take 5 raw ≡ psbt_magic)

parse_raw_psbt-IsPayload :
    (raw : Bytes) {psbt : Bytes} → parse_raw_psbt raw ≡ ok psbt → IsPayload (some psbt)
unfolding parse_raw_psbt
parse_raw_psbt-IsPayload raw h =
    let (g, h₁) = >>-eq-ok _ _ h in
    let (g', e) = >>-eq-ok _ _ h₁ in
    let small : length raw ≤ 4096 = ground (arith, guard-eq-ok _ _ g) in
    subst (λ p. IsPayload (some p)) (ok-injective e) (small, same-≡ _ _ (guard-eq-ok _ _ g'))

unpack-IsPayload : (cbor : Bytes) {psbt : Option Bytes} → unpack cbor ≡ ok psbt → IsPayload psbt
unfolding unpack parse_crypto_psbt_cbor
unpack-IsPayload cbor h =
    let (raw, p, e) = >>=-eq-ok _ _ h in
    let (inner, _, p') = >>=-eq-ok _ _ p in
    subst IsPayload (ok-injective e) (parse_raw_psbt-IsPayload inner p')

module _ (m : Minicbor) (u : Ur) where
  receive_static-IsPayload :
      (payload : Bytes) {psbt : Option Bytes}
      → receive_static m u payload ≡ ok psbt
      → IsPayload psbt
  unfolding receive_static
  receive_static-IsPayload payload h =
      let (_, h₁) = >>-eq-ok _ _ h in
      let (raw, _, h₂) = >>=-eq-ok _ _ h₁ in
      let (psbt, p, e) = >>=-eq-ok _ _ h₂ in
      subst IsPayload (ok-injective e) (parse_raw_psbt-IsPayload raw p)

  receive_part-IsPayload :
      (d : Decoder u) (normalized : Bytes) {psbt : Option Bytes}
      → (receive_part m u d normalized).0 ≡ ok psbt
      → IsPayload psbt
  unfolding receive_part
  receive_part-IsPayload d normalized h = elim (Bool-cases (u.receive d.ur normalized).0) [
    | inl e ↦ elim (Bool-cases (u.complete (u.receive d.ur normalized).1)) [
      | inl e2 ↦ let (cbor, _, f) = >>=-eq-ok _ _ (rw (e, e2) at h) in unpack-IsPayload cbor f
      | inr e2 ↦ subst IsPayload (ok-injective (rw (e, e2) at h)) tt
    ]
    | inr e ↦ let h' = rw e at h in cc
  ]

  receive_decoded-IsPayload :
      (d : Decoder u) (normalized : Bytes) (kind : UrKind) (decoded : Bytes) {psbt : Option Bytes}
      → (receive_decoded m u d normalized (kind, decoded)).0 ≡ ok psbt
      → IsPayload psbt
  unfolding receive_decoded
  receive_decoded-IsPayload d normalized single_part decoded h = unpack-IsPayload decoded h
  receive_decoded-IsPayload d normalized multi_part decoded {psbt = psbt} h =
      elim (validate_fountain_part m decoded)
          as (λ v.
            (elim v as (λ x. Step u) [
              | ok _ ↦ receive_part m u d normalized
              | err e ↦ (err e, d)
            ]).0
              ≡ ok psbt
            → IsPayload psbt) [
              | ok _ ↦ λ k. receive_part-IsPayload d normalized k
              | err e ↦ λ k. cc
            ]
        h

  branch-IsPayload :
      (t : Bool) (x y : Step u) {psbt : Option Bytes}
      → (x.0 ≡ ok psbt → IsPayload psbt)
      → (y.0 ≡ ok psbt → IsPayload psbt)
      → (if◌then◌else◌ {A = Step u} t x y).0 ≡ ok psbt
      → IsPayload psbt
  branch-IsPayload true x y f g h = f h
  branch-IsPayload false x y f g h = g h

  decoded-IsPayload :
      (d : Decoder u) (normalized : Bytes) (part : Option (UrKind × Bytes)) {psbt : Option Bytes}
      → (elim part as (λ x. Step u) [
        | none ↦ (err bad_ur, d)
        | some p ↦ receive_decoded m u d normalized p
      ]).0
        ≡ ok psbt
      → IsPayload psbt
  decoded-IsPayload d normalized none h = cc
  decoded-IsPayload d normalized (some (kind, decoded)) h =
      receive_decoded-IsPayload d normalized kind decoded h

  receive_frame-IsPayload :
      (d : Decoder u) (normalized : Bytes) {psbt : Option Bytes}
      → (receive_frame m u d normalized).0 ≡ ok psbt
      → IsPayload psbt
  unfolding receive_frame
  receive_frame-IsPayload d normalized h =
      branch-IsPayload (ltb max_ur_frames (d.ur_frames + 1)) (err too_many_frames, counted) _
        (λ k. cc) (decoded-IsPayload counted normalized (u.decode normalized)) h
    where
      counted : Decoder u
      counted = record d { last_ur = some normalized; ur_frames = d.ur_frames + 1 }

  -- Whatever a camera sees, in whatever state the decoder is: a PSBT that a scanned code completes is
  -- at most 4096 bytes long and starts with the magic bytes of a PSBT.
  pub receive-IsPayload :
      (d : Decoder u) (text : Bytes) (psbt : Option Bytes)
      → (receive m u d text).0 ≡ ok psbt
      → IsPayload psbt
  unfolding receive
  receive-IsPayload d text psbt h =
      branch-IsPayload (starts_with (codes "cHNidP") payload) (receive_static m u payload, d) _
        (receive_static-IsPayload payload)
        (branch-IsPayload (not (starts_with (codes "ur:") normalized)) (ok none, d) _ nothing
          (branch-IsPayload (not (starts_with (codes "ur:crypto-psbt/") normalized)) (ok none, d) _
            nothing
            (branch-IsPayload (holds (OptionBytes-discrete d.last_ur (some normalized)))
              (ok none, d) (receive_frame m u d normalized) nothing
              (receive_frame-IsPayload d normalized))))
        h
    where
      payload : Bytes
      payload = u.trim text

      normalized : Bytes
      normalized = map to_ascii_lowercase payload

      nothing :
          {r : Option Bytes} → ◌≡◌ {A = Result Error (Option Bytes)} (ok none) (ok r) → IsPayload r
      nothing k = subst IsPayload (ok-injective k) tt
