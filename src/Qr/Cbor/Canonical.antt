-- ===== src/Qr/Cbor/Canonical.antt =====
-- What `unwrap_cbor_byte_string` accepts is what `cbor_byte_string` writes.
use kiss_bdk.Qr.Cbor.Laws.{unwrap_cbor_byte_string-cbor_byte_string}
use kiss_bdk.Qr.Cbor.{
  cbor_header, short_length, be_value_from, wide_length, header_lengths, unwrap_cbor_byte_string,
  cbor_byte_string,
}
use kiss_bdk.Common.{
  refl, inl, inr, ◌↔◌, ℕ, ◌≡◌, sym, ap, ◌∙◌, subst, ok, true, false, [], ◌∷◌, ◌++◌, arith, ◌>>=◌,
  Bytes, ◌+◌, ◌≤◌, ◌<◌, All, drop, leb, >>-eq-ok, be_bytes, refuse-eq-ok, ltb, length, ◌/◌,
  ok-injective, ◌^◌, ◌%◌, >>=-eq-ok, Bool-cases, guard-eq-ok, ◌==◌, length-drop,
}

-- The bytes of a byte string.
abbrev pub AllBytes : Bytes → Type 0
AllBytes xs = All (λ x. x < 256) xs

-- The header in front of `cbor` is the one that its length asks for.
abbrev Canonical : ℕ × ℕ → Bytes → Type 0
Canonical lengths cbor = cbor ≡ cbor_header lengths.1 ++ drop lengths.0 cbor

two_bytes_back :
    (x y : ℕ) → x < 256 → y < 256 → be_bytes 2 (be_value_from 0 (x ∷ y ∷ [])) ≡ x ∷ y ∷ []
two_bytes_back x y hx hy =
    let p : (be_value_from 0 (x ∷ y ∷ []) / 256 ^ 1) % 256 ≡ x = omega arith in
    let q : (be_value_from 0 (x ∷ y ∷ []) / 256 ^ 0) % 256 ≡ y = omega arith in cc

four_bytes_back :
    (x y z t : ℕ)
    → x < 256
    → y < 256
    → z < 256
    → t < 256
    → be_bytes 4 (be_value_from 0 (x ∷ y ∷ z ∷ t ∷ [])) ≡ x ∷ y ∷ z ∷ t ∷ []
four_bytes_back x y z t hx hy hz ht =
    let p : (be_value_from 0 (x ∷ y ∷ z ∷ t ∷ []) / 256 ^ 3) % 256 ≡ x = omega arith in
    let q : (be_value_from 0 (x ∷ y ∷ z ∷ t ∷ []) / 256 ^ 2) % 256 ≡ y = omega arith in
    let r : (be_value_from 0 (x ∷ y ∷ z ∷ t ∷ []) / 256 ^ 1) % 256 ≡ z = omega arith in
    let s : (be_value_from 0 (x ∷ y ∷ z ∷ t ∷ []) / 256 ^ 0) % 256 ≡ t = omega arith in cc

-- Which header a length asks for.
direct_header : (n : ℕ) → n ≤ 23 → cbor_header n ≡ (0x40 + n) ∷ []
unfolding cbor_header
direct_header n h = let e : leb n 23 ≡ true = ground arith in rw e

short_header : (n : ℕ) → 23 < n → n < 256 → cbor_header n ≡ 0x58 ∷ n ∷ []
unfolding cbor_header
short_header n h h' =
    let e : leb n 23 ≡ false = ground arith in
    let e2 : leb n 255 ≡ true = ground arith in rw (e, e2)

two_header : (n : ℕ) → 255 < n → n < 65536 → cbor_header n ≡ 0x59 ∷ be_bytes 2 n
unfolding cbor_header
two_header n h h' =
    let e : leb n 23 ≡ false = ground arith in
    let e2 : leb n 255 ≡ false = ground arith in
    let e3 : leb n 65535 ≡ true = ground arith in rw (e, e2, e3)

four_header : (n : ℕ) → 65535 < n → cbor_header n ≡ 0x5a ∷ be_bytes 4 n
unfolding cbor_header
four_header n h =
    let e : leb n 23 ≡ false = ground arith in
    let e2 : leb n 255 ≡ false = ground arith in
    let e3 : leb n 65535 ≡ false = ground arith in rw (e, e2, e3)

short_back :
    (rest : Bytes) {lengths : ℕ × ℕ}
    → AllBytes rest
    → short_length (0x58 ∷ rest) ≡ ok lengths
    → Canonical lengths (0x58 ∷ rest)
unfolding short_length ◌>>=◌
short_back [] a h = cc
short_back (v ∷ rest) (small, a) h =
    let (g, e) = >>-eq-ok _ _ h in
    let big : 23 < v = ground (arith, refuse-eq-ok (ltb v 24) _ g) in
    subst (λ l. Canonical l (0x58 ∷ v ∷ rest)) (ok-injective e)
      (ap (λ l. l ++ rest) (sym (short_header v big small)))

two_back :
    (rest : Bytes) {lengths : ℕ × ℕ}
    → AllBytes rest
    → wide_length 2 255 (0x59 ∷ rest) ≡ ok lengths
    → Canonical lengths (0x59 ∷ rest)
unfolding wide_length ◌>>=◌
two_back [] a h = cc
two_back (x ∷ []) a h = cc
two_back (x ∷ y ∷ rest) (hx, (hy, a)) h =
    let fits : leb 3 (length (0x59 ∷ x ∷ y ∷ rest)) ≡ true = ground arith in
    let h' = rw fits at h in
    let (g, e) = >>-eq-ok _ _ h' in
    let big : 255 < be_value_from 0 (x ∷ y ∷ []) = ground (arith, refuse-eq-ok _ _ g) in
    subst (λ l. Canonical l (0x59 ∷ x ∷ y ∷ rest)) (ok-injective e)
      (ap (λ l. l ++ rest)
        (sym (two_header _ big (omega arith) ∙ ap (λ l. 0x59 ∷ l) (two_bytes_back x y hx hy))))

four_back :
    (rest : Bytes) {lengths : ℕ × ℕ}
    → AllBytes rest
    → wide_length 4 65535 (0x5a ∷ rest) ≡ ok lengths
    → Canonical lengths (0x5a ∷ rest)
unfolding wide_length ◌>>=◌
four_back [] a h = cc
four_back (x ∷ []) a h = cc
four_back (x ∷ y ∷ []) a h = cc
four_back (x ∷ y ∷ z ∷ []) a h = cc
four_back (x ∷ y ∷ z ∷ t ∷ rest) (hx, (hy, (hz, (ht, a)))) h =
    let fits : leb 5 (length (0x5a ∷ x ∷ y ∷ z ∷ t ∷ rest)) ≡ true = ground arith in
    let h' = rw fits at h in
    let (g, e) = >>-eq-ok _ _ h' in
    let big : 65535 < be_value_from 0 (x ∷ y ∷ z ∷ t ∷ []) = ground (arith, refuse-eq-ok _ _ g) in
    subst (λ l. Canonical l (0x5a ∷ x ∷ y ∷ z ∷ t ∷ rest)) (ok-injective e)
      (ap (λ l. l ++ rest)
        (sym (four_header _ big ∙ ap (λ l. 0x5a ∷ l) (four_bytes_back x y z t hx hy hz ht))))

wide_length-above :
    (n limit : ℕ) (cbor : Bytes) {lengths : ℕ × ℕ}
    → wide_length n limit cbor ≡ ok lengths
    → limit < lengths.1
unfolding wide_length
wide_length-above n limit cbor h =
    let (raw, _, h₁) = >>=-eq-ok _ _ h in
    let (g, e) = >>-eq-ok _ _ h₁ in
    let big : limit < be_value_from 0 raw = ground (arith, refuse-eq-ok _ _ g) in
    subst (λ l. limit < l.1) (ok-injective e) big

lengths_back :
    (first : ℕ) (rest : Bytes) {lengths : ℕ × ℕ}
    → first / 32 ≡ 2
    → AllBytes rest
    → lengths.1 < 2 ^ 32
    → header_lengths (first % 32) (first ∷ rest) ≡ ok lengths
    → Canonical lengths (first ∷ rest)
unfolding header_lengths
lengths_back first rest {lengths = lengths} major a fits h =
    elim (Bool-cases (leb (first % 32) 23)) [
      | inl e ↦
          let small : first % 32 ≤ 23 = ground arith in
          let whole : 0x40 + first % 32 ≡ first = omega arith in
          let h' = rw e at h in
          subst (λ l. Canonical l (first ∷ rest)) (ok-injective h')
            (ap (λ l. l ++ rest) (sym (direct_header (first % 32) small ∙ ap (λ x. x ∷ []) whole)))
      | inr e ↦ elim (Bool-cases (first % 32 == 24)) [
        | inl e2 ↦
            let whole : 0x58 ≡ first = ground arith in
            let h' = rw (e, e2) at h in
            subst (λ x. short_length (x ∷ rest) ≡ ok lengths → Canonical lengths (x ∷ rest)) whole
              (short_back rest a) h'
        | inr e2 ↦ elim (Bool-cases (first % 32 == 25)) [
          | inl e3 ↦
              let whole : 0x59 ≡ first = ground arith in
              let h' = rw (e, e2, e3) at h in
              subst (λ x. wide_length 2 255 (x ∷ rest) ≡ ok lengths → Canonical lengths (x ∷ rest))
                whole (two_back rest a) h'
          | inr e3 ↦ elim (Bool-cases (first % 32 == 26)) [
            | inl e4 ↦
                let whole : 0x5a ≡ first = ground arith in
                let h' = rw (e, e2, e3, e4) at h in
                subst
                  (λ x. wide_length 4 65535 (x ∷ rest) ≡ ok lengths → Canonical lengths (x ∷ rest))
                  whole (four_back rest a) h'
            | inr e4 ↦ elim (Bool-cases (first % 32 == 27)) [
              | inl e5 ↦
                  let h' = rw (e, e2, e3, e4, e5) at h in
                  let above = wide_length-above 8 4294967295 (first ∷ rest) h' in
                  absurd (omega arith)
              | inr e5 ↦ elim (Bool-cases (first % 32 == 31)) [
                | inl e6 ↦ let h' = rw (e, e2, e3, e4, e5, e6) at h in cc
                | inr e6 ↦ let h' = rw (e, e2, e3, e4, e5, e6) at h in cc
              ]
            ]
          ]
        ]
      ]
    ]

unwrapped-canonical :
    (cbor bytes : Bytes)
    → AllBytes cbor
    → length bytes < 2 ^ 32
    → unwrap_cbor_byte_string cbor ≡ ok bytes
    → cbor ≡ cbor_byte_string bytes
unfolding unwrap_cbor_byte_string cbor_byte_string
unwrapped-canonical [] bytes a fits h = let (_, q, _) = >>=-eq-ok _ _ h in cc
unwrapped-canonical (first ∷ rest) bytes (_, a) fits h =
    let (f, q, h₀) = >>=-eq-ok _ _ h in
    let (m, h₁) = >>-eq-ok _ _ h₀ in
    let (lengths, l, h₂) = >>=-eq-ok _ _ h₁ in
    let (_, h₃) = >>-eq-ok _ _ h₂ in
    let (n, e) = >>-eq-ok _ _ h₃ in
    let same_first : first ≡ f = ok-injective q in
    let two : f / 32 ≡ 2 = ground (arith, guard-eq-ok _ _ m) in
    let major : first / 32 ≡ 2 = subst (λ x. x / 32 ≡ 2) (sym same_first) two in
    let whole : lengths.0 + lengths.1 ≡ length (first ∷ rest) = ground (arith, guard-eq-ok _ _ n) in
    let payload : drop lengths.0 (first ∷ rest) ≡ bytes = ok-injective e in
    let size : lengths.1 ≡ length bytes =
      omega (arith, whole, length-drop lengths.0 (first ∷ rest), ap length payload) in
    lengths_back first rest major a (omega arith)
      (subst (λ x. header_lengths (x % 32) (first ∷ rest) ≡ ok lengths) (sym same_first) l)
    ∙ rw (payload, size) refl

-- For byte strings, and payloads of less than 2^32 bytes: `unwrap_cbor_byte_string` returns a payload
-- exactly when it is given what `cbor_byte_string` writes for it, so it undoes it, and it accepts no
-- other header, no truncation and no trailing data.
pub unwrap_cbor_byte_string_iff :
    (cbor bytes : Bytes)
    → AllBytes cbor
    → length bytes < 2 ^ 32
    → (unwrap_cbor_byte_string cbor ≡ ok bytes) ↔ (cbor ≡ cbor_byte_string bytes)
unwrap_cbor_byte_string_iff cbor bytes a fits = (
  unwrapped-canonical cbor bytes a fits,
  λ e. ap unwrap_cbor_byte_string e ∙ unwrap_cbor_byte_string-cbor_byte_string bytes fits,
)
