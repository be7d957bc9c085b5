-- ===== src/Sp/Address/Laws.antt =====
-- Distinct groups are distinct payloads, and distinct payloads are distinct keys.
use kiss_bdk.Shared.Message.{to_ascii_lowercase}
use kiss_bdk.Sp.{SilentPaymentAddress}
use kiss_bdk.Bitcoin.{Bitcoin}
use kiss_bdk.Sp.Address.{
  regroup, from_base32, shift_in, check_padding, network, versioned, Bitcoin, AddressText, decode,
  SilentPaymentAddress, to_ascii_lowercase,
}
use kiss_bdk.Common.{
  ℕ, zero, suc, refl, ◌≡◌, sym, ap, ◌∙◌, subst, inl, inr, ok, List, [], ◌∷◌, arith, ◌+◌, ◌<◌, ◌*◌,
  length, ◌^◌, ◌%◌, ◌/◌, Bool-cases, leb, ◌==◌, ◌-◌, ==_iff, >>=-eq-ok, ok-injective, Bool,
  >>-eq-ok, same, guard-eq-ok, some, codes, map, same-≡, or_fail-eq-ok, length-take, length-drop,
  take-drop,
}

-- A list of groups, and a list of bytes, as a number behind the digits of `p`.
abbrev pub value5 : ℕ → List ℕ → ℕ
value5 p [] = p
value5 p (x ∷ xs) = value5 (p * 32 + x) xs

abbrev pub value8 : ℕ → List ℕ → ℕ
value8 p [] = p
value8 p (x ∷ xs) = value8 (p * 256 + x) xs

-- What regrouping gives: the same number, but for `k` bits of padding.
abbrev pub IsRegrouped : ℕ → ℕ → ℕ → List ℕ → List ℕ → Type 0
IsRegrouped p pending bits groups bytes =
    (k : ℕ) × (k < 5)
    × (bits + 5 * length groups ≡ 8 * length bytes + k)
    × (value5 (p * 2 ^ bits + pending) groups ≡ value8 p bytes * 2 ^ k)

below_eight :
    (P : ℕ → Type 0) → P 0 → P 1 → P 2 → P 3 → P 4 → P 5 → P 6 → P 7 → (n : ℕ) → n < 8 → P n
below_eight P p0 p1 p2 p3 p4 p5 p6 p7 zero h = p0
below_eight P p0 p1 p2 p3 p4 p5 p6 p7 (suc zero) h = p1
below_eight P p0 p1 p2 p3 p4 p5 p6 p7 (suc (suc zero)) h = p2
below_eight P p0 p1 p2 p3 p4 p5 p6 p7 (suc (suc (suc zero))) h = p3
below_eight P p0 p1 p2 p3 p4 p5 p6 p7 (suc (suc (suc (suc zero)))) h = p4
below_eight P p0 p1 p2 p3 p4 p5 p6 p7 (suc (suc (suc (suc (suc zero))))) h = p5
below_eight P p0 p1 p2 p3 p4 p5 p6 p7 (suc (suc (suc (suc (suc (suc zero)))))) h = p6
below_eight P p0 p1 p2 p3 p4 p5 p6 p7 (suc (suc (suc (suc (suc (suc (suc zero))))))) h = p7
below_eight P p0 p1 p2 p3 p4 p5 p6 p7 (suc (suc (suc (suc (suc (suc (suc (suc n)))))))) h =
    absurd (omega arith)

-- One group, when it fills no byte: the number behind `p` grows by the group.
shift_pending :
    (p accumulator group bits : ℕ)
    → group < 32
    → bits < 8
    → (p * 2 ^ bits + accumulator % 2 ^ bits) * 32 + group
      ≡ p * 2 ^ (bits + 5) + shift_in accumulator group % 2 ^ (bits + 5)
shift_pending p accumulator group bits g h =
    below_eight
      (λ n.
        (p * 2 ^ n + accumulator % 2 ^ n) * 32 + group
        ≡ p * 2 ^ (n + 5) + shift_in accumulator group % 2 ^ (n + 5))
      (omega arith) (omega arith) (omega arith) (omega arith) (omega arith) (omega arith)
      (omega arith) (omega arith) bits h

-- A byte is taken from the top of the pending bits.
split_byte :
    (p shifted bits : ℕ)
    → bits < 8
    → p * 2 ^ (bits + 8) + shifted % 2 ^ (bits + 8)
      ≡ (p * 256 + (shifted / 2 ^ bits) % 256) * 2 ^ bits + shifted % 2 ^ bits
split_byte p shifted bits h =
    below_eight
      (λ n.
        p * 2 ^ (n + 8) + shifted % 2 ^ (n + 8)
        ≡ (p * 256 + (shifted / 2 ^ n) % 256) * 2 ^ n + shifted % 2 ^ n)
      (omega arith) (omega arith) (omega arith) (omega arith) (omega arith) (omega arith)
      (omega arith) (omega arith) bits h

abbrev pub AllGroups : List ℕ → Type 0
AllGroups [] = Unit {0}
AllGroups (group ∷ groups) = (group < 32) × AllGroups groups

check_padding-IsRegrouped :
    (p accumulator bits : ℕ) {bytes : List ℕ}
    → check_padding accumulator bits ≡ ok bytes
    → IsRegrouped p (accumulator % 2 ^ bits) bits [] bytes
check_padding-IsRegrouped p accumulator bits {bytes = bytes} h = elim (Bool-cases (leb 5 bits)) [
  | inl e ↦ let k = rw e at h in cc
  | inr e ↦ elim (Bool-cases (accumulator % 2 ^ bits == 0)) [
    | inl z ↦
        let few : bits < 5 = ground arith in
        let zeros : accumulator % 2 ^ bits ≡ 0 = (==_iff _ _).0 z in
        let k = rw (e, z) at h in
        subst (λ ys. IsRegrouped p (accumulator % 2 ^ bits) bits [] ys) (ok-injective k)
          (bits, few, omega arith, rw zeros (omega arith))
    | inr z ↦ let k = rw (e, z) at h in cc
  ]
]

regroup-IsRegrouped :
    (p accumulator bits : ℕ) (groups : List ℕ) {bytes : List ℕ}
    → bits < 8
    → AllGroups groups
    → regroup accumulator bits groups ≡ ok bytes
    → IsRegrouped p (accumulator % 2 ^ bits) bits groups bytes
unfolding regroup
regroup-IsRegrouped p accumulator bits [] b g h = check_padding-IsRegrouped p accumulator bits h
regroup-IsRegrouped p accumulator bits (x ∷ groups) {bytes = bytes} b (g, gs) h =
    let shifted = shift_in accumulator x in
    elim (Bool-cases (leb 8 (bits + 5))) [
      | inl e ↦
          let left : ℕ = bits + 5 - 8 in
          let many : bits + 5 ≡ left + 8 = ground arith in
          let k = rw e at h in
          let (rest, r, q) = >>=-eq-ok _ _ k in
          let byte : ℕ = (shifted / 2 ^ left) % 256 in
          let (pad, few, size, same_value) =
            regroup-IsRegrouped (p * 256 + byte) shifted left groups (omega arith) gs r in
          let start =
            shift_pending p accumulator x bits g b
            ∙ ap (λ n. p * 2 ^ n + shifted % 2 ^ n) many
            ∙ split_byte p shifted left (omega arith) in
          subst (λ ys. IsRegrouped p (accumulator % 2 ^ bits) bits (x ∷ groups) ys) (ok-injective q)
            (pad, few, omega arith, ap (λ n. value5 n groups) start ∙ same_value)
      | inr e ↦
          let k = rw e at h in
          let room : bits + 5 < 8 = ground arith in
          let (pad, few, size, same_value) =
            regroup-IsRegrouped p shifted (bits + 5) groups room gs k in
          (
            pad,
            few,
            omega arith,
            ap (λ n. value5 n groups) (shift_pending p accumulator x bits g b) ∙ same_value,
          )
    ]

digits_unique :
    (p q : ℕ) (xs ys : List ℕ)
    → AllGroups xs
    → AllGroups ys
    → length xs ≡ length ys
    → value5 p xs ≡ value5 q ys
    → (p ≡ q) × (xs ≡ ys)
digits_unique p q [] [] _ _ l e = (e, refl)
digits_unique p q [] (y ∷ ys) _ _ l e = absurd (omega arith)
digits_unique p q (x ∷ xs) [] _ _ l e = absurd (omega arith)
digits_unique p q (x ∷ xs) (y ∷ ys) (gx, gxs) (gy, gys) l e =
    let (heads, tails) = digits_unique (p * 32 + x) (q * 32 + y) xs ys gxs gys (omega arith) e in
    let first : x ≡ y = omega arith in (omega arith, cc)

-- For 5-bit groups: what `from_base32` accepts for two lists of groups is the same bytes only for the
-- same list; the padding is fixed by it.
from_base32-injective :
    (xs ys : List ℕ) (bytes : List ℕ)
    → AllGroups xs
    → AllGroups ys
    → from_base32 xs ≡ ok bytes
    → from_base32 ys ≡ ok bytes
    → xs ≡ ys
unfolding from_base32
from_base32-injective xs ys bytes gx gy h h' =
    let (k, few, size, e) = regroup-IsRegrouped 0 0 0 xs (omega arith) gx h in
    let (k', few', size', e') = regroup-IsRegrouped 0 0 0 ys (omega arith) gy h' in
    let same_size : length xs ≡ length ys = omega arith in
    let same_pad : k ≡ k' = omega arith in
    (digits_unique 0 0 xs ys gx gy same_size
      (e ∙ ap (λ n. value8 0 bytes * 2 ^ n) same_pad ∙ sym e')).1

network-injective :
    (hrp hrp' : List ℕ) (m : Bool) → network hrp ≡ ok m → network hrp' ≡ ok m → hrp ≡ hrp'
unfolding network
network-injective hrp hrp' m h h' = elim (Bool-cases (same hrp (codes "sp"))) [
  | inl e ↦ elim (Bool-cases (same hrp' (codes "sp"))) [
    | inl e' ↦ same-≡ hrp _ e ∙ sym (same-≡ hrp' _ e')
    | inr e' ↦ elim (Bool-cases (same hrp' (codes "tsp"))) [
      | inl t' ↦ let k = rw e at h in let k' = rw (e', t') at h' in cc
      | inr t' ↦ let k' = rw (e', t') at h' in cc
    ]
  ]
  | inr e ↦ elim (Bool-cases (same hrp (codes "tsp"))) [
    | inl t ↦ elim (Bool-cases (same hrp' (codes "sp"))) [
      | inl e' ↦ let k = rw (e, t) at h in let k' = rw e' at h' in cc
      | inr e' ↦ elim (Bool-cases (same hrp' (codes "tsp"))) [
        | inl t' ↦ same-≡ hrp _ t ∙ sym (same-≡ hrp' _ t')
        | inr t' ↦ let k' = rw (e', t') at h' in cc
      ]
    ]
    | inr t ↦ let k = rw (e, t) at h in cc
  ]
]

versioned-injective :
    (xs ys : List ℕ) (bytes : List ℕ)
    → AllGroups xs
    → AllGroups ys
    → versioned xs ≡ ok bytes
    → versioned ys ≡ ok bytes
    → xs ≡ ys
unfolding versioned
versioned-injective [] ys bytes gx gy h h' = cc
versioned-injective (x ∷ xs) [] bytes gx gy h h' = cc
versioned-injective (x ∷ xs) (y ∷ ys) bytes (_, gx) (_, gy) h h' =
    let (v, k) = >>-eq-ok _ _ h in
    let (v', k') = >>-eq-ok _ _ h' in
    let zero_x : x ≡ 0 = (==_iff x 0).0 (guard-eq-ok _ _ v) in
    let zero_y : y ≡ 0 = (==_iff y 0).0 (guard-eq-ok _ _ v') in
    let payloads = from_base32-injective xs ys bytes gx gy k k' in cc

module _ (b : Bitcoin) (text : AddressText) where
  -- A reader of keys accepts an encoding of 33 bytes for one key only.
  abbrev pub OneEncoding : Type 0
  OneEncoding =
      (x y : List ℕ) (key : List ℕ)
      → length x ≡ 33
      → length y ≡ 33
      → b.key_from_slice x ≡ some key
      → b.key_from_slice y ≡ some key
      → x ≡ y

  -- The groups of the reader have five bits.
  abbrev pub FiveBits : Type 0
  FiveBits =
      (x : List ℕ) (hrp groups : List ℕ) → text.bech32m x ≡ some (hrp, groups) → AllGroups groups

  -- What two texts of one address have in common: the data, and the network's prefix in lower case.
  abbrev pub SameData : List ℕ → List ℕ → Type 0
  SameData x y =
      (hrp : List ℕ) × (hrp' : List ℕ) × (groups : List ℕ) × (text.bech32m (text.trim x)
        ≡ some (hrp, groups))
      × (text.bech32m (text.trim y) ≡ some (hrp', groups))
      × (map to_ascii_lowercase hrp ≡ map to_ascii_lowercase hrp')

  -- When the bech32m reader gives groups of five bits, and the reader of keys accepts one 33-byte
  -- encoding for a key: two texts that decode to the same address have the same prefix, letter case
  -- aside, and the same groups, version and padding included.
  pub decode-injective :
      (x y : List ℕ) (address : SilentPaymentAddress)
      → FiveBits
      → OneEncoding
      → decode b text x ≡ ok address
      → decode b text y ≡ ok address
      → SameData x y
  unfolding decode
  decode-injective x y address five one h h' =
      let (checked, c, h₁) = >>=-eq-ok _ _ h in
      let (checked', c', h₁') = >>=-eq-ok _ _ h' in
      let (mainnet, n, h₂) = >>=-eq-ok _ _ h₁ in
      let (mainnet', n', h₂') = >>=-eq-ok _ _ h₁' in
      let (payload, p, h₃) = >>=-eq-ok _ _ h₂ in
      let (payload', p', h₃') = >>=-eq-ok _ _ h₂' in
      let (l, h₄) = >>-eq-ok _ _ h₃ in
      let (l', h₄') = >>-eq-ok _ _ h₃' in
      let (scan, s, h₅) = >>=-eq-ok _ _ h₄ in
      let (scan', s', h₅') = >>=-eq-ok _ _ h₄' in
      let (spend, t, e) = >>=-eq-ok _ _ h₅ in
      let (spend', t', e') = >>=-eq-ok _ _ h₅' in
      let same_address = ok-injective (e ∙ sym e') in
      let size : length payload ≡ 66 = (==_iff _ _).0 (guard-eq-ok _ _ l) in
      let size' : length payload' ≡ 66 = (==_iff _ _).0 (guard-eq-ok _ _ l') in
      let same_scan : scan ≡ scan' = ap (λ a. a.scan) same_address in
      let same_spend : spend ≡ spend' = ap (λ a. a.spend) same_address in
      let same_network : mainnet ≡ mainnet' = ap (λ a. a.mainnet) same_address in
      let first_keys =
        one _ _ scan (length-take 33 payload (omega arith)) (length-take 33 payload' (omega arith))
          (or_fail-eq-ok _ _ s) (or_fail-eq-ok _ _ s' ∙ ap some (sym same_scan)) in
      let last_keys =
        one _ _ spend (length-drop 33 payload ∙ omega arith) (length-drop 33 payload' ∙ omega arith)
          (or_fail-eq-ok _ _ t) (or_fail-eq-ok _ _ t' ∙ ap some (sym same_spend)) in
      let payloads = take-drop 33 payload payload' first_keys last_keys in
      let read = or_fail-eq-ok _ _ c in
      let read' = or_fail-eq-ok _ _ c' in
      let groups =
        versioned-injective checked.1 checked'.1 payload (five _ _ _ read) (five _ _ _ read') p
          (p' ∙ ap ok (sym payloads)) in
      (
        checked.0,
        checked'.0,
        checked.1,
        read,
        read' ∙ ap (λ g. some (checked'.0, g)) (sym groups),
        network-injective _ _ mainnet n (n' ∙ ap ok (sym same_network)),
      )
