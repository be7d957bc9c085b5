-- ===== src/Sp/Address.antt =====
-- src/sp.rs: reading a BIP-352 address. The bech32m reader is a parameter: it gives the human-readable
-- part and the 5-bit groups of a string whose checksum holds.
pub mod Laws
use kiss_bdk.Sp.{SilentPaymentAddress}
use kiss_bdk.Bitcoin.{Bitcoin}
use kiss_bdk.Shared.Message.{to_ascii_lowercase}
use kiss_bdk.Common.{
  ℕ, zero, suc, refl, ◌≡◌, sym, ap, ◌∙◌, subst, inl, inr, some, none, Option, ok, err, Result, true,
  false, Bool, List, [], ◌∷◌, ◌++◌, map, arith, ◌>>=◌, ◌>>◌, Bytes, ◌+◌, ◌≤◌, ◌<◌, ◌⊎◌, ◌≢◌, ◌*◌,
  if◌then◌else◌, guard, same, ◌%◌, leb, codes, ◌==◌, take, ◌^◌, ◌-◌, ◌||◌, or_fail, ◌/◌, length,
  drop,
}

pub data Error : Type 0 where
  not_bech32m foreign_prefix no_data unsupported_version incomplete_group : Error
  nonzero_padding payload_length invalid_scan_key invalid_spend_key : Error

pub record AddressText : Type 0 where
  -- `str::trim`, and `CheckedHrpstring::new::<Bech32m>` with `hrp` and `fe32_iter`
  pub trim : Bytes → Bytes
  pub bech32m : Bytes → Option (Bytes × List ℕ)

-- What `accumulator` becomes: the shift drops the high bits of the `u32`, and a group has five bits.
abbrev pub shift_in : ℕ → ℕ → ℕ
shift_in accumulator group = (accumulator * 32) % 2 ^ 32 + group

-- What is left in the accumulator must be padding: fewer than five bits, all zero.
abbrev pub check_padding : ℕ → ℕ → Result Error Bytes
check_padding accumulator bits =
    if leb 5 bits
    then err incomplete_group
    else if accumulator % 2 ^ bits == 0
    then ok []
    else err nonzero_padding

-- The bits that stay pending once a full byte is taken.
abbrev pub left_over : ℕ → ℕ
left_over bits = if leb 8 bits then bits - 8 else bits

-- The loop, from an accumulator of which `bits` bits are not in a byte yet.
unfoldable pub regroup : ℕ → ℕ → List ℕ → Result Error Bytes
regroup accumulator bits [] = check_padding accumulator bits
regroup accumulator bits (group ∷ groups) =
    let shifted = shift_in accumulator group in
    let rest = regroup shifted (left_over (bits + 5)) groups in
    if leb 8 (bits + 5)
    then (rest >>= λ bytes. ok ((shifted / 2 ^ (bits + 5 - 8)) % 256 ∷ bytes))
    else rest

-- 5-bit values into bytes.
unfoldable pub from_base32 : List ℕ → Result Error Bytes
from_base32 groups = regroup 0 0 groups

-- `sp` or `tsp`, as whether it is mainnet.
unfoldable pub network : Bytes → Result Error Bool
network hrp =
    if same hrp (codes "sp")
    then ok true
    else if same hrp (codes "tsp")
    then ok false
    else err foreign_prefix

-- The version group and the payload behind it.
unfoldable pub versioned : List ℕ → Result Error Bytes
versioned [] = err no_data
versioned (version ∷ payload_groups) = do
  guard (version == 0) unsupported_version
  from_base32 payload_groups

unfoldable pub looks_like_silent_payment : AddressText → Bytes → Bool
looks_like_silent_payment text destination =
    let lower = map to_ascii_lowercase (text.trim destination) in
    same (take 3 lower) (codes "sp1") || same (take 4 lower) (codes "tsp1")

module _ (b : Bitcoin) (text : AddressText) where
  unfoldable pub decode : Bytes → Result Error SilentPaymentAddress
  decode address = do
    checked ← or_fail (text.bech32m (text.trim address)) not_bech32m
    mainnet ← network (map to_ascii_lowercase checked.0)
    payload ← versioned checked.1
    guard (length payload == 66) payload_length
    scan ← or_fail (b.key_from_slice (take 33 payload)) invalid_scan_key
    spend ← or_fail (b.key_from_slice (drop 33 payload)) invalid_spend_key
    ok (record { scan = scan; spend = spend; mainnet = mainnet })
