-- ===== src/Dleq.antt =====
-- src/dleq.rs: BIP-374 proofs that an ECDH share was made with the private key of its input.
use kiss_bdk.Common.{◌>>=◌, Bytes, codes, same, [], ◌∷◌, ◌++◌, take, drop, Result, guard, or_fail}
use kiss_bdk.Bitcoin.{Bitcoin}

pub data Error : Type 0 where
  challenge_out_of_range response_out_of_range left_the_curve : Error
  r1_at_infinity r2_at_infinity mismatch : Error

-- The generator in compressed form.
abbrev generator : Bytes
generator =
    0x02 ∷ 0x79 ∷ 0xbe ∷ 0x66 ∷ 0x7e ∷ 0xf9 ∷ 0xdc ∷ 0xbb ∷ 0xac ∷ 0x55 ∷ 0xa0 ∷ 0x62 ∷ 0x95 ∷ 0xce
    ∷ 0x87 ∷ 0x0b ∷ 0x07 ∷ 0x02 ∷ 0x9b ∷ 0xfc ∷ 0xdb ∷ 0x2d ∷ 0xce ∷ 0x28 ∷ 0xd9 ∷ 0x59 ∷ 0xf2
    ∷ 0x81 ∷ 0x5b ∷ 0x16 ∷ 0xf8 ∷ 0x17 ∷ 0x98 ∷ []

module _ (b : Bitcoin) where
  open b use {sha256, scalar_from_slice, negate, from_secret_key, mul_tweak, combine_keys}

  unfoldable pub tagged_hash : Bytes → Bytes → Bytes
  tagged_hash tag message = let t = sha256 tag in sha256 (t ++ t ++ message)

  multiply : Bytes → Bytes → Result Error Bytes
  multiply point scalar = or_fail (mul_tweak point scalar) left_the_curve

  challenge_hash : Bytes → Bytes → Bytes → Bytes → Bytes → Bytes
  unfolding tagged_hash
  challenge_hash a_pub scan share r1 r2 =
      tagged_hash (codes "BIP0374/challenge") (a_pub ++ scan ++ share ++ generator ++ r1 ++ r2)

  -- `share` is `a·scan` for the `a` behind `a_pub`.
  unfoldable pub verify : Bytes → Bytes → Bytes → Bytes → Result Error (Unit {0})
  unfolding multiply challenge_hash ◌>>=◌
  verify a_pub scan share proof = do
    challenge ← or_fail (scalar_from_slice (take 32 proof)) challenge_out_of_range
    response ← or_fail (scalar_from_slice (drop 32 proof)) response_out_of_range
    let negated = negate challenge
    ea ← multiply a_pub negated
    r1 ← or_fail (combine_keys (from_secret_key response ∷ ea ∷ [])) r1_at_infinity
    sb ← multiply scan response
    ec ← multiply share negated
    r2 ← or_fail (combine_keys (sb ∷ ec ∷ [])) r2_at_infinity
    guard (same (challenge_hash a_pub scan share r1 r2) (take 32 proof)) mismatch
