-- ===== src/Examples/Verifying.antt =====
-- A signer's answer that passes, and an address that is read.
use kiss_bdk.Dleq
use kiss_bdk.Dleq.{tagged_hash}
use kiss_bdk.Sp.Derive.{input_hash, output_script}
use kiss_bdk.Psbt.{OutPoints-discrete, OptionNat-discrete, OptionBytes-discrete, Psbt}
use kiss_bdk.Sp.{SilentPaymentAddress}
use kiss_bdk.Sp.Address
use kiss_bdk.Sp.Address.{AddressText}
use kiss_bdk.Sp.Address.Laws.{decode-injective, SameData, FiveBits, OneEncoding, AllGroups}
use kiss_bdk.SpVerify
use kiss_bdk.SpVerify.{VerifiedOutput}
use kiss_bdk.SpVerify.Laws.{IsVerified, verify-IsVerified}
use kiss_bdk.Examples.Toy.{toy, coin, payment, global, fixed, scan_key, spend_key}
use kiss_bdk.Common.{
  ◌>>◌, ◌>>=◌, Bytes-discrete, ℕ, zero, suc, Bytes, refl, ◌≡◌, some, true, false, ok, List, [], ◌∷◌,
  codes, replicate, arith, subst,
}

abbrev asked : Psbt
asked = record fixed {
  inputs =
      record coin {
        bip32_derivations =
            (record { compressed = true; inner = 3 ∷ [] }, record { fingerprint = []; path = [] })
            ∷ [];
      }
      ∷ [];
}

abbrev returned : Psbt
returned = record {
  global = record global {
    sp_ecdh_shares = (scan_key, 8 ∷ []) ∷ [];
    sp_dleq_proofs = (scan_key, 7 ∷ []) ∷ [];
  };
  inputs = asked.inputs;
  outputs = record payment { script_pubkey = 0x51 ∷ 0x20 ∷ spend_key } ∷ [];
}

abbrev one_output : List VerifiedOutput
one_output = record { index = 0; scan = scan_key } ∷ []

answer_passes : SpVerify.verify toy asked returned ≡ ok one_output
unfolding SpVerify.verify ◌>>◌ ◌>>=◌ SpVerify.same_transaction OutPoints-discrete OptionNat-discrete
    SpVerify.same_inputs SpVerify.same_outputs OptionBytes-discrete SpVerify.input_key_sum
    SpVerify.exposed_keys SpVerify.exposed_key SpVerify.taproot_output_key input_hash
    SpVerify.verify_outputs SpVerify.verify_output Bytes-discrete tagged_hash Dleq.verify
    output_script
answer_passes = refl

verify-IsVerified_example : IsVerified toy asked returned one_output
verify-IsVerified_example = verify-IsVerified toy asked returned one_output answer_passes

-- Every text is read as the version 0 and 66 zero bytes.
abbrev pub zero_text : AddressText
zero_text = record { trim = λ text. text; bech32m = λ text. some (codes "tsp", replicate 107 0) }

abbrev pub zero_address : SilentPaymentAddress
zero_address = record { scan = replicate 33 0; spend = replicate 33 0; mainnet = false }

text_read : (text : Bytes) → Address.decode toy zero_text text ≡ ok zero_address
unfolding Address.decode ◌>>=◌ ◌>>◌ Address.network Bytes-discrete Address.versioned
    Address.from_base32 Address.regroup
text_read text = refl

zero_groups : (n : ℕ) → AllGroups (replicate n 0)
zero_groups zero = tt
zero_groups (suc n) = (omega arith, zero_groups n)

zero_text-FiveBits : FiveBits toy zero_text
zero_text-FiveBits x hrp groups h =
    let same_groups : replicate 107 0 ≡ groups = cc in subst AllGroups same_groups (zero_groups 107)

toy-OneEncoding : OneEncoding toy zero_text
toy-OneEncoding x y key _ _ h h' = cc

decode-injective_example : SameData toy zero_text (codes "tsp1q") (codes "TSP1Q")
decode-injective_example =
    decode-injective toy zero_text (codes "tsp1q") (codes "TSP1Q") zero_address zero_text-FiveBits
      toy-OneEncoding (text_read (codes "tsp1q")) (text_read (codes "TSP1Q"))
