-- ===== src/Sp/Derive.antt =====
-- The module `derive` of src/sp.rs: the input hash and the output script of BIP-352.
use kiss_bdk.Common.{
  ◌>>=◌, ℕ, Bytes, codes, le_bytes, be_bytes, sort_by_key, List, [], ◌∷◌, ◌++◌, map, Result, ok,
  err, or_fail,
}
use kiss_bdk.Psbt.{OutPoint}
use kiss_bdk.Bitcoin.{Bitcoin}
use kiss_bdk.Dleq.{tagged_hash}

pub data Error : Type 0 where
  no_inputs hash_out_of_range left_the_curve secret_out_of_range : Error

abbrev serialize_outpoint : OutPoint → Bytes
serialize_outpoint o = o.txid ++ le_bytes 4 o.vout

abbrev first : List Bytes → Result Error Bytes
first [] = err no_inputs
first (x ∷ xs) = ok x

module _ (b : Bitcoin) where
  open b use {scalar_from_slice, mul_tweak, add_exp_tweak, scalar_from_be_bytes, x_only}

  unfoldable pub input_hash : List OutPoint → Bytes → Result Error Bytes
  input_hash outpoints a_sum = do
    lowest ← first (sort_by_key (λ x. x) (map serialize_outpoint outpoints))
    ok (tagged_hash b (codes "BIP0352/Inputs") (lowest ++ a_sum))

  -- The P2TR script of recipient `k` of a scan key's group.
  unfoldable pub output_script : Bytes → Bytes → Bytes → ℕ → Result Error Bytes
  output_script share spend hash k = do
    scalar ← or_fail (scalar_from_slice hash) hash_out_of_range
    adjusted ← or_fail (mul_tweak share scalar) left_the_curve
    tweak ←
        or_fail
          (scalar_from_be_bytes
            (tagged_hash b (codes "BIP0352/SharedSecret") (adjusted ++ be_bytes 4 k)))
          secret_out_of_range
    output ← or_fail (add_exp_tweak spend tweak) left_the_curve
    ok (0x51 ∷ 0x20 ∷ x_only output)
