-- ===== src/Bitcoin.antt =====
-- What the coordinator calls in rust-bitcoin, secp256k1 and psbt-v2, as the operations of a record
-- that the modules below take as a parameter. Each is the documented function of that name; a key,
-- a point, a scalar and a script are their bytes, and a call that can fail returns an option.
use kiss_bdk.Common.{ℕ, Bytes, Option, List, Bool}
use kiss_bdk.Psbt.{TxOut, Transaction, Signature}

pub record Bitcoin : Type 0 where
  -- `PublicKey::from_slice`, `PublicKey::combine_keys`, and the two halves of `x_only_public_key`
  pub key_from_slice : Bytes → Option Bytes
  pub combine_keys : List Bytes → Option Bytes
  pub x_only : Bytes → Bytes
  -- `SecretKey::from_slice`, `negate`, `PublicKey::from_secret_key`, `mul_tweak`, `add_exp_tweak`
  pub scalar_from_slice : Bytes → Option Bytes
  pub negate : Bytes → Bytes
  pub from_secret_key : Bytes → Bytes
  pub mul_tweak : Bytes → Bytes → Option Bytes
  pub add_exp_tweak : Bytes → Bytes → Option Bytes
  pub scalar_from_be_bytes : Bytes → Option Bytes
  pub sha256 : Bytes → Bytes
  -- `ScriptBuf::new_p2wpkh(&key.wpubkey_hash())`, `is_p2wpkh`, `is_p2tr`
  pub p2wpkh_script : Bytes → Bytes
  pub is_p2wpkh : Bytes → Bool
  pub is_p2tr : Bytes → Bool
  -- `compute_txid`; `determine_lock_time`, of the fallback lock time and of each input's required
  -- time and height, which is all that BIP-370 lets it depend on
  pub compute_txid : Transaction → Bytes
  pub determine_lock_time : Option ℕ → List (Option ℕ × Option ℕ) → Option ℕ
  -- `SighashCache` and the two signature checks: message, signature, key
  pub p2wpkh_signature_hash : Transaction → ℕ → Bytes → ℕ → Option Bytes
  pub taproot_signature_hash : Transaction → ℕ → List TxOut → ℕ → Option Bytes
  pub verify_ecdsa : Bytes → Bytes → Bytes → Bool
  pub verify_schnorr : Bytes → Bytes → Bytes → Bool
  -- `Witness::p2wpkh`, `Witness::p2tr_key_spend`
  pub p2wpkh_witness : Signature → Bytes → List Bytes
  pub p2tr_witness : Signature → List Bytes
