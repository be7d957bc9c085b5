-- ===== src/Psbt.antt =====
-- The data of rust-bitcoin and psbt-v2 that the coordinator reads and writes: transactions, PSBTv2
-- maps and the v0 PSBT that BDK builds. A public key, a script, a transaction id and a hash are
-- their bytes. A PSBT has the fields that the code in src/ reads, writes or clears; a map
-- (`BTreeMap`) is the list of its pairs in key order.
use kiss_bdk.Common.{ℕ, Bytes, Option, List, Bool, ℕ_discrete}

pub record OutPoint : Type 0 where
  pub txid : Bytes
  pub vout : ℕ

pub record TxOut : Type 0 where
  pub value : ℕ
  pub script_pubkey : Bytes

pub record TxIn : Type 0 where
  pub previous_output : OutPoint
  pub sequence : ℕ
  pub witness : List Bytes

pub record Transaction : Type 0 where
  pub version : ℕ
  pub lock_time : ℕ
  pub input : List TxIn
  pub output : List TxOut

-- A signature and its sighash type: 0 is `Default`, 1 is `All`.
pub record Signature : Type 0 where
  pub signature : Bytes
  pub sighash_type : ℕ

pub record PublicKey : Type 0 where
  pub compressed : Bool
  pub inner : Bytes

pub record KeySource : Type 0 where
  pub fingerprint : Bytes
  pub path : List ℕ

-- The key of a pair that no typed field holds.
pub record RawKey : Type 0 where
  pub type_value : ℕ
  pub key : Bytes

pub record Global : Type 0 where
  pub tx_version : ℕ
  pub fallback_lock_time : Option ℕ
  pub input_count : ℕ
  pub output_count : ℕ
  pub tx_modifiable_flags : ℕ
  pub sp_ecdh_shares : List (Bytes × Bytes)
  pub sp_dleq_proofs : List (Bytes × Bytes)
  pub xpubs : List (Bytes × Bytes)
  pub proprietaries : List (Bytes × Bytes)
  pub unknowns : List (Bytes × Bytes)

pub record Input : Type 0 where
  pub previous_txid : Bytes
  pub spent_output_index : ℕ
  pub sequence : Option ℕ
  pub min_time : Option ℕ
  pub min_height : Option ℕ
  pub non_witness_utxo : Option Transaction
  pub witness_utxo : Option TxOut
  pub partial_sigs : List (PublicKey × Signature)
  pub tap_key_sig : Option Signature
  pub sighash_type : Option ℕ
  pub bip32_derivations : List (PublicKey × KeySource)
  pub tap_internal_key : Option Bytes
  pub tap_key_origins : List (Bytes × KeySource)
  pub sp_ecdh_shares : List (Bytes × Bytes)
  pub sp_dleq_proofs : List (Bytes × Bytes)
  pub final_script_sig : Option Bytes
  pub final_script_witness : Option (List Bytes)
  pub tap_script_sigs : List (Bytes × Bytes)
  pub tap_scripts : List (Bytes × Bytes)
  pub proprietaries : List (Bytes × Bytes)
  pub unknowns : List (RawKey × Bytes)

pub record Output : Type 0 where
  pub amount : ℕ
  pub script_pubkey : Bytes
  pub sp_v0_info : Option Bytes
  pub sp_v0_label : Option ℕ
  pub bip32_derivations : List (PublicKey × KeySource)

pub record Psbt : Type 0 where
  pub global : Global
  pub inputs : List Input
  pub outputs : List Output

unfoldable pub OutPoint-discrete : Discrete OutPoint
unfolding ℕ_discrete
OutPoint-discrete = hlevel ℕ_discrete

unfoldable pub TxOut-discrete : Discrete TxOut
unfolding ℕ_discrete
TxOut-discrete = hlevel ℕ_discrete

unfoldable pub OptionNat-discrete : Discrete (Option ℕ)
unfolding ℕ_discrete
OptionNat-discrete = hlevel ℕ_discrete

unfoldable pub OptionBytes-discrete : Discrete (Option Bytes)
unfolding ℕ_discrete
OptionBytes-discrete = hlevel ℕ_discrete

unfoldable pub OutPoints-discrete : Discrete (List OutPoint)
unfolding ℕ_discrete
OutPoints-discrete = hlevel ℕ_discrete

unfoldable pub Psbt-discrete : Discrete Psbt
unfolding ℕ_discrete
Psbt-discrete = hlevel ℕ_discrete

-- A v0 PSBT, as BDK builds it: the transaction, and what is known of its inputs and outputs.
pub record V0Input : Type 0 where
  pub non_witness_utxo : Option Transaction
  pub witness_utxo : Option TxOut
  pub partial_sigs : List (PublicKey × Signature)
  pub tap_key_sig : Option Signature
  pub bip32_derivation : List (Bytes × KeySource)
  pub final_script_sig : Option Bytes
  pub final_script_witness : Option (List Bytes)
  pub unknown : List (RawKey × Bytes)

pub record V0Output : Type 0 where
  pub bip32_derivation : List (Bytes × KeySource)

pub record V0Psbt : Type 0 where
  pub unsigned_tx : Transaction
  pub inputs : List V0Input
  pub outputs : List V0Output
