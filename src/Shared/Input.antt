-- ===== src/Shared/Input.antt =====
-- src/shared.rs, "PSBT plumbing" and section 2 of the contract: which key an input stands for, and
-- what an input has to be before it is let into a shared send.
use kiss_bdk.Common.{
  ◌>>=◌, ◌>>◌, ℕ, Bytes, same, codes, Bool, true, false, ◌&&◌, Option, none, some, List, [], ◌∷◌,
  Result, ok, err, guard, refuse, or_fail, ◌==◌, if◌then◌else◌, holds, get_elem?, drop,
}
use kiss_bdk.Psbt.{OutPoint, TxOut, PublicKey, KeySource, Input, Output, Psbt, TxOut-discrete}
use kiss_bdk.Bitcoin.{Bitcoin}
use kiss_bdk.Shared.Error.{
  Error, no_witness_utxo, no_derivation, script_only_taproot, not_on_curve, unsupported_script,
  no_previous_transaction, previous_txid_mismatch, no_such_output, utxo_mismatch, bad_sighash_type,
  no_sequence, no_script,
}

abbrev pub outpoint : Input → OutPoint
outpoint input = record { txid = input.previous_txid; vout = input.spent_output_index }

unfoldable pub prevout : ℕ → Input → Result Error TxOut
prevout index input = or_fail input.witness_utxo (no_witness_utxo index)

abbrev pub unwrap_or {ℓ} : {A : Type ℓ} → Option A → A → A
unwrap_or none a = a
unwrap_or (some x) a = x

-- BIP-370 reads a missing lock time as zero, and a missing sequence as final.
abbrev pub fallback_lock_time : Psbt → ℕ
fallback_lock_time psbt = unwrap_or psbt.global.fallback_lock_time 0

abbrev pub sequence : Input → ℕ
sequence input = unwrap_or input.sequence 0xffffffff

-- The BIP-341 point that nobody knows a private key for.
abbrev nums_key : Bytes
nums_key =
    0x50 ∷ 0x92 ∷ 0x9b ∷ 0x74 ∷ 0xc1 ∷ 0xa0 ∷ 0x49 ∷ 0x54 ∷ 0xb7 ∷ 0x8b ∷ 0x4b ∷ 0x60 ∷ 0x35 ∷ 0xe9
    ∷ 0x7a ∷ 0x5e ∷ 0x07 ∷ 0x8a ∷ 0x5a ∷ 0x0f ∷ 0x28 ∷ 0xec ∷ 0x96 ∷ 0xd5 ∷ 0x47 ∷ 0xbf ∷ 0xee
    ∷ 0x9a ∷ 0xce ∷ 0x80 ∷ 0x3a ∷ 0xc0 ∷ []

abbrev is_nums : Option Bytes → Bool
is_nums none = false
is_nums (some key) = same key nums_key

-- Absent or SIGHASH_ALL.
unfoldable pub check_sighash_type : ℕ → Input → Result Error (Unit {0})
check_sighash_type index input = elim input.sighash_type [
  | none ↦ ok tt
  | some kind ↦ guard (kind == 1) (bad_sighash_type index)
]

module _ (b : Bitcoin) where
  open b use {key_from_slice, p2wpkh_script, is_p2wpkh, is_p2tr, compute_txid}

  -- Whether a derivation key is the one whose hash is the witness program.
  abbrev pays_key : Bytes → PublicKey → Bool
  pays_key script key = key.compressed && same (p2wpkh_script key.inner) script

  find_key : Bytes → List (PublicKey × KeySource) → Option (PublicKey × KeySource)
  find_key script [] = none
  find_key script ((key, origin) ∷ rest) =
      if pays_key script key then some (key, origin) else find_key script rest

  p2wpkh_key : ℕ → Input → Bytes → Result Error Bytes
  unfolding find_key
  p2wpkh_key index input script = do
    found ← or_fail (find_key script input.bip32_derivations) (no_derivation index)
    ok found.0.inner

  -- The output key in the script, taken with even Y.
  p2tr_key : ℕ → Input → Bytes → Result Error Bytes
  p2tr_key index input script = do
    refuse (is_nums input.tap_internal_key) (script_only_taproot index)
    or_fail (key_from_slice (0x02 ∷ drop 2 script)) (not_on_curve index)

  -- The public key that BIP-352 counts for this input.
  unfoldable pub input_key : ℕ → Input → Result Error Bytes
  unfolding prevout p2wpkh_key p2tr_key
  input_key index input = do
    utxo ← prevout index input
    let script = utxo.script_pubkey
    (if is_p2wpkh script
        then p2wpkh_key index input script
        else if is_p2tr script
        then p2tr_key index input script
        else err (unsupported_script index))

  -- The fingerprint in the input's key origin, for messages.
  unfoldable pub signer_of : Input → Bytes
  unfolding find_key
  signer_of input = elim named [
    | some found ↦ found.1.fingerprint
    | none ↦ elim input.tap_key_origins [
      | (key, origin) ∷ rest ↦ origin.fingerprint
      | [] ↦ codes "unknown"
    ]
  ]
    where
      named : Option (PublicKey × KeySource)
      named = elim input.witness_utxo [
        | none ↦ none
        | some utxo ↦ find_key utxo.script_pubkey input.bip32_derivations
      ]

  -- The previous transaction hashes to the outpoint, and created the witness UTXO there.
  unfoldable pub check_previous_transaction : ℕ → Input → Result Error (Unit {0})
  unfolding prevout
  check_previous_transaction index input = do
    utxo ← prevout index input
    previous ← or_fail input.non_witness_utxo (no_previous_transaction index)
    guard (same (compute_txid previous) input.previous_txid) (previous_txid_mismatch index)
    spent ← or_fail (get_elem? previous.output input.spent_output_index) (no_such_output index)
    guard (holds (TxOut-discrete spent utxo)) (utxo_mismatch index)

  unfoldable pub check_input : ℕ → Input → Result Error (Unit {0})
  check_input index input = do
    _ ← input_key index input
    check_previous_transaction index input
    check_sighash_type index input
    _ ← or_fail input.sequence (no_sequence index)
    ok tt

  -- A copy of somebody else's input with only what was checked.
  unfoldable pub adopt_input : ℕ → Input → Result Error Input
  adopt_input index input = do
    check_input index input
    ok (record input {
      partial_sigs = [];
      tap_key_sig = none;
      tap_key_origins = [];
      sp_ecdh_shares = [];
      sp_dleq_proofs = [];
      final_script_sig = none;
      final_script_witness = none;
      tap_script_sigs = [];
      tap_scripts = [];
      proprietaries = [];
      unknowns = [];
    })

-- A copy of somebody else's ordinary output: the amount and the script.
abbrev pub new_output : ℕ → Bytes → Output
new_output amount script = record {
  amount = amount;
  script_pubkey = script;
  sp_v0_info = none;
  sp_v0_label = none;
  bip32_derivations = [];
}

abbrev pub is_empty {ℓ} : {A : Type ℓ} → List A → Bool
is_empty [] = true
is_empty (x ∷ xs) = false

unfoldable pub adopt_output : ℕ → Output → Result Error Output
adopt_output index output = do
  refuse (is_empty output.script_pubkey) (no_script index)
  ok (new_output output.amount output.script_pubkey)
