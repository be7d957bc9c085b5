-- ===== src/Examples/Toy.antt =====
-- A stand-in for the functions of rust-bitcoin, and the two-wallet payment of the examples.
use kiss_bdk.Psbt.{Input, Output, Global, Psbt, TxOut, Transaction}
use kiss_bdk.Bitcoin.{Bitcoin}
use kiss_bdk.Common.{some, none, true, false, [], ◌∷◌, ◌++◌, Bytes, replicate}

abbrev pub toy : Bitcoin
toy = record {
  key_from_slice = some;
  combine_keys = λ _. some (3 ∷ []);
  x_only = λ k. k;
  scalar_from_slice = some;
  negate = λ s. s;
  from_secret_key = λ s. s;
  mul_tweak = λ p s. some p;
  add_exp_tweak = λ p s. some p;
  scalar_from_be_bytes = some;
  sha256 = λ _. 7 ∷ [];
  p2wpkh_script = λ k. k;
  is_p2wpkh = λ _. false;
  is_p2tr = λ _. true;
  compute_txid = λ t. 5 ∷ [];
  determine_lock_time = λ f rs. some 0;
  p2wpkh_signature_hash = λ t i s v. some [];
  taproot_signature_hash = λ t i os k. some [];
  verify_ecdsa = λ h s k. true;
  verify_schnorr = λ h s k. true;
  p2wpkh_witness = λ s k. s.signature ∷ k ∷ [];
  p2tr_witness = λ s. s.signature ∷ [];
}

abbrev pub scan_key : Bytes
scan_key = replicate 33 2

abbrev pub spend_key : Bytes
spend_key = replicate 33 4

abbrev spent_output : TxOut
spent_output = record { value = 50000; script_pubkey = 0x51 ∷ 0x20 ∷ 9 ∷ [] }

-- The transaction that created the coins.
abbrev previous : Transaction
previous = record {
  version = 2;
  lock_time = 0;
  input = [];
  output = spent_output ∷ spent_output ∷ [];
}

abbrev pub coin : Input
coin = record {
  previous_txid = 5 ∷ [];
  spent_output_index = 0;
  sequence = some 1;
  min_time = none;
  min_height = none;
  non_witness_utxo = some previous;
  witness_utxo = some spent_output;
  partial_sigs = [];
  tap_key_sig = none;
  sighash_type = none;
  bip32_derivations = [];
  tap_internal_key = none;
  tap_key_origins = [];
  sp_ecdh_shares = [];
  sp_dleq_proofs = [];
  final_script_sig = none;
  final_script_witness = none;
  tap_script_sigs = [];
  tap_scripts = [];
  proprietaries = [];
  unknowns = [];
}

abbrev pub payment : Output
payment = record {
  amount = 40000;
  script_pubkey = [];
  sp_v0_info = some (scan_key ++ spend_key);
  sp_v0_label = none;
  bip32_derivations = [];
}

abbrev pub global : Global
global = record {
  tx_version = 2;
  fallback_lock_time = none;
  input_count = 1;
  output_count = 1;
  tx_modifiable_flags = 0;
  sp_ecdh_shares = [];
  sp_dleq_proofs = [];
  xpubs = [];
  proprietaries = [];
  unknowns = [];
}

-- A joined payment without shares, and the same with the share and the signature of its signer.
abbrev pub fixed : Psbt
fixed = record { global = global; inputs = coin ∷ []; outputs = payment ∷ [] }

abbrev pub answered_coin : Input
answered_coin = record coin {
  tap_key_sig = some (record { signature = 1 ∷ []; sighash_type = 0 });
  sp_ecdh_shares = (scan_key, 8 ∷ []) ∷ [];
  sp_dleq_proofs = (scan_key, 7 ∷ []) ∷ [];
}

abbrev pub answer : Psbt
answer = record fixed { inputs = answered_coin ∷ [] }

abbrev pub answered : Psbt
answered = record {
  global = global;
  inputs = answered_coin ∷ [];
  outputs = record payment { script_pubkey = 0x51 ∷ 0x20 ∷ spend_key } ∷ [];
}
