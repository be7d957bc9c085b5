-- ===== src/Shared/Error.antt =====
-- The errors of src/shared.rs, one constructor for each `bail!` and `context`, with the position
-- of the input or output that the message names. A context that only says where an error came
-- from is not kept.
use kiss_bdk.Common.{ℕ}

pub data Error : Type 0 where
  -- messages
  not_a_message wrong_version bad_session bad_from : Error
  needs_psbt needs_to needs_sats needs_fee_rate needs_txid : Error
  -- inputs
  no_witness_utxo no_derivation script_only_taproot not_on_curve unsupported_script : ℕ → Error
  no_previous_transaction previous_txid_mismatch no_such_output utxo_mismatch : ℕ → Error
  bad_sighash_type no_sequence no_script : ℕ → Error
  -- shares
  recipient_length bad_scan_key bad_spend_key : ℕ → Error
  global_share : Error
  share_for_unknown_scan_key share_without_proof share_mismatch proof_without_share : ℕ → Error
  no_key_sum no_share_sum input_hash_failed output_script_failed missing_share : Error
  -- audit
  wrong_script script_before_shares script_while_modifiable : ℕ → Error
  -- signatures
  no_lock_time : Error
  output_without_script taproot_on_p2wpkh several_signatures wrong_key not_sighash_all : ℕ → Error
  ecdsa_on_taproot not_whole_transaction no_sighash bad_signature : ℕ → Error
  -- what may change
  version_changed lock_time_changed input_count_changed output_count_changed modifiable : Error
  outpoint_changed sequence_changed lock_requirement_changed : ℕ → Error
  amount_changed recipient_changed script_changed : ℕ → Error
  held_script_mismatch foreign_signature : ℕ → Error
  -- building
  too_little mainnet_address zero_fee_rate : Error
  half_pays_recipient half_pays_share half_outputs half_overspends not_a_psbt : Error
  not_a_proposal own_proposal bad_address not_open no_coins : Error
  proposal_recipient proposal_amount proposal_script : ℕ → Error
  pays_recipient_times : ℕ → Error
  coin_twice coin_dropped no_coins_added payment_changed change_removed : Error
  output_not_agreed : ℕ → Error
  -- fees
  input_overflow output_overflow overspent fee_too_low fee_too_high : Error
  -- finishing
  not_signed : ℕ → Error
  -- sessions
  bad_fingerprint coin_not_in_transaction not_joined already_broadcast not_my_turn : Error
  adds_nothing bad_txid other_txid broadcast_before_join txid_mismatch no_proposal : Error
  not_base64 not_serialized bad_coin signature_expected : Error
  index_out_of_range no_placeholder not_built : Error
