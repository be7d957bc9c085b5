-- ===== src/Examples/Joining.antt =====
-- A second wallet joins the payment of the examples, and the joined payment is finished.
use kiss_bdk.Dleq
use kiss_bdk.Dleq.{tagged_hash}
use kiss_bdk.Sp.Derive.{input_hash, output_script}
use kiss_bdk.Shared.Signatures.{
  all_prevouts, checked_p2wpkh, checked_taproot, p2wpkh_verifies, signature_verifies,
  taproot_verifies, transaction_inputs, transaction_outputs, unsigned_transaction,
}
use kiss_bdk.Shared.Shares.{
  all_inputs, check_input_shares, check_inputs, check_shares, complete_for, missing, missing_for,
  missing_keys, recipient, recipients, recipients_from, scan_keys_from,
}
use kiss_bdk.Shared.Session.{state}
use kiss_bdk.Sp.{sp_v0_info}
use kiss_bdk.Shared.Scripts.{
  script_at, audit, audit_recipients, audit_script, check_sighash_types, complete_scans,
  derive_complete, derive_scripts, group_scripts, input_keys, scan_group, scan_scripts, share_parts,
}
use kiss_bdk.Shared.Terms.{no_coin_twice, no_coin_twice_from}
use kiss_bdk.Shared.Wire.{decode, read_psbt}
use kiss_bdk.SpSend.Cursor.{compact_size, take_bytes, wide}
use kiss_bdk.Shared.Fee.{
  check_fee, estimated_weight, fee, input_weight, output_weight, paid_from, spent_from,
}
use kiss_bdk.Shared.Input.{
  outpoint, adopt_input, adopt_output, check_input, check_previous_transaction, check_sighash_type,
  input_key, prevout,
}
use kiss_bdk.Psbt.{
  Input, Output, Psbt, Transaction, OptionBytes-discrete, OptionNat-discrete, OutPoint-discrete,
  TxOut-discrete,
}
use kiss_bdk.Shared.Join.{
  adopt_join, adopt_inputs, adopt_outputs, claim, find_own, none_lost, same_spending,
}
use kiss_bdk.Shared.Join.Laws.{IsAdopted, adopt_join-IsAdopted}
use kiss_bdk.Shared.Finish.{finalize, witness, check_all_inputs, none_missing, sign_inputs}
use kiss_bdk.Shared.Finish.Laws.{IsFinal, finalize-IsFinal}
use kiss_bdk.Examples.Toy.{toy, coin, payment, global, fixed, answered, spend_key}
use kiss_bdk.Common.{refl, ◌≡◌, none, ok, [], ◌∷◌, Bytes-discrete, ◌>>=◌, ◌>>◌}

abbrev second_coin : Input
second_coin = record coin { spent_output_index = 1 }

abbrev change : Output
change = record payment { amount = 50000; script_pubkey = 0x51 ∷ 0x20 ∷ 6 ∷ []; sp_v0_info = none }

abbrev joined : Psbt
joined = record {
  global = record global { input_count = 2; output_count = 2 };
  inputs = second_coin ∷ coin ∷ [];
  outputs = payment ∷ change ∷ [];
}

half_adopted : adopt_join toy fixed joined 40 ≡ ok joined
unfolding Bytes-discrete OptionBytes-discrete OptionNat-discrete OutPoint-discrete TxOut-discrete
    adopt_input adopt_inputs adopt_join adopt_output adopt_outputs check_fee check_input
    check_previous_transaction check_sighash_type claim compact_size decode estimated_weight fee
    find_own input_key input_weight no_coin_twice no_coin_twice_from none_lost output_weight
    paid_from prevout read_psbt same_spending script_at sp_v0_info spent_from state take_bytes wide
    witness ◌>>=◌ ◌>>◌
half_adopted = refl

adopt_join-IsAdopted_example : IsAdopted toy fixed joined joined
adopt_join-IsAdopted_example = adopt_join-IsAdopted toy fixed joined 40 joined half_adopted

abbrev sent : Transaction
sent = record {
  version = 2;
  lock_time = 0;
  input = record { previous_output = outpoint coin; sequence = 1; witness = (1 ∷ []) ∷ [] } ∷ [];
  output = record { value = 40000; script_pubkey = 0x51 ∷ 0x20 ∷ spend_key } ∷ [];
}

payment_final : finalize toy answered ≡ ok sent
unfolding Bytes-discrete TxOut-discrete all_inputs all_prevouts audit audit_recipients audit_script
    check_all_inputs check_input check_input_shares check_inputs check_previous_transaction
    check_shares check_sighash_type check_sighash_types checked_p2wpkh checked_taproot complete_for
    complete_scans decode derive_complete derive_scripts fee finalize group_scripts input_hash
    input_key input_keys missing missing_for missing_keys none_missing output_script p2wpkh_verifies
    paid_from prevout read_psbt recipient recipients recipients_from scan_group scan_keys_from
    scan_scripts script_at share_parts sign_inputs signature_verifies sp_v0_info spent_from state
    tagged_hash taproot_verifies transaction_inputs transaction_outputs unsigned_transaction
    Dleq.verify witness ◌>>=◌ ◌>>◌
payment_final = refl

finalize-IsFinal_example : IsFinal toy answered sent
finalize-IsFinal_example = finalize-IsFinal toy answered sent payment_final
