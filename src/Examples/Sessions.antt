-- ===== src/Examples/Sessions.antt =====
-- A session that takes in the other wallet's state and the news of the broadcast.
use kiss_bdk.Shared.Finish.{witness}
use kiss_bdk.Dleq
use kiss_bdk.Dleq.{tagged_hash}
use kiss_bdk.Sp.{sp_v0_info}
use kiss_bdk.Sp.Derive.{input_hash, output_script}
use kiss_bdk.Shared.Scripts.{
  complete_scans, derive_complete, derive_scripts, group_scripts, input_keys, scan_group,
  scan_scripts, script_at, share_parts,
}
use kiss_bdk.SpSend.Cursor.{compact_size, copy_map, copy_pair, take_bytes, wide}
use kiss_bdk.Shared.Fee.{
  check_fee, estimated_weight, fee, input_weight, output_weight, paid_from, spent_from,
}
use kiss_bdk.Shared.Signatures.{
  all_prevouts, carries_signature, checked_p2wpkh, checked_taproot, p2wpkh_verifies,
  signature_verifies, signed_from, taproot_verifies, transaction_inputs, transaction_outputs,
  unsigned_transaction,
}
use kiss_bdk.Shared.Shares.{
  all_inputs, check_input_shares, check_inputs, check_shares, complete_for, recipient, recipients,
  recipients_from, scan_keys_from,
}
use kiss_bdk.Shared.Join.{
  adopt_inputs, adopt_join, adopt_outputs, claim, find_own, none_lost, same_spending,
}
use kiss_bdk.Shared.Input.{
  adopt_input, adopt_output, check_input, check_previous_transaction, check_sighash_type, input_key,
  prevout,
}
use kiss_bdk.Shared.Absorb.{
  absorb, absorb_inputs, absorb_script, absorb_scripts, absorb_shares, absorb_signature,
  absorb_signatures, absorb_signed, keep_share, same_inputs, same_outputs, same_skeleton,
  set_script, with_signature,
}
use kiss_bdk.Psbt.{
  OptionBytes-discrete, OptionNat-discrete, OutPoint-discrete, Psbt-discrete, TxOut-discrete,
}
use kiss_bdk.Shared.Wire.{Wire, decode, encode, read_psbt, serialize_v2}
use kiss_bdk.Shared.Message.{Message, update, done}
use kiss_bdk.Shared.Terms.{join, no_coin_twice, no_coin_twice_from}
use kiss_bdk.Shared.Session.{
  Session, active, theirs, broadcast, coin_positions, my_inputs, position, state,
}
use kiss_bdk.Shared.Session.Steps.{
  receive, apply, apply_update, base_state, last_state, receive_done, receive_update, record_done,
}
use kiss_bdk.Shared.Session.Follows.{Follows}
use kiss_bdk.Shared.Session.History.{Steps, here, later, received, Steps-Follows}
use kiss_bdk.Shared.Session.Broadcast.{RecordsOwn, broadcast-RecordsOwn}
use kiss_bdk.Shared.Session.Fixed.{KeepsSkeleton, receive-KeepsSkeleton}
use kiss_bdk.SpSend.Strip.{magic, strip_empty_output_scripts, strip_maps}
use kiss_bdk.Examples.Toy.{toy, fixed, answer, answered}
use kiss_bdk.Common.{
  refl, ◌≡◌, subst, some, none, [], ◌∷◌, ◌⊎◌, if◌then◌else◌, same, Bytes-discrete, ◌>>=◌, ◌>>◌,
}

-- Three states stand for all texts: the fixed payment, the answer of the other signer, and what
-- `magic` stands for, the state with that answer in it.
abbrev pub wire : Wire
wire = record {
  base64_encode = λ bytes. bytes;
  base64_decode = some;
  trim = λ text. text;
  serialize = λ psbt. magic;
  deserialize = λ bytes.
      if same bytes (0 ∷ [])
      then some fixed
      else if same bytes (1 ∷ [])
      then some answer
      else some answered;
  outpoint_to_string = λ coin. coin.txid;
  outpoint_from_str = λ text. some (record { txid = text; vout = 0 });
  txid_to_string = λ txid. txid;
  txid_from_str = some;
  to_json = λ message. message.session;
}

abbrev pub session : Session
session = record {
  v = 1;
  session = 7 ∷ [];
  role = join;
  me = 1 ∷ [];
  peer = some (2 ∷ []);
  to = [];
  sats = 40000;
  fee_rate = 2;
  stage = active;
  newest = theirs;
  psbt = 0 ∷ [];
  mine = [];
  visits = 0;
  outbox = [];
  txid = none;
}

abbrev update_from_peer : Message
update_from_peer = record {
  v = 1;
  session = 7 ∷ [];
  kind = update;
  from = 2 ∷ [];
  psbt = some (1 ∷ []);
  to = none;
  sats = none;
  fee_rate = none;
  txid = none;
}

abbrev pub news : Message
news = record update_from_peer { kind = done; psbt = none; txid = some (5 ∷ []) }

abbrev updated_by_peer : Session
updated_by_peer = record session { psbt = magic }

abbrev told_by_peer : Session
told_by_peer = record updated_by_peer { stage = broadcast; txid = some (5 ∷ []) }

update_taken : (receive toy wire session update_from_peer).1 ≡ updated_by_peer
unfolding Bytes-discrete OptionBytes-discrete OptionNat-discrete OutPoint-discrete Psbt-discrete
    TxOut-discrete absorb absorb_inputs absorb_script absorb_scripts absorb_shares absorb_signature
    absorb_signatures absorb_signed adopt_input adopt_inputs adopt_join adopt_output adopt_outputs
    all_inputs all_prevouts apply apply_update base_state carries_signature check_fee check_input
    check_input_shares check_inputs check_previous_transaction check_shares check_sighash_type
    checked_p2wpkh checked_taproot claim coin_positions compact_size complete_for complete_scans
    copy_map copy_pair decode derive_complete derive_scripts encode estimated_weight fee find_own
    group_scripts input_hash input_key input_keys input_weight keep_share last_state my_inputs
    no_coin_twice no_coin_twice_from none_lost output_script output_weight p2wpkh_verifies paid_from
    position prevout read_psbt receive receive_done receive_update recipient recipients
    recipients_from record_done same_inputs same_outputs same_skeleton same_spending scan_group
    scan_keys_from scan_scripts script_at serialize_v2 set_script share_parts signature_verifies
    signed_from sp_v0_info spent_from state strip_empty_output_scripts strip_maps tagged_hash
    take_bytes taproot_verifies transaction_inputs transaction_outputs unsigned_transaction
    Dleq.verify wide with_signature witness ◌>>=◌ ◌>>◌
update_taken = refl

news_taken : (receive toy wire updated_by_peer news).1 ≡ told_by_peer
unfolding Bytes-discrete OptionBytes-discrete OptionNat-discrete OutPoint-discrete Psbt-discrete
    TxOut-discrete absorb absorb_inputs absorb_script absorb_scripts absorb_shares absorb_signature
    absorb_signatures absorb_signed adopt_input adopt_inputs adopt_join adopt_output adopt_outputs
    all_inputs all_prevouts apply apply_update base_state carries_signature check_fee check_input
    check_input_shares check_inputs check_previous_transaction check_shares check_sighash_type
    checked_p2wpkh checked_taproot claim coin_positions compact_size complete_for complete_scans
    copy_map copy_pair decode derive_complete derive_scripts encode estimated_weight fee find_own
    group_scripts input_hash input_key input_keys input_weight keep_share last_state my_inputs
    no_coin_twice no_coin_twice_from none_lost output_script output_weight p2wpkh_verifies paid_from
    position prevout read_psbt receive receive_done receive_update recipient recipients
    recipients_from record_done same_inputs same_outputs same_skeleton same_spending scan_group
    scan_keys_from scan_scripts script_at serialize_v2 set_script share_parts signature_verifies
    signed_from sp_v0_info spent_from state strip_empty_output_scripts strip_maps tagged_hash
    take_bytes taproot_verifies transaction_inputs transaction_outputs unsigned_transaction
    Dleq.verify wide with_signature witness ◌>>=◌ ◌>>◌
news_taken = refl

both_messages : Steps toy wire session told_by_peer
both_messages = subst (Steps toy wire session) news_taken (
    later
      (subst (Steps toy wire session) update_taken (later here (received session update_from_peer)))
      (received updated_by_peer news))

Steps-Follows_example : Follows session told_by_peer
Steps-Follows_example = Steps-Follows toy wire session told_by_peer both_messages

broadcast-RecordsOwn_example : RecordsOwn toy wire told_by_peer
broadcast-RecordsOwn_example =
    broadcast-RecordsOwn toy wire (λ tx. refl) session told_by_peer (λ e. cc) both_messages refl

receive-KeepsSkeleton_example :
    ((receive toy wire session update_from_peer).1.psbt ≡ session.psbt)
    ⊎ KeepsSkeleton toy wire session (receive toy wire session update_from_peer).1
receive-KeepsSkeleton_example = receive-KeepsSkeleton toy wire session update_from_peer refl
