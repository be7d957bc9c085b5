-- ===== src/Examples/Absorbing.antt =====
-- Taking in a signer's answer, and the theorems about `absorb` at it.
use kiss_bdk.Dleq.{tagged_hash}
use kiss_bdk.Shared.Signatures.{
  signed_from, carries_signature, signature_verifies, unsigned_transaction, transaction_inputs,
  transaction_outputs, checked_taproot, taproot_verifies, all_prevouts,
}
use kiss_bdk.Sp.Derive.{input_hash, output_script}
use kiss_bdk.Shared.Scripts.{
  derive_scripts, derive_complete, complete_scans, input_keys, scan_scripts, share_parts,
  group_scripts, scan_group, script_at,
}
use kiss_bdk.Shared.Input.{check_sighash_type, input_key, prevout}
use kiss_bdk.Shared.Shares.{
  recipients, recipients_from, recipient, check_shares, check_inputs, check_input_shares,
  scan_keys_from, complete_for, all_inputs,
}
use kiss_bdk.Psbt.{OutPoint-discrete, OptionNat-discrete, OptionBytes-discrete}
use kiss_bdk.Shared.Absorb.Signed.{signatures, SignedBy, absorb-SignedBy}
use kiss_bdk.Shared.Absorb.Sound.{IsSound, absorb-IsSound}
use kiss_bdk.Shared.Absorb.Skeleton.{skeleton, absorb-skeleton}
use kiss_bdk.Dleq
use kiss_bdk.Examples.Toy.{toy, fixed, answer, answered}
use kiss_bdk.Shared.Absorb.{
  Line, absorb, unchanged, share_ok, script_derived, signature_ok, signer, same_skeleton,
  same_inputs, same_outputs, absorb_inputs, absorb_shares, keep_share, absorb_scripts,
  absorb_script, set_script, absorb_signed, absorb_signatures, absorb_signature, with_signature,
}
use kiss_bdk.Common.{refl, ◌≡◌, ok, List, [], ◌∷◌, ◌>>◌, get_elem?, ◌>>=◌, map, ◌⊎◌, Bytes-discrete}

abbrev report : List Line
report = unchanged 1 1 ∷ share_ok 0 ∷ script_derived 0 ∷ signature_ok 0 ∷ []

-- The signer's answer adds its share, which completes the script, and its signature.
answer_absorbed : absorb toy fixed answer signer (0 ∷ []) ≡ ok (answered, report)
unfolding absorb ◌>>◌ ◌>>=◌ same_skeleton same_inputs OutPoint-discrete OptionNat-discrete
    OptionBytes-discrete same_outputs recipients recipients_from recipient absorb_inputs
    check_sighash_type input_key absorb_shares Bytes-discrete Dleq.verify keep_share check_shares
    check_inputs check_input_shares scan_keys_from derive_scripts derive_complete complete_scans
    complete_for all_inputs input_keys input_hash output_script scan_scripts share_parts
    group_scripts scan_group script_at absorb_scripts absorb_script set_script signed_from
    carries_signature absorb_signed absorb_signatures absorb_signature with_signature
    signature_verifies unsigned_transaction transaction_inputs transaction_outputs checked_taproot
    taproot_verifies all_prevouts prevout tagged_hash
answer_absorbed = refl

absorb-skeleton_example : skeleton answered ≡ skeleton fixed
absorb-skeleton_example =
    absorb-skeleton toy fixed answer signer (0 ∷ []) answered report answer_absorbed

absorb-IsSound_example : IsSound toy answered
absorb-IsSound_example =
    absorb-IsSound toy fixed answer signer (0 ∷ []) answered report answer_absorbed

absorb-SignedBy_example :
    (get_elem? (map signatures answered.inputs) 0 ≡ get_elem? (map signatures fixed.inputs) 0)
    ⊎ SignedBy toy signer (0 ∷ []) answered 0
absorb-SignedBy_example =
    absorb-SignedBy toy fixed answer signer (0 ∷ []) answered report 0 answer_absorbed
