-- ===== src/Shared/Absorb.antt =====
-- src/shared.rs, section 4 of the contract: what a signer or the other wallet may change, and taking
-- it in. `absorb` runs its three loops in the source's order: shares, scripts, signatures.
pub mod Skeleton
pub mod Signed
pub mod Sound
pub mod View
use kiss_bdk.Common.{
  ◌>>=◌, ◌>>◌, ℕ, suc, Bytes, same, false, not, ◌&&◌, ◌||◌, Option, none, some, List, [], ◌∷◌, ◌++◌,
  map, Result, ok, err, guard, refuse, or_fail, context, ◌==◌, if◌then◌else◌, get_elem?, holds,
  length, set, contains, lookup, has_key, insert, elem,
}
use kiss_bdk.Psbt.{
  Input, Output, Psbt, Transaction, OutPoint-discrete, OptionNat-discrete, OptionBytes-discrete,
}
use kiss_bdk.Bitcoin.{Bitcoin}
use kiss_bdk.Dleq
use kiss_bdk.Shared.Error.{
  Error, global_share, share_for_unknown_scan_key, share_without_proof, share_mismatch,
  proof_without_share, version_changed, lock_time_changed, input_count_changed,
  output_count_changed, modifiable, outpoint_changed, sequence_changed, lock_requirement_changed,
  amount_changed, recipient_changed, script_changed, wrong_script, script_before_shares,
  held_script_mismatch, foreign_signature, index_out_of_range,
}
use kiss_bdk.Shared.Input.{
  input_key, outpoint, is_empty, check_sighash_type, fallback_lock_time, sequence,
}
use kiss_bdk.Shared.Shares.{Recipient, recipients, check_shares, lone_proof}
use kiss_bdk.Shared.Scripts.{Scripts, derive_scripts, script_at}
use kiss_bdk.Shared.Signatures.{
  unsigned_transaction, carries_signature, signed_from, signature_verifies, is_some,
}

-- Where a PSBT being taken in came from.
pub data Source : Type 0 where
  signer peer : Source

-- One line of the report for each check.
pub data Line : Type 0 where
  unchanged : ℕ → ℕ → Line
  share_ok script_derived script_matches signature_ok : ℕ → Line
  -- the wallet that joined, with the inputs, the outputs and the fee
  peer_joined : Bytes → ℕ → ℕ → ℕ → Line

-- Nothing that decides how the inputs spend their coins differs.
unfoldable pub same_inputs : ℕ → List Input → List Input → Result Error (Unit {0})
same_inputs i (before ∷ mine) (after ∷ theirs) = do
  guard (holds (OutPoint-discrete (outpoint before) (outpoint after))) (outpoint_changed i)
  guard (sequence before == sequence after) (sequence_changed i)
  guard
      (holds (OptionNat-discrete before.min_time after.min_time)
        && holds (OptionNat-discrete before.min_height after.min_height))
      (lock_requirement_changed i)
  same_inputs (suc i) mine theirs
same_inputs i _ _ = ok tt

-- The one exception is the script of a silent payment output, which may appear.
abbrev pub same_script : ℕ → Output → Output → Result Error (Unit {0})
same_script i before after =
    if is_some before.sp_v0_info
    then guard
        (is_empty before.script_pubkey
          || is_empty after.script_pubkey
          || same before.script_pubkey after.script_pubkey)
        (wrong_script i)
    else guard (same before.script_pubkey after.script_pubkey) (script_changed i)

unfoldable pub same_outputs : ℕ → List Output → List Output → Result Error (Unit {0})
same_outputs i (before ∷ mine) (after ∷ theirs) = do
  guard (before.amount == after.amount) (amount_changed i)
  guard
      (holds (OptionBytes-discrete before.sp_v0_info after.sp_v0_info)
        && holds (OptionNat-discrete before.sp_v0_label after.sp_v0_label))
      (recipient_changed i)
  same_script i before after
  same_outputs (suc i) mine theirs
same_outputs i _ _ = ok tt

unfoldable pub same_skeleton : Psbt → Psbt → Result Error (Unit {0})
same_skeleton mine theirs = do
  guard (mine.global.tx_version == theirs.global.tx_version) version_changed
  guard (fallback_lock_time mine == fallback_lock_time theirs) lock_time_changed
  guard (length mine.inputs == length theirs.inputs) input_count_changed
  guard (length mine.outputs == length theirs.outputs) output_count_changed
  same_inputs 0 mine.inputs theirs.inputs
  same_outputs 0 mine.outputs theirs.outputs

-- A verified share is kept with its proof, unless one is held for its scan key.
unfoldable pub keep_share : Bytes → Bytes → Bytes → Input → Input
keep_share scan share proof held = if has_key scan held.sp_ecdh_shares then held else record held {
  sp_ecdh_shares = insert scan share held.sp_ecdh_shares;
  sp_dleq_proofs = insert scan proof held.sp_dleq_proofs;
}

unfoldable pub set_script : ℕ → Bytes → Psbt → Psbt
set_script i script psbt = elim (get_elem? psbt.outputs i) [
  | none ↦ psbt
  | some out ↦ record psbt { outputs = set psbt.outputs i (record out { script_pubkey = script }) }
]

-- One recipient's script: `sent` by the other side, `held` in the state, and the derived one.
unfoldable pub absorb_script :
    ℕ → Bytes → Bytes → Option Bytes → Psbt → List Line → Result Error (Psbt × List Line)
absorb_script i sent held none next lines = do
  guard (is_empty sent) (script_before_shares i)
  ok (next, lines)
absorb_script i sent held (some script) next lines = do
  guard (is_empty held || same held script) (held_script_mismatch i)
  guard (is_empty sent || same sent script) (wrong_script i)
  ok (
    (if is_empty held then set_script i script next else next),
    (lines ++ (if is_empty held then script_derived i ∷ [] else []))
        ++ (if is_empty sent then [] else script_matches i ∷ []),
  )

-- The second loop, over the recipients.
unfoldable pub absorb_scripts :
    Scripts → Psbt → List Recipient → Psbt → List Line → Result Error (Psbt × List Line)
absorb_scripts derived incoming [] next lines = ok (next, lines)
absorb_scripts derived incoming (r ∷ rs) next lines = do
  sent ← or_fail (get_elem? incoming.outputs r.output) index_out_of_range
  held ← or_fail (get_elem? next.outputs r.output) index_out_of_range
  here ←
      absorb_script r.output sent.script_pubkey held.script_pubkey (script_at r.output derived) next
        lines
  absorb_scripts derived incoming rs here.0 here.1

-- The signature that arrived on an input, on top of what the state holds there.
unfoldable pub with_signature : Input → Input → Input
with_signature arrived held = record held {
  partial_sigs = arrived.partial_sigs;
  tap_key_sig = arrived.tap_key_sig;
}

module _ (b : Bitcoin) where
  -- The shares that arrived on input `i`, into what is held for it.
  unfoldable pub absorb_shares :
      ℕ
      → Bytes
      → List Bytes
      → List (Bytes × Bytes)
      → List (Bytes × Bytes)
      → Input
      → List Line
      → Result Error (Input × List Line)
  absorb_shares i key scan_keys proofs [] held lines = ok (held, lines)
  absorb_shares i key scan_keys proofs ((scan, share) ∷ shares) held lines = do
    guard (contains scan scan_keys) (share_for_unknown_scan_key i)
    proof ← or_fail (lookup scan proofs) (share_without_proof i)
    context (Dleq.verify b key scan share proof) (share_mismatch i)
    absorb_shares i key scan_keys proofs shares (keep_share scan share proof held)
        (lines ++ share_ok i ∷ [])

  -- The first loop. The state's inputs stand beside the arrived ones; `same_skeleton` has found
  -- as many of both.
  unfoldable pub absorb_inputs :
      ℕ → List Bytes → List Input → List Input → List Line → Result Error (List Input × List Line)
  absorb_inputs i scan_keys [] state lines = ok (state, lines)
  absorb_inputs i scan_keys (arrived ∷ incoming) [] lines = err index_out_of_range
  absorb_inputs i scan_keys (arrived ∷ incoming) (held ∷ state) lines = do
    check_sighash_type i arrived
    key ← input_key b i held
    here ← absorb_shares i key scan_keys arrived.sp_dleq_proofs arrived.sp_ecdh_shares held lines
    refuse (lone_proof arrived.sp_ecdh_shares arrived.sp_dleq_proofs) (proof_without_share i)
    rest ← absorb_inputs (suc i) scan_keys incoming state here.1
    ok (here.0 ∷ rest.0, rest.1)

  unfoldable pub absorb_signature :
      Psbt → Transaction → Source → List ℕ → ℕ → Psbt → Result Error Psbt
  absorb_signature incoming tx source mine i next = do
    refuse (elim source [ signer ↦ not (elem i mine) | peer ↦ false ]) (foreign_signature i)
    arrived ← or_fail (get_elem? incoming.inputs i) index_out_of_range
    held ← or_fail (get_elem? next.inputs i) index_out_of_range
    let probed = set next.inputs i (with_signature arrived held)
    _ ← signature_verifies b (record next { inputs = probed }) tx i
    ok (if carries_signature held then next else record next { inputs = probed })

  -- The third loop, over the inputs that arrived signed.
  unfoldable pub absorb_signatures :
      Psbt
      → Transaction
      → Source
      → List ℕ
      → List ℕ
      → Psbt
      → List Line
      → Result Error (Psbt × List Line)
  absorb_signatures incoming tx source mine [] next lines = ok (next, lines)
  absorb_signatures incoming tx source mine (i ∷ signed) next lines = do
    after ← absorb_signature incoming tx source mine i next
    absorb_signatures incoming tx source mine signed after (lines ++ signature_ok i ∷ [])

  unfoldable pub absorb_signed :
      Psbt → Source → List ℕ → List ℕ → Psbt → List Line → Result Error (Psbt × List Line)
  absorb_signed incoming source mine [] next lines = ok (next, lines)
  absorb_signed incoming source mine (i ∷ signed) next lines = do
    tx ← unsigned_transaction b next
    absorb_signatures incoming tx source mine (i ∷ signed) next lines

  unfoldable pub absorb : Psbt → Psbt → Source → List ℕ → Result Error (Psbt × List Line)
  absorb state incoming source mine = do
    guard (is_empty incoming.global.sp_ecdh_shares && is_empty incoming.global.sp_dleq_proofs)
        global_share
    same_skeleton state incoming
    guard (incoming.global.tx_modifiable_flags == 0) modifiable
    rs ← recipients b state
    shared ←
        absorb_inputs 0 (map (λ r. r.scan) rs) incoming.inputs state.inputs
          (unchanged (length state.inputs) (length state.outputs) ∷ [])
    let next = record state { inputs = shared.0 }
    shares ← check_shares b next
    derived ← derive_scripts b next shares
    rs' ← recipients b next
    scripted ← absorb_scripts derived incoming rs' next shared.1
    absorb_signed incoming source mine (signed_from 0 incoming.inputs) scripted.0 scripted.1
