-- ===== src/Shared/Scripts.antt =====
-- src/shared.rs: deriving the script of every silent payment output whose shares are complete, and
-- the audit of a PSBT's silent payment fields against each other.
use kiss_bdk.Common.{
  ◌>>=◌, ◌>>◌, ℕ, suc, Bytes, same, Option, none, some, List, [], ◌∷◌, ◌++◌, map, Result, ok, err,
  guard, or_fail, context, ◌==◌, if◌then◌else◌, lookup, get_elem?, sort_by_key,
}
use kiss_bdk.Psbt.{Input, Psbt}
use kiss_bdk.Bitcoin.{Bitcoin}
use kiss_bdk.Sp.Derive.{input_hash, output_script}
use kiss_bdk.Shared.Error.{
  Error, no_key_sum, no_share_sum, input_hash_failed, output_script_failed, missing_share,
  wrong_script, script_before_shares, script_while_modifiable, index_out_of_range,
}
use kiss_bdk.Shared.Input.{input_key, outpoint, is_empty, check_sighash_type}
use kiss_bdk.Shared.Shares.{Recipient, Shares, complete_for, recipients, check_shares}

-- `BTreeMap<usize, ScriptBuf>`: the first pair of an index counts, and an index has one pair.
abbrev pub Scripts : Type 0
Scripts = List (ℕ × Bytes)

unfoldable pub script_at : ℕ → Scripts → Option Bytes
script_at i [] = none
script_at i ((j, script) ∷ rest) = if j == i then some script else script_at i rest

-- Map over a list, stopping at the first failure.
unfoldable pub input_keys : Bitcoin → ℕ → List Input → Result Error (List Bytes)
input_keys b i [] = ok []
input_keys b i (input ∷ inputs) = do
  key ← input_key b i input
  keys ← input_keys b (suc i) inputs
  ok (key ∷ keys)

-- The share of every input for one scan key.
unfoldable pub share_parts : Bytes → List Input → Result Error (List Bytes)
share_parts scan [] = ok []
share_parts scan (input ∷ inputs) = do
  share ← or_fail (lookup scan input.sp_ecdh_shares) missing_share
  shares ← share_parts scan inputs
  ok (share ∷ shares)

unfoldable pub scan_group : Bytes → List Recipient → List Recipient
scan_group scan [] = []
scan_group scan (r ∷ rs) =
    let rest = scan_group scan rs in if same r.scan scan then r ∷ rest else rest

unfoldable pub complete_scans : Shares → List Bytes → List Bytes
complete_scans s [] = []
complete_scans s (scan ∷ scans) =
    let rest = complete_scans s scans in if complete_for s scan then scan ∷ rest else rest

module _ (b : Bitcoin) where
  -- `k` counts the recipients of one scan key by spend key, and by output index below it.
  unfoldable pub group_scripts : Bytes → Bytes → ℕ → List Recipient → Result Error Scripts
  group_scripts c_sum hash k [] = ok []
  group_scripts c_sum hash k (r ∷ rs) = do
    script ← context (output_script b c_sum r.spend hash k) output_script_failed
    rest ← group_scripts c_sum hash (suc k) rs
    ok ((r.output, script) ∷ rest)

  unfoldable pub scan_scripts :
      List Input → List Recipient → Bytes → List Bytes → Result Error Scripts
  unfolding group_scripts
  scan_scripts inputs rs hash [] = ok []
  scan_scripts inputs rs hash (scan ∷ scans) = do
    parts ← share_parts scan inputs
    c_sum ← or_fail (b.combine_keys parts) no_share_sum
    here ← group_scripts c_sum hash 0 (sort_by_key (λ r. r.spend) (scan_group scan rs))
    rest ← scan_scripts inputs rs hash scans
    ok (here ++ rest)

  unfoldable pub derive_complete : Psbt → List Recipient → List Bytes → Result Error Scripts
  unfolding scan_scripts
  derive_complete psbt rs [] = ok []
  derive_complete psbt rs (scan ∷ scans) = do
    keys ← input_keys b 0 psbt.inputs
    a_sum ← or_fail (b.combine_keys keys) no_key_sum
    hash ← context (input_hash b (map outpoint psbt.inputs) a_sum) input_hash_failed
    scan_scripts psbt.inputs rs hash (scan ∷ scans)

  -- The script of every silent payment output whose shares are complete.
  unfoldable pub derive_scripts : Psbt → Shares → Result Error Scripts
  unfolding derive_complete
  derive_scripts psbt shares = do
    rs ← recipients b psbt
    derive_complete psbt rs (complete_scans shares shares.scan_keys)

  unfoldable pub check_sighash_types : ℕ → List Input → Result Error (Unit {0})
  check_sighash_types i [] = ok tt
  check_sighash_types i (input ∷ inputs) = do
    check_sighash_type i input
    check_sighash_types (suc i) inputs

  -- One output that has a script, against the derived one.
  unfoldable pub audit_script : ℕ → ℕ → Bytes → Option Bytes → Result Error (Unit {0})
  audit_script flags output script none = err (script_before_shares output)
  audit_script flags output script (some expected) = do
    guard (same script expected) (wrong_script output)
    guard (flags == 0) (script_while_modifiable output)

  unfoldable pub audit_recipients : Psbt → Scripts → List Recipient → Result Error (Unit {0})
  unfolding audit_script
  audit_recipients psbt derived [] = ok tt
  audit_recipients psbt derived (r ∷ rs) = do
    out ← or_fail (get_elem? psbt.outputs r.output) index_out_of_range
    (if is_empty out.script_pubkey
        then ok tt
        else audit_script psbt.global.tx_modifiable_flags r.output out.script_pubkey
            (script_at r.output derived))
    audit_recipients psbt derived rs

  -- A PSBT's silent payment fields against each other, using nothing but the PSBT itself.
  unfoldable pub audit : Psbt → Result Error Shares
  unfolding audit_recipients check_sighash_types
  audit psbt = do
    check_sighash_types 0 psbt.inputs
    shares ← check_shares b psbt
    derived ← derive_scripts psbt shares
    rs ← recipients b psbt
    audit_recipients psbt derived rs
    ok shares
