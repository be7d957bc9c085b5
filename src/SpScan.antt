-- ===== src/SpScan.antt =====
-- src/spscan.rs: finding silent payments in a transaction, in a block, or in what a tweak stream
-- publishes of a transaction. The scanner of bdk_sp is a parameter.
pub mod Laws
use kiss_bdk.Psbt.{OutPoint, TxOut, TxIn, Transaction}
use kiss_bdk.SpSpend.{p2tr_script}
use kiss_bdk.Common.{
  ℕ, zero, suc, Bytes, Option, none, some, List, [], ◌∷◌, ◌++◌, Result, ok, err, if◌then◌else◌,
  ◌==◌, ◌>>=◌, ◌>>◌, leb, length, map, guard, or_fail, set, replicate, lookup, insert,
}

pub data Error : Type 0 where
  wrong_prevouts scanning : Error

-- `bdk_sp::receive::SpOut`.
pub record SpOut : Type 0 where
  pub outpoint : OutPoint
  pub tweak : Bytes
  pub script_pubkey : Bytes
  pub amount : ℕ
  pub label : Option ℕ

pub record Found : Type 0 where
  pub height : ℕ
  pub out : SpOut

pub record TaprootOut : Type 0 where
  pub vout : ℕ
  pub key : Bytes
  pub amount : ℕ

pub record Candidate : Type 0 where
  pub txid : Bytes
  pub tweak : Bytes
  pub outputs : List TaprootOut

-- `Scanner` of bdk_sp for the keys of this wallet, and `compute_shared_secret` of its scan key and a
-- tweak.
pub record Scanner : Type 0 where
  pub scan_tx : Transaction → List TxOut → Option (List SpOut)
  pub scan_txouts : Transaction → Bytes → Option (List SpOut)
  pub get_spks_from_tweak : Bytes → ℕ → List Bytes
  pub shared_secret : Bytes → Bytes

abbrev pub unconfirmed : ℕ
unconfirmed = 0

abbrev pub at_height : ℕ → SpOut → Found
at_height height out = record { height = height; out = out }

unfoldable pub scan_transaction : Scanner → Transaction → List TxOut → ℕ → Result Error (List Found)
scan_transaction scanner tx prevouts height = do
  guard (length prevouts == length tx.input) wrong_prevouts
  outs ← or_fail (scanner.scan_tx tx prevouts) scanning
  ok (map (at_height height) outs)

-- One candidate script per tweak, at derivation order 0.
abbrev pub insert_all : List Bytes → Bytes → List (Bytes × Bytes) → List (Bytes × Bytes)
insert_all [] tweak candidates = candidates
insert_all (spk ∷ spks) tweak candidates = insert_all spks tweak (insert spk tweak candidates)

unfoldable pub candidate_scripts :
    Scanner → List Bytes → List (Bytes × Bytes) → List (Bytes × Bytes)
candidate_scripts scanner [] candidates = candidates
candidate_scripts scanner (tweak ∷ tweaks) candidates =
    candidate_scripts scanner tweaks
      (insert_all (scanner.get_spks_from_tweak tweak 0) tweak candidates)

abbrev pub find_tweak : List (Bytes × Bytes) → List TxOut → Option Bytes
find_tweak candidates [] = none
find_tweak candidates (out ∷ outputs) = elim (lookup out.script_pubkey candidates) [
  | some tweak ↦ some tweak
  | none ↦ find_tweak candidates outputs
]

unfoldable pub scan_matches :
    Scanner → List (Bytes × Bytes) → ℕ → List Transaction → Result Error (List Found)
scan_matches scanner candidates height [] = ok []
scan_matches scanner candidates height (tx ∷ txdata) = elim (find_tweak candidates tx.output) [
  | none ↦ scan_matches scanner candidates height txdata
  | some tweak ↦ do
    outs ← or_fail (scanner.scan_txouts tx (scanner.shared_secret tweak)) scanning
    rest ← scan_matches scanner candidates height txdata
    ok (map (at_height height) outs ++ rest)
]

unfoldable pub scan_block : Scanner → List Bytes → List Transaction → ℕ → Result Error (List Found)
scan_block scanner [] txdata height = ok []
scan_block scanner (tweak ∷ tweaks) txdata height =
    scan_matches scanner (candidate_scripts scanner (tweak ∷ tweaks) []) height txdata

abbrev pub larger : ℕ → Option ℕ → ℕ
larger i none = i
larger i (some j) = if leb i j then j else i

abbrev pub max_vout : List TaprootOut → Option ℕ
max_vout [] = none
max_vout (out ∷ outs) = some (larger out.vout (max_vout outs))

abbrev pub blank : TxOut
blank = record { value = 0; script_pubkey = [] }

abbrev pub fill : List TaprootOut → List TxOut → List TxOut
fill [] outputs = outputs
fill (out ∷ outs) outputs =
    fill outs
      (set outputs out.vout (record { value = out.amount; script_pubkey = p2tr_script out.key }))

abbrev pub synthetic : List TaprootOut → ℕ → Transaction
synthetic outs width = record {
  version = 2;
  lock_time = 0;
  input = [];
  output = fill outs (replicate (suc width) blank);
}

-- The transaction id of the synthetic transaction is replaced by the published one.
abbrev pub with_txid : Bytes → SpOut → SpOut
with_txid txid out = record {
  outpoint = record { txid = txid; vout = out.outpoint.vout };
  tweak = out.tweak;
  script_pubkey = out.script_pubkey;
  amount = out.amount;
  label = out.label;
}

unfoldable pub scan_candidate : Scanner → Candidate → ℕ → Result Error (List Found)
scan_candidate scanner candidate height = elim (max_vout candidate.outputs) [
  | none ↦ ok []
  | some width ↦ do
    outs ←
        or_fail
          (scanner.scan_txouts (synthetic candidate.outputs width)
            (scanner.shared_secret candidate.tweak))
          scanning
    ok (map (λ out. at_height height (with_txid candidate.txid out)) outs)
]
