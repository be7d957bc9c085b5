-- ===== src/SpStore.antt =====
-- src/spstore.rs: the tables of a wallet's silent payment keys and outputs, and how far the chain has
-- been searched. A table is the list of its rows; a statement that the database refuses, and the
-- migrations, are left out.
pub mod Laws
use kiss_bdk.Psbt.{OutPoint, OutPoint-discrete}
use kiss_bdk.SpScan.{Found, unconfirmed}
use kiss_bdk.SpSpend.{StoredOut}
use kiss_bdk.Common.{
  ℕ, Bytes, Option, none, some, List, [], ◌∷◌, Bool, true, false, if◌then◌else◌, ◌==◌, not, ◌&&◌,
  leb, holds, length, ◌-◌,
}

pub record Tables : Type 0 where
  pub keys : Option (Bytes × Bytes)
  pub rows : List StoredOut
  pub watermark : Option (ℕ × Option Bytes)

unfoldable pub put_keys : Bytes → Bytes → Tables → Tables
put_keys scan spend tables = record {
  keys = some (scan, spend);
  rows = tables.rows;
  watermark = tables.watermark;
}

unfoldable pub set_watermark : ℕ → Bytes → Tables → Tables
set_watermark height hash tables = record {
  keys = tables.keys;
  rows = tables.rows;
  watermark = some (height, some hash);
}

abbrev pub with_rows : List StoredOut → Tables → Tables
with_rows rows tables = record { keys = tables.keys; rows = rows; watermark = tables.watermark }

abbrev pub is_at : OutPoint → StoredOut → Bool
is_at o row = holds (OutPoint-discrete row.outpoint o)

abbrev pub move_to : ℕ → StoredOut → StoredOut
move_to height row = record {
  outpoint = row.outpoint;
  tweak = row.tweak;
  script_pubkey = row.script_pubkey;
  amount = row.amount;
  label = row.label;
  height = height;
}

abbrev pub row_of : Found → StoredOut
row_of item = record {
  outpoint = item.out.outpoint;
  tweak = item.out.tweak;
  script_pubkey = item.out.script_pubkey;
  amount = item.out.amount;
  label = item.out.label;
  height = item.height;
}

-- `INSERT ... ON CONFLICT(txid, vout) DO UPDATE SET height`.
abbrev pub upsert : StoredOut → List StoredOut → List StoredOut
upsert new [] = new ∷ []
upsert new (row ∷ rows) =
    if is_at new.outpoint row then move_to new.height row ∷ rows else row ∷ upsert new rows

abbrev pub put_rows : List Found → List StoredOut → List StoredOut
put_rows [] rows = rows
put_rows (item ∷ found) rows = put_rows found (upsert (row_of item) rows)

unfoldable pub put_found : List Found → Tables → Tables
put_found found tables = with_rows (put_rows found tables.rows) tables

abbrev pub keep_rows : (StoredOut → Bool) → List StoredOut → List StoredOut
keep_rows test [] = []
keep_rows test (row ∷ rows) =
    let rest = keep_rows test rows in if test row then row ∷ rest else rest

-- What a spend may use, of the rows as they are read.
unfoldable pub candidates : List StoredOut → List StoredOut
candidates = keep_rows (λ row. not (row.height == unconfirmed))

-- `COUNT(*)`, compared with zero.
abbrev pub contains_row : OutPoint → List StoredOut → Bool
contains_row o [] = false
contains_row o (row ∷ rows) = if is_at o row then true else contains_row o rows

unfoldable pub forget : OutPoint → Tables → Tables
forget o tables = with_rows (keep_rows (λ row. not (is_at o row)) tables.rows) tables

abbrev pub above_reorg : ℕ → StoredOut → Bool
above_reorg height row = leb height row.height && not (row.height == unconfirmed)

-- The tables, and how many rows were removed.
unfoldable pub forget_from : ℕ → Tables → Tables × ℕ
forget_from height tables =
    let rows = keep_rows (λ row. not (above_reorg height row)) tables.rows in
    (with_rows rows tables, length tables.rows - length rows)
