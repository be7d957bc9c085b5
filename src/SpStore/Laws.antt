-- ===== src/SpStore/Laws.antt =====
-- src/spstore.rs: the table of outputs as a map from outpoints.
use kiss_bdk.SpStore.{
  Tables, put_keys, set_watermark, is_at, row_of, upsert, put_rows, put_found, keep_rows,
  contains_row, forget, above_reorg, forget_from,
}
use kiss_bdk.SpScan.{Found}
use kiss_bdk.SpSpend.{StoredOut}
use kiss_bdk.Psbt.{OutPoint, OutPoint-discrete}
use kiss_bdk.Common.{
  ℕ, Bytes, Option, none, some, List, [], ◌∷◌, Bool, true, false, if◌then◌else◌, not, arith, ◌≡◌,
  refl, ap, ◌∙◌, sym, Bool-cases, inl, inr, holds-true, holds_of, ◌⊎◌, subst, ◌≢◌, holds, ◌↔◌, ◌<◌,
  ◌≤◌, ◌+◌, length,
}

-- The row of an outpoint.
abbrev pub row_at : OutPoint → List StoredOut → Option StoredOut
row_at o [] = none
row_at o (row ∷ rows) = if holds (OutPoint-discrete row.outpoint o) then some row else row_at o rows

-- What a found output makes of the row of its outpoint: a row that is there gets the height of the
-- found output and keeps its tweak, script, amount and label, and where there is none, all is the
-- found output's.
abbrev pub merged : Found → Option StoredOut → StoredOut
merged item none = record {
  outpoint = item.out.outpoint;
  tweak = item.out.tweak;
  script_pubkey = item.out.script_pubkey;
  amount = item.out.amount;
  label = item.out.label;
  height = item.height;
}
merged item (some row) = record row { height = item.height }

-- A found output of another outpoint changes nothing.
abbrev pub merge : OutPoint → Found → Option StoredOut → Option StoredOut
merge o item held =
    if holds (OutPoint-discrete item.out.outpoint o) then some (merged item held) else held

abbrev pub merge_all : OutPoint → List Found → Option StoredOut → Option StoredOut
merge_all o [] held = held
merge_all o (item ∷ found) held = merge_all o found (merge o item held)

apart : (b : Bool) → b ≡ false → b ≢ true
apart b e h = cc

is_at-cases :
    (o : OutPoint) (row : StoredOut)
    → ((is_at o row ≡ true) × (row.outpoint ≡ o)) ⊎ ((is_at o row ≡ false) × (row.outpoint ≢ o))
is_at-cases o row = elim (Bool-cases (is_at o row)) [
  | inl e ↦ inl (e, holds-true (OutPoint-discrete row.outpoint o) e)
  | inr e ↦
      inr (e, λ p. let h = holds_of (OutPoint-discrete row.outpoint o) p in apart (is_at o row) e h)
]

is_at_of : (o : OutPoint) (row : StoredOut) → row.outpoint ≡ o → is_at o row ≡ true
is_at_of o row p = holds_of (OutPoint-discrete row.outpoint o) p

is_at_not : (o : OutPoint) (row : StoredOut) → row.outpoint ≢ o → is_at o row ≡ false
is_at_not o row n = elim (is_at-cases o row) [ inl (e, p) ↦ absurd (n p) | inr (e, m) ↦ e ]

row_at-upsert :
    (o : OutPoint) (item : Found) (rows : List StoredOut)
    → row_at o (upsert (row_of item) rows) ≡ merge o item (row_at o rows)
row_at-upsert o item [] = elim (Bool-cases (is_at o (row_of item))) [
  | inl e ↦ rw e refl
  | inr e ↦ rw e refl
]
row_at-upsert o item (row ∷ rows) =
    let new = row_of item in
    elim (is_at-cases item.out.outpoint row) [
      | inl (e, p) ↦ elim (is_at-cases o row) [
        | inl (f, q) ↦ rw (e, f, is_at_of o new (sym p ∙ q)) refl
        | inr (f, n) ↦ rw (e, f, is_at_not o new (λ q. n (p ∙ q))) refl
      ]
      | inr (e, m) ↦ elim (is_at-cases o row) [
        | inl (f, q) ↦ rw (e, f, is_at_not o new (λ r. m (q ∙ sym r))) refl
        | inr (f, n) ↦ rw (e, f) (row_at-upsert o item rows)
      ]
    ]

-- After found outputs are stored, the row of an outpoint is the row that was there with the found
-- outputs of that outpoint merged into it in order: the last of them gives the height, and all else
-- is as it was stored first. The row of no other outpoint has changed.
pub put_found-row_at :
    (o : OutPoint) (found : List Found) (tables : Tables)
    → row_at o (put_found found tables).rows ≡ merge_all o found (row_at o tables.rows)
unfolding put_found
put_found-row_at o found tables = go found tables.rows
  where
    go :
        (found : List Found) (rows : List StoredOut)
        → row_at o (put_rows found rows) ≡ merge_all o found (row_at o rows)
    go [] rows = refl
    go (item ∷ found) rows =
        go found (upsert (row_of item) rows) ∙ ap (merge_all o found) (row_at-upsert o item rows)

-- No outpoint has two rows.
abbrev pub IsKeyed : List StoredOut → Type 0
IsKeyed [] = Unit
IsKeyed (row ∷ rows) = (contains_row row.outpoint rows ≡ false) × IsKeyed rows

contains_row-keep_rows :
    (o : OutPoint) (test : StoredOut → Bool) (rows : List StoredOut)
    → contains_row o rows ≡ false
    → contains_row o (keep_rows test rows) ≡ false
contains_row-keep_rows o test [] h = refl
contains_row-keep_rows o test (row ∷ rows) h = ground (arith, contains_row-keep_rows o test rows)

keep_rows-IsKeyed :
    (test : StoredOut → Bool) (rows : List StoredOut) → IsKeyed rows → IsKeyed (keep_rows test rows)
keep_rows-IsKeyed test [] h = tt
keep_rows-IsKeyed test (row ∷ rows) h = elim (Bool-cases (test row)) [
  | inl e ↦
      rw e (contains_row-keep_rows row.outpoint test rows h.0, keep_rows-IsKeyed test rows h.1)
  | inr e ↦ rw e (keep_rows-IsKeyed test rows h.1)
]

contains_row-upsert :
    (o : OutPoint) (new : StoredOut) (rows : List StoredOut)
    → is_at o new ≡ false
    → contains_row o (upsert new rows) ≡ contains_row o rows
contains_row-upsert o new [] h = rw h refl
contains_row-upsert o new (row ∷ rows) h = ground (arith, contains_row-upsert o new rows)

upsert-IsKeyed :
    (new : StoredOut) (rows : List StoredOut) → IsKeyed rows → IsKeyed (upsert new rows)
upsert-IsKeyed new [] h = (refl, tt)
upsert-IsKeyed new (row ∷ rows) h = elim (is_at-cases new.outpoint row) [
  | inl (e, p) ↦ rw e h
  | inr (e, m) ↦ rw e (
    contains_row-upsert row.outpoint new rows (is_at_not row.outpoint new (λ q. m (sym q))) ∙ h.0,
    upsert-IsKeyed new rows h.1,
  )
]

put_rows-IsKeyed :
    (found : List Found) (rows : List StoredOut) → IsKeyed rows → IsKeyed (put_rows found rows)
put_rows-IsKeyed [] rows h = h
put_rows-IsKeyed (item ∷ found) rows h =
    put_rows-IsKeyed found (upsert (row_of item) rows) (upsert-IsKeyed (row_of item) rows h)

-- What the program does to the tables.
pub data Change : Tables → Tables → Type 0 where
  found : (items : List Found) (tables : Tables) → Change tables (put_found items tables)
  paired : (scan spend : Bytes) (tables : Tables) → Change tables (put_keys scan spend tables)
  searched :
      (height : ℕ) (hash : Bytes) (tables : Tables)
      → Change tables (set_watermark height hash tables)
  forgotten : (o : OutPoint) (tables : Tables) → Change tables (forget o tables)
  reorganized : (height : ℕ) (tables : Tables) → Change tables (forget_from height tables).0

pub data Changes : Tables → Tables → Type 0 where
  none_yet : (tables : Tables) → Changes tables tables
  and_then : {a b c : Tables} → Changes a b → Change b c → Changes a c

Change-IsKeyed : {a b : Tables} → Change a b → IsKeyed a.rows → IsKeyed b.rows
unfolding put_found put_keys set_watermark forget forget_from
Change-IsKeyed (found items tables) h = put_rows-IsKeyed items tables.rows h
Change-IsKeyed (paired scan spend tables) h = h
Change-IsKeyed (searched height hash tables) h = h
Change-IsKeyed (forgotten o tables) h = keep_rows-IsKeyed _ tables.rows h
Change-IsKeyed (reorganized height tables) h = keep_rows-IsKeyed _ tables.rows h

-- Whatever the program does to tables in which no outpoint has two rows, no outpoint has two rows
-- afterwards: a block that is scanned again duplicates nothing.
pub Changes-IsKeyed : {a b : Tables} → Changes a b → IsKeyed a.rows → IsKeyed b.rows
Changes-IsKeyed (none_yet tables) h = h
Changes-IsKeyed (and_then before last) h = Change-IsKeyed last (Changes-IsKeyed before h)

-- What is left of a row if those that fail a test are removed.
abbrev pub kept : (StoredOut → Bool) → Option StoredOut → Option StoredOut
kept test none = none
kept test (some row) = if test row then some row else none

row_at-none :
    (o : OutPoint) (rows : List StoredOut) → contains_row o rows ≡ false → row_at o rows ≡ none
row_at-none o [] h = refl
row_at-none o (row ∷ rows) h = elim (is_at-cases o row) [
  | inl (e, p) ↦ let k = rw e at h in cc
  | inr (e, n) ↦ let k = rw e at h in rw e (row_at-none o rows k)
]

row_at-keep_rows :
    (o : OutPoint) (test : StoredOut → Bool) (rows : List StoredOut)
    → IsKeyed rows
    → row_at o (keep_rows test rows) ≡ kept test (row_at o rows)
row_at-keep_rows o test [] h = refl
row_at-keep_rows o test (row ∷ rows) h = elim (is_at-cases o row) [
  | inl (e, p) ↦ elim (Bool-cases (test row)) [
    | inl t ↦ rw (e, t, e) refl
    | inr t ↦
        rw (e, t)
          (row_at-none o _
            (contains_row-keep_rows o test rows (subst (λ q. contains_row q rows ≡ false) p h.0)))
  ]
  | inr (e, n) ↦ elim (Bool-cases (test row)) [
    | inl t ↦ rw (e, t, e) (row_at-keep_rows o test rows h.1)
    | inr t ↦ rw (e, t) (row_at-keep_rows o test rows h.1)
  ]
]

kept-eq-some :
    (test : StoredOut → Bool) (held : Option StoredOut) (row : StoredOut)
    → (kept test held ≡ some row) ↔ ((held ≡ some row) × (test row ≡ true))
kept-eq-some test none row = (λ h. cc, λ h. cc)
kept-eq-some test (some x) row = elim (Bool-cases (test x)) [
  | inl e ↦ (
    (λ h. let k : ◌≡◌ {A = Option StoredOut} (some x) (some row) = rw e at h in (k, cc)),
    (λ h. rw e (h.0)),
  )
  | inr e ↦ ((λ h. let k : ◌≡◌ {A = Option StoredOut} none (some row) = rw e at h in cc), (λ h. cc))
]

below_or_unconfirmed :
    (height : ℕ) (row : StoredOut)
    → (not (above_reorg height row) ≡ true) ↔ ((row.height < height) ⊎ (row.height ≡ 0))
below_or_unconfirmed height row = ground arith

length-keep_rows :
    (test : StoredOut → Bool) (rows : List StoredOut) → length (keep_rows test rows) ≤ length rows
length-keep_rows test [] = omega arith
length-keep_rows test (row ∷ rows) = elim (Bool-cases (test row)) [
  | inl e ↦ rw e (omega (arith, length-keep_rows test rows))
  | inr e ↦ rw e (omega (arith, length-keep_rows test rows))
]

-- When the chain is reorganized from a height on and the table has one row for each outpoint: a row
-- is in the table afterwards if it was there before and is either below the height or unconfirmed,
-- which is stored as height 0, and only then; the number that is returned is how many rows are gone;
-- the keys and the watermark stay.
pub forget_from-row_at :
    (o : OutPoint) (height : ℕ) (tables : Tables)
    → IsKeyed tables.rows
    → ((row : StoredOut)
        → (row_at o (forget_from height tables).0.rows ≡ some row)
          ↔ ((row_at o tables.rows ≡ some row) × ((row.height < height) ⊎ (row.height ≡ 0))))
      × (length (forget_from height tables).0.rows + (forget_from height tables).1
          ≡ length tables.rows)
      × ((forget_from height tables).0.keys ≡ tables.keys)
      × ((forget_from height tables).0.watermark ≡ tables.watermark)
unfolding forget_from
forget_from-row_at o height tables h = (
  λ row.
      let test : StoredOut → Bool = λ row. not (above_reorg height row) in
      let same_row = row_at-keep_rows o test tables.rows h in
      let found = kept-eq-some test (row_at o tables.rows) row in
      let allowed = below_or_unconfirmed height row in
      (
        (λ k. let l = found.0 (sym same_row ∙ k) in (l.0, allowed.0 (l.1))),
        (λ k. same_row ∙ found.1 (k.0, allowed.1 (k.1))),
      ),
  omega (arith, length-keep_rows (λ row. not (above_reorg height row)) tables.rows),
  refl,
  refl,
)
