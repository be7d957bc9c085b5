-- ===== src/DirTransport.antt =====
-- src/dirtransport.rs: the channel that is a folder: message files, and the cursor of a participant.
-- The folder is the list of its message files in name order (`entries`, sorted), each with its
-- contents; reading and writing files is the file system's part.
pub mod Laws
use kiss_bdk.Shared.Input.{is_empty, unwrap_or}
use kiss_bdk.Common.{
  ℕ, Bytes, Option, none, some, List, [], ◌∷◌, ◌++◌, Result, ok, err, Bool, true, false,
  if◌then◌else◌, ◌==◌, ◌+◌, ltb, leb, same, lookup, insert, length, map, ◌&&◌, ◌||◌, all, not,
  codes, ◌*◌, ◌%◌, ◌-◌, ◌^◌,
}

-- A message file's name, taken apart.
pub record Entry : Type 0 where
  pub time : ℕ
  pub sender : Bytes
  pub number : ℕ
  pub text : Bytes

-- A participant's name ends up inside file names.
abbrev pub is_name_byte : ℕ → Bool
is_name_byte c =
    (leb b'0' c && leb c b'9')
    || (leb b'a' c && leb c b'z')
    || (leb b'A' c && leb c b'Z')
    || c == b'_'

unfoldable pub valid_participant : Bytes → Bool
valid_participant participant = not (is_empty participant) && all is_name_byte participant

-- `stem.split('-')`
abbrev pub split_dash : Bytes → List Bytes
split_dash [] = [] ∷ []
split_dash (c ∷ cs) = let rest = split_dash cs in if c == b'-' then [] ∷ rest else cons_first c rest
  where
    cons_first : ℕ → List Bytes → List Bytes
    cons_first c [] = (c ∷ []) ∷ []
    cons_first c (part ∷ parts) = (c ∷ part) ∷ parts

abbrev pub is_digit : ℕ → Bool
is_digit c = leb b'0' c && leb c b'9'

-- `str::parse::<u64>`, after the optional plus sign that it allows.
abbrev pub digits_from : ℕ → Bytes → Option ℕ
digits_from value [] = some value
digits_from value (c ∷ cs) =
    let next = value * 10 + (c - b'0') in
    let rest = digits_from next cs in if is_digit c && ltb next (2 ^ 64) then rest else none

abbrev pub parse_u64 : Bytes → Option ℕ
parse_u64 [] = none
parse_u64 (c ∷ cs) =
    if c == b'+'
    then (elim cs as (λ x. Option ℕ) [ [] ↦ none | d ∷ ds ↦ digits_from 0 cs ])
    else digits_from 0 (c ∷ cs)

-- The three parts of a stem: the time, the sender and the number.
unfoldable pub parse_parts : List Bytes → Option (ℕ × Bytes × ℕ)
parse_parts (time ∷ sender ∷ number ∷ []) = elim (parse_u64 time) as (λ x. Option (ℕ × Bytes × ℕ)) [
  | none ↦ none
  | some t ↦ elim (parse_u64 number) as (λ x. Option (ℕ × Bytes × ℕ)) [
    | none ↦ none
    | some n ↦ if is_empty sender then none else some (t, sender, n)
  ]
]
parse_parts _ = none

-- `<time>-<sender>-<number>`: the stem of a `.msg` file's name.
unfoldable pub parse_stem : Bytes → Option (ℕ × Bytes × ℕ)
parse_stem stem = parse_parts (split_dash stem)

-- The next number that is expected from each sender.
abbrev pub Cursor : Type 0
Cursor = List (Bytes × ℕ)

-- `*cursor.entry(sender).or_insert(1)`
abbrev pub expected : Bytes → Cursor → ℕ
expected sender cursor = unwrap_or (lookup sender cursor) 1

-- The loop of `pending`. Looking a sender up puts it into the cursor.
unfoldable pub pending : Bytes → Cursor → List Entry → List Entry × Cursor
pending me cursor [] = ([], cursor)
pending me cursor (entry ∷ entries) =
    if same entry.sender me
    then pending me cursor entries
    else (let next = expected entry.sender cursor in
        if entry.number == next
        then (let rest = pending me (insert entry.sender ((next + 1) % 2 ^ 64) cursor) entries in
            (entry ∷ rest.0, rest.1))
        else pending me (insert entry.sender next cursor) entries)

-- What a call of `receive` returns, once files are there, and the cursor that it has written.
unfoldable pub receive_ready : Bytes → Cursor → List Entry → List Bytes × Cursor
receive_ready me cursor entries =
    let ready = pending me cursor entries in
    if is_empty ready.0 then ([], cursor) else (map (λ entry. entry.text) ready.0, ready.1)

-- The messages of one call after another, whatever the folder holds at each: a call that finds none
-- leaves the cursor alone.
unfoldable pub receive_all : Bytes → Cursor → List (List Entry) → List Entry × Cursor
receive_all me cursor [] = ([], cursor)
receive_all me cursor (entries ∷ folders) =
    let ready = pending me cursor entries in
    if is_empty ready.0
    then receive_all me cursor folders
    else (let rest = receive_all me ready.1 folders in (ready.0 ++ rest.0, rest.1))

-- The largest of a sender's numbers or times, 0 without any.
abbrev pub largest : (Entry → ℕ) → Bytes → List Entry → ℕ
largest part me [] = 0
largest part me (entry ∷ entries) =
    let rest = largest part me entries in
    if same entry.sender me && ltb rest (part entry) then part entry else rest

abbrev pub has_sent : Bytes → List Entry → Bool
has_sent me [] = false
has_sent me (entry ∷ entries) = same entry.sender me || has_sent me entries

-- The number and the time of the next message: never below the sender's last one.
unfoldable pub next_number : Bytes → List Entry → ℕ
next_number me entries = (largest (λ entry. entry.number) me entries + 1) % 2 ^ 64

unfoldable pub next_time : Bytes → ℕ → List Entry → ℕ
next_time me now entries =
    if has_sent me entries
    then (let after = (largest (λ entry. entry.time) me entries + 1) % 2 ^ 64 in
        if ltb now after then after else now)
    else now
