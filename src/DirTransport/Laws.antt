-- ===== src/DirTransport/Laws.antt =====
-- Each sender's messages are handed over in order, none skipped and none twice.
use kiss_bdk.Shared.Input.{is_empty}
use kiss_bdk.DirTransport.{
  Entry, Cursor, pending, expected, largest, has_sent, next_number, next_time, receive_all,
  is_empty,
}
use kiss_bdk.Common.{
  ℕ, Bytes, List, [], ◌∷◌, ◌++◌, true, false, if◌then◌else◌, ◌==◌, ◌+◌, ◌%◌, ◌^◌, ◌<◌, same, insert,
  lookup-insert, ◌≡◌, refl, sym, ap, ◌∙◌, subst, inl, inr, Bool-cases, same-≡, ==_iff, arith, All,
  All-append,
}

-- The messages of one sender.
abbrev pub from_sender : Bytes → List Entry → List Entry
from_sender x [] = []
from_sender x (entry ∷ entries) =
    let rest = from_sender x entries in if same entry.sender x then entry ∷ rest else rest

-- Numbered one after another from `n` on, and `m` is next.
abbrev pub Consecutive : ℕ → List Entry → ℕ → Type 0
Consecutive n [] m = m ≡ n
Consecutive n (entry ∷ entries) m = (entry.number ≡ n) × Consecutive ((n + 1) % 2 ^ 64) entries m

expected-insert :
    (x y : Bytes) (n : ℕ) (cursor : Cursor)
    → expected x (insert y n cursor) ≡ (if same y x then n else expected x cursor)
expected-insert x y n cursor = elim (Bool-cases (same y x)) [
  | inl e ↦ rw (lookup-insert y x n cursor, e) refl
  | inr e ↦ rw (lookup-insert y x n cursor, e) refl
]

expected-insert_same :
    (x y : Bytes) (cursor : Cursor)
    → expected x (insert y (expected y cursor) cursor) ≡ expected x cursor
expected-insert_same x y cursor = elim (Bool-cases (same y x)) [
  | inl e ↦
      expected-insert x y (expected y cursor) cursor
      ∙ rw e refl
      ∙ ap (λ s. expected s cursor) (same-≡ y x e)
  | inr e ↦ expected-insert x y (expected y cursor) cursor ∙ rw e refl
]

pending-Consecutive :
    (x me : Bytes) (cursor : Cursor) (entries : List Entry)
    → Consecutive
        (expected x cursor)
        (from_sender x (pending me cursor entries).0)
        (expected x (pending me cursor entries).1)
unfolding pending
pending-Consecutive x me cursor [] = refl
pending-Consecutive x me cursor (entry ∷ entries) =
    let next = expected entry.sender cursor in
    elim (Bool-cases (same entry.sender me)) [
      | inl mine ↦ rw mine (pending-Consecutive x me cursor entries)
      | inr theirs ↦ elim (Bool-cases (entry.number == next)) [
        | inl due ↦
            let after = insert entry.sender ((next + 1) % 2 ^ 64) cursor in
            let ih = pending-Consecutive x me after entries in
            elim (Bool-cases (same entry.sender x)) [
              | inl here ↦
                  let same_sender = same-≡ entry.sender x here in
                  let start : expected x after ≡ (next + 1) % 2 ^ 64 =
                    expected-insert x entry.sender _ cursor ∙ rw here refl in
                  let n : next ≡ expected x cursor = ap (λ s. expected s cursor) same_sender in
                  rw (theirs, due, here)
                    (
                      (==_iff entry.number next).0 due ∙ n,
                      subst
                          (λ k.
                            Consecutive k (from_sender x (pending me after entries).0)
                              (expected x (pending me after entries).1))
                          (start ∙ ap (λ k. (k + 1) % 2 ^ 64) n) ih,
                    )
              | inr there ↦
                  let start : expected x after ≡ expected x cursor =
                    expected-insert x entry.sender _ cursor ∙ rw there refl in
                  rw (theirs, due, there)
                    (subst
                      (λ k.
                        Consecutive k (from_sender x (pending me after entries).0)
                          (expected x (pending me after entries).1))
                      start ih)
            ]
        | inr early ↦
            let after = insert entry.sender next cursor in
            let ih = pending-Consecutive x me after entries in
            let start : expected x after ≡ expected x cursor =
              expected-insert_same x entry.sender cursor in
            rw (theirs, early)
              (subst
                (λ k.
                  Consecutive k (from_sender x (pending me after entries).0)
                    (expected x (pending me after entries).1))
                start ih)
      ]
    ]

from_sender-append :
    (x : Bytes) (entries more : List Entry)
    → from_sender x (entries ++ more) ≡ from_sender x entries ++ from_sender x more
from_sender-append x [] more = refl
from_sender-append x (entry ∷ entries) more = elim (Bool-cases (same entry.sender x)) [
  | inl e ↦ rw e (ap (λ r. entry ∷ r) (from_sender-append x entries more))
  | inr e ↦ rw e (from_sender-append x entries more)
]

Consecutive-append :
    (n m k : ℕ) (entries more : List Entry)
    → Consecutive n entries m
    → Consecutive m more k
    → Consecutive n (entries ++ more) k
Consecutive-append n m k [] more e c = subst (λ j. Consecutive j more k) e c
Consecutive-append n m k (entry ∷ entries) more (here, rest) c =
    (here, Consecutive-append ((n + 1) % 2 ^ 64) m k entries more rest c)

-- A participant never hears itself.
abbrev pub NotFrom : Bytes → List Entry → Type 0
NotFrom me entries = All (λ entry. same entry.sender me ≡ false) entries

pending-NotFrom :
    (me : Bytes) (cursor : Cursor) (entries : List Entry) → NotFrom me (pending me cursor entries).0
unfolding pending
pending-NotFrom me cursor [] = tt
pending-NotFrom me cursor (entry ∷ entries) =
    let next = expected entry.sender cursor in
    elim (Bool-cases (same entry.sender me)) [
      | inl mine ↦ rw mine (pending-NotFrom me cursor entries)
      | inr theirs ↦ elim (Bool-cases (entry.number == next)) [
        | inl due ↦
            rw (theirs, due)
              (
                theirs,
                pending-NotFrom me (insert entry.sender ((next + 1) % 2 ^ 64) cursor) entries,
              )
        | inr early ↦
            rw (theirs, early) (pending-NotFrom me (insert entry.sender next cursor) entries)
      ]
    ]

-- Over any number of calls, whatever files the folder holds at each and in whatever order they came to
-- be there: no message of the participant itself is handed to it, and the messages of every sender are
-- handed over in the order of their numbers, from the one that the cursor expected at the start,
-- without a gap and without a repetition.
pub receive_all-Consecutive :
    (x me : Bytes) (cursor : Cursor) (folders : List (List Entry))
    → NotFrom me (receive_all me cursor folders).0
      × Consecutive
          (expected x cursor)
          (from_sender x (receive_all me cursor folders).0)
          (expected x (receive_all me cursor folders).1)
unfolding receive_all
receive_all-Consecutive x me cursor [] = (tt, refl)
receive_all-Consecutive x me cursor (entries ∷ folders) =
    let ready = pending me cursor entries in
    elim (Bool-cases (is_empty ready.0)) [
      | inl none_ready ↦ rw none_ready (receive_all-Consecutive x me cursor folders)
      | inr some_ready ↦
          let rest = receive_all me ready.1 folders in
          let (apart, further) = receive_all-Consecutive x me ready.1 folders in
          rw some_ready (
            All-append (λ entry. same entry.sender me ≡ false) ready.0 rest.0
                (pending-NotFrom me cursor entries) apart,
            subst (λ r. Consecutive (expected x cursor) r (expected x rest.1))
                (sym (from_sender-append x ready.0 rest.0))
                (Consecutive-append (expected x cursor) (expected x ready.1) (expected x rest.1)
                  (from_sender x ready.0) (from_sender x rest.0)
                  (pending-Consecutive x me cursor entries) further),
          )
    ]

-- No message of a sender has a larger number or time.
abbrev pub AllBelow : (Entry → ℕ) → Bytes → ℕ → List Entry → Type 0
AllBelow part me n entries = All (λ entry. same entry.sender me ≡ true → part entry < n) entries

largest-AllBelow :
    (part : Entry → ℕ) (me : Bytes) (n : ℕ) (entries : List Entry)
    → largest part me entries < n
    → AllBelow part me n entries
largest-AllBelow part me n [] h = tt
largest-AllBelow part me n (entry ∷ entries) h =
    (λ mine. ground arith, largest-AllBelow part me n entries (ground arith))

has_sent-AllBelow :
    (part : Entry → ℕ) (me : Bytes) (n : ℕ) (entries : List Entry)
    → has_sent me entries ≡ false
    → AllBelow part me n entries
has_sent-AllBelow part me n [] h = tt
has_sent-AllBelow part me n (entry ∷ entries) h = elim (Bool-cases (same entry.sender me)) [
  | inl e ↦ absurd (let k = rw e at h in cc)
  | inr e ↦ (λ mine. absurd cc, has_sent-AllBelow part me n entries (rw e at h))
]

-- While a sender's numbers and times have not come to the end of 64 bits, and whatever the clock says:
-- the message that it sends next has a larger number and a later time than each of its messages.
pub next_above :
    (me : Bytes) (now : ℕ) (entries : List Entry)
    → largest (λ entry. entry.number) me entries + 1 < 2 ^ 64
    → largest (λ entry. entry.time) me entries + 1 < 2 ^ 64
    → AllBelow (λ entry. entry.number) me (next_number me entries) entries
      × AllBelow (λ entry. entry.time) me (next_time me now entries) entries
unfolding next_number next_time
next_above me now entries n t = (
  largest-AllBelow (λ entry. entry.number) me _ entries (omega arith),
  elim (Bool-cases (has_sent me entries)) [
    | inl e ↦ rw e (largest-AllBelow (λ entry. entry.time) me _ entries (ground arith))
    | inr e ↦ rw e (has_sent-AllBelow (λ entry. entry.time) me now entries e)
  ],
)
