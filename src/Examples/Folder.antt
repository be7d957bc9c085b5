-- ===== src/Examples/Folder.antt =====
-- A folder in which one file arrives before the one that it follows.
use kiss_bdk.DirTransport.{Entry, receive_all, pending, expected, next_number, next_time}
use kiss_bdk.DirTransport.Laws.{
  NotFrom, Consecutive, from_sender, AllBelow, receive_all-Consecutive, next_above,
}
use kiss_bdk.Common.{Bytes, List, [], ◌∷◌, arith, refl, ◌≡◌, Bytes-discrete}

abbrev anna : Bytes
anna = 97 ∷ []

abbrev bob : Bytes
bob = 98 ∷ []

abbrev first_file : Entry
first_file = record { time = 100; sender = anna; number = 1; text = 1 ∷ [] }

abbrev second_file : Entry
second_file = record { time = 200; sender = anna; number = 2; text = 2 ∷ [] }

-- The second file alone, then both, then both again.
abbrev folders : List (List Entry)
folders =
    (second_file ∷ []) ∷ (first_file ∷ second_file ∷ []) ∷ (first_file ∷ second_file ∷ []) ∷ []

both_once : (receive_all bob [] folders).0 ≡ first_file ∷ second_file ∷ []
unfolding receive_all pending Bytes-discrete
both_once = refl

receive_all-Consecutive_example :
    NotFrom bob (receive_all bob [] folders).0
    × Consecutive
        (expected anna [])
        (from_sender anna (receive_all bob [] folders).0)
        (expected anna (receive_all bob [] folders).1)
receive_all-Consecutive_example = receive_all-Consecutive anna bob [] folders

-- The clock has gone back.
next_above_example :
    AllBelow
      (λ entry. entry.number)
      anna
      (next_number anna (first_file ∷ second_file ∷ []))
      (first_file ∷ second_file ∷ [])
    × AllBelow
        (λ entry. entry.time)
        anna
        (next_time anna 50 (first_file ∷ second_file ∷ []))
        (first_file ∷ second_file ∷ [])
unfolding Bytes-discrete
next_above_example = next_above anna 50 (first_file ∷ second_file ∷ []) (omega arith) (omega arith)
