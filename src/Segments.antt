-- ===== src/Segments.antt =====
-- Esami pratici/prova-pratica-18-7-2018/prog-A-solution.c: each child copies the words of its file into
-- a shared segment of 4096 bytes (`child_function`), the parent waits for all of them (`main`), and on
-- SIGINT prints the words that stand in the segments (`handler`).
pub mod Scan
pub mod Store
pub mod Replay
pub mod Barrier
mod Tests
use sistemi_operativi.Prelude.{
  ℕ, zero, suc, ◌+◌, Bool, ◌&&◌, ◌||◌, Option, none, some, List, [], ◌∷◌, ◌++◌, leb, ◌==◌,
  if◌then◌else◌, length, take, drop, replicate,
}
use sistemi_operativi.Prelude.Text.{c_string}

abbrev pub segment_size : ℕ
segment_size = 4096

-- `isspace` in the C locale: what `%s` skips, and where it stops.
pub is_space : ℕ → Bool
is_space b = (leb 9 b && leb b 13) || b == 32

pub skip_space : List ℕ → List ℕ
skip_space [] = []
skip_space (b ∷ bytes) = let rest = skip_space bytes in if is_space b then rest else b ∷ bytes

-- The word at the front and what follows it.
pub take_word : List ℕ → List ℕ × List ℕ
take_word [] = ([], [])
take_word (b ∷ bytes) =
    let (w, rest) = take_word bytes in if is_space b then ([], b ∷ bytes) else (b ∷ w, rest)

pub word_at : List ℕ → Option (List ℕ × List ℕ)
word_at [] = none
word_at (b ∷ bytes) = some (take_word (b ∷ bytes))

-- `fscanf(f, "%s", …)`: the word and the unread bytes, `none` for EOF.
pub fscanf : List ℕ → Option (List ℕ × List ℕ)
fscanf bytes = word_at (skip_space bytes)

-- A write of bytes at an offset; `none` if it leaves the segment.
pub write_at : ℕ → List ℕ → List ℕ → Option (List ℕ)
write_at offset bytes memory =
    if leb (offset + length bytes) (length memory)
    then some (take offset memory ++ (bytes ++ drop (offset + length bytes) memory))
    else none

-- A child in its loop: the unread bytes of its file, its segment, and the offset of `segment` in it.
pub record Child : Type 0 where
  pub unread : List ℕ
  pub memory : List ℕ
  pub offset : ℕ

-- A child after some rounds: in its loop, behind it (it has posted its semaphore), without a file
-- (`fdopen error`), or stopped by an access outside of its segment.
pub data Run : Type 0 where
  going : Child → Run
  posted : Child → Run
  no_file : Run
  fault : Child → Run

-- The loop of `child_function`, for a number of rounds.
pub child_loop : ℕ → Child → Run
child_loop zero c = going c
child_loop (suc k) c = elim (fscanf c.unread) [
  | none ↦ posted c
  | some (word, unread) ↦ elim (write_at c.offset (word ++ (0 ∷ [])) c.memory) [
    | none ↦ fault c
    | some memory ↦ elim (c_string (drop c.offset memory)) [
      | none ↦ fault c
      | some s ↦
          child_loop k
            (record { unread = unread; memory = memory; offset = c.offset + length s + 1 })
    ]
  ]
]

-- `child_function` after a number of rounds, on the file at `argv[i]` if it can be opened.
pub child_function : ℕ → Option (List ℕ) → Run
child_function k none = no_file
child_function k (some bytes) =
    child_loop k (record { unread = bytes; memory = replicate segment_size 0; offset = 0 })

-- The segment that the parent sees.
abbrev pub segment : Run → List ℕ
segment (going c) = c.memory
segment (posted c) = c.memory
segment no_file = replicate segment_size 0
segment (fault c) = c.memory

-- What a walk of `handler` over the strings of a segment comes to: the lines printed, a read behind
-- the segment, or the end of the fuel.
pub data Shown : Type 0 where
  lines : List (List ℕ) → Shown
  behind : Shown
  unfinished : Shown

abbrev pub print_before : List (List ℕ) → Shown → Shown
print_before ls (lines ms) = lines (ls ++ ms)
print_before ls behind = behind
print_before ls unfinished = unfinished

-- The inner loop of `handler`, from a pointer on.
pub show : ℕ → List ℕ → Shown
show zero memory = unfinished
show (suc fuel) memory = elim (c_string memory) [
  | none ↦ behind
  | some [] ↦ lines []
  | some (b ∷ s) ↦ print_before ((b ∷ s) ∷ []) (show fuel (drop (length (b ∷ s) + 1) memory))
]

-- The outer loop of `handler`, over the segments.
pub handler : List (List ℕ) → Shown
handler [] = lines []
handler (memory ∷ memories) = elim (show segment_size memory) [
  | lines ls ↦ print_before ls (handler memories)
  | behind ↦ behind
  | unfinished ↦ unfinished
]

-- How often the semaphore has been raised.
pub posts : List Run → ℕ
posts [] = 0
posts (posted c ∷ runs) = suc (posts runs)
posts (_ ∷ runs) = posts runs

-- `semop` of the parent with `-(argc-1)`: whether it has returned.
pub parent_passes : List Run → Bool
parent_passes runs = leb (length runs) (posts runs)
