-- ===== src/MiniTar.antt =====
-- The archiver of SO esempi/4_VIRTUAL-FILE-SYSTEM/UNIX/mini-tar: mini-tar.h, mini-tar.c (`mini_tar`)
-- and extract.c (`extract`).
pub mod Copy
pub mod Entries
pub mod Opened
pub mod Sources
pub mod RoundTrip
pub mod Search
mod Tests
use sistemi_operativi.Prelude.{
  ℕ, zero, suc, ◌+◌, ◌-◌, Bool, Option, none, some, List, [], ◌∷◌, ◌++◌, leb, if◌then◌else◌, length,
  take, drop, update,
}
use sistemi_operativi.Prelude.Int.{ℤ, pos, negsuc, to_int}
use sistemi_operativi.Prelude.Text.{str_eq}

abbrev pub Bytes : Type 0
Bytes = List ℕ

abbrev pub FilePath : Type 0
FilePath = List ℕ

abbrev pub bufsize : ℕ
bufsize = 1024

abbrev pub max_manageable_files : ℕ
max_manageable_files = 128

abbrev pub max_file_name_length : ℕ
max_file_name_length = 128

-- sizeof(header): one `int`, 128 names of 128 bytes, two arrays of 128 `int`s.
abbrev pub header_size : ℕ
header_size = 17412

-- `struct _header`. An array is the family of its entries, a name the bytes before its NUL.
pub record Header : Type 0 where
  pub num_files : ℕ
  pub file_names : ℕ → FilePath
  pub start_position : ℕ → ℤ
  pub end_position : ℕ → ℤ

-- The global `tar_head`, which is zeroed.
abbrev pub tar_head : Header
tar_head = record {
  num_files = 0;
  file_names = λ _. [];
  start_position = λ _. pos 0;
  end_position = λ _. pos 0;
}

-- The archive file: the header, then the bytes written behind it.
pub record Archive : Type 0 where
  pub head : Header
  pub body : Bytes

-- What the programs ask of the file system.
pub record Env : Type 0 where
  pub can_create : FilePath → Bool
  pub source : FilePath → Option Bytes

-- How a run of mini-tar ends. `overrun` is the write behind `descriptors[127]`, and `endless` the
-- copy of the archive into itself, whose `read` never meets the end of the file.
pub data Outcome (A : Type 0) : Type 0 where
  ok : A → Outcome A
  usage cannot_create name_too_long no_access overrun endless : Outcome A

infixl 5 ◌>>=◌
abbrev pub ◌>>=◌ : {A B : Type 0} → Outcome A → (A → Outcome B) → Outcome B
ok a >>= f = f a
usage >>= f = usage
cannot_create >>= f = cannot_create
name_too_long >>= f = name_too_long
no_access >>= f = no_access
overrun >>= f = overrun
endless >>= f = endless

-- What a descriptor of a source reads: its bytes, or the archive that is being written.
pub data Descriptor : Type 0 where
  file : Bytes → Descriptor
  itself : Descriptor

pub open_source : Env → FilePath → FilePath → Option Descriptor
open_source env dest path =
    if str_eq path dest
    then some itself
    else elim (env.source path) [ none ↦ none | some bytes ↦ some (file bytes) ]

-- The first `for` loop, from `i - 2 = n` on: the header and `descriptors`.
pub open_sources : Env → FilePath → List FilePath → ℕ → Header → Outcome (Header × List Descriptor)
open_sources env dest [] n h = ok (h, [])
open_sources env dest (path ∷ paths) n h =
    if leb max_file_name_length (length path)
    then name_too_long
    else if leb max_manageable_files n
    then overrun
    else elim (open_source env dest path) [
      | none ↦ no_access
      | some d ↦
          open_sources env dest paths (n + 1)
            (record h { num_files = h.num_files + 1; file_names = update h.file_names n path })
          >>= λ r. ok (r.0, d ∷ r.1)
    ]

-- The `do … while (size > 0)` loop: `rest` is unread, `body` is what stands behind the header.
-- `none` means that the fuel ran out.
pub copy : ℕ → Bytes → Bytes → Option Bytes
copy zero rest body = none
copy (suc fuel) rest body =
    let chunk = take bufsize rest in
    let again = copy fuel (drop bufsize rest) (body ++ chunk) in
    if leb (length chunk) 0 then some (body ++ chunk) else again

-- The second `for` loop, from index `i` on.
pub tar_files : List Descriptor → ℕ → Header → Bytes → Outcome Archive
tar_files [] i h body = ok (record { head = h; body = body })
tar_files (itself ∷ ds) i h body = endless
tar_files (file bytes ∷ ds) i h body = elim (copy (suc (length bytes)) bytes body) [
  | none ↦ endless
  | some body' ↦
      tar_files ds (i + 1)
        (record h {
          start_position = update h.start_position i (to_int (header_size + length body));
          end_position = update h.end_position i (to_int (header_size + length body'));
        })
        body'
]

-- `main` of mini-tar.c: argv[1] is `dest`, the rest are the sources. The header is rewritten at
-- offset 0 when the positions are known.
pub mini_tar : Env → FilePath → List FilePath → Outcome Archive
mini_tar env dest [] = usage
mini_tar env dest (path ∷ paths) =
    if env.can_create dest
    then (open_sources env dest (path ∷ paths) 0 tar_head >>= λ r. tar_files r.1 0 r.0 [])
    else cannot_create

-- The search loop of extract.c over the entries from `i` on.
pub find_entry : ℕ → ℕ → Header → FilePath → Option ℕ
find_entry zero i h name = none
find_entry (suc n) i h name =
    let rest = find_entry n (i + 1) h name in if str_eq name (h.file_names i) then some i else rest

-- `for (; seek < file_end; seek++)`: how many rounds it takes.
abbrev pub rounds : ℤ → ℤ → ℕ
rounds (pos s) (pos e) = e - s
rounds (pos s) (negsuc e) = 0
rounds (negsuc s) (pos e) = e + s + 1
rounds (negsuc s) (negsuc e) = s - e

-- `read` a byte into `c`, write `c`. At the end of the file `c` keeps its value.
pub dump : ℕ → Bytes → ℕ → Bytes
dump zero rest c = []
dump (suc n) [] c = c ∷ dump n [] c
dump (suc n) (b ∷ rest) c = b ∷ dump n rest b

-- Where the reads begin and where `seek` does: a negative offset makes `lseek` return -1 and leaves
-- the file behind the header.
abbrev pub seek_to : ℤ → ℕ × ℤ
seek_to (pos s) = (s, pos s)
seek_to (negsuc s) = (header_size, negsuc 0)

-- How a run of extract ends: what it wrote to standard output behind its messages.
pub data Extracted : Type 0 where
  open_error no_header not_found : Extracted
  found : Bytes → Extracted

-- What the program finds at argv[1].
pub data Stored : Type 0 where
  missing short : Stored
  archive : Archive → Stored

-- `image` is the layout of the header in the file, and `c` the first value of the variable `c`.
module _ (image : Header → Bytes) (c : ℕ) where
  -- What is written for the file of entry `i`.
  pub extract_entry : Archive → ℕ → Bytes
  extract_entry a i =
      let (from, seek) = seek_to (a.head.start_position i) in
      dump (rounds seek (a.head.end_position i)) (drop from (image a.head ++ a.body)) c

  -- `main` of extract.c.
  pub extract : Stored → FilePath → Extracted
  extract missing name = open_error
  extract short name = no_header
  extract (archive a) name = elim (find_entry max_manageable_files 0 a.head name) [
    | none ↦ not_found
    | some i ↦ found (extract_entry a i)
  ]
