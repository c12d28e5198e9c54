-- ===== src/Pages.antt =====
-- Tutoraggio SO/Tutoraggio 9/esercizio2(UNIX).c: an allocator of runs of pages, with a bitmap and the
-- protection of the pages, driven by numbers from standard input. The protection is `mprotect`, a
-- parameter with its laws in IsLawful.
pub mod Search
pub mod Ranges
pub mod Safety
pub mod Rounds
pub mod Windows
mod Tests
use sistemi_operativi.Prelude.{
  ℕ, zero, suc, ◌+◌, ◌-◌, ◌*◌, ◌%◌, ◌^◌, ◌≤◌, ◌<◌, ◌≡◌, Bool, true, false, ◌||◌, ◌⊎◌, Option, none,
  some, List, [], ◌∷◌, ltb, leb, ◌==◌, update, if◌then◌else◌,
}

-- `unsigned`
abbrev pub word : ℕ
word = 2 ^ 32

-- What `scanf("%u")` meets: a number, or something that is none.
pub data Item : Type 0 where
  number : ℕ → Item
  junk : Item

-- `scanf` returns 0, or it does not, with the value of the variable then and the input that is left. At
-- the end of the input it returns -1 and leaves the variable; something that is no number stays there.
pub data Scan : Type 0 where
  refused : Scan
  scanned : ℕ → List Item → Scan

pub scan : List Item → ℕ → Scan
scan [] v = scanned v []
scan (number u ∷ rest) v = scanned u rest
scan (junk ∷ rest) v = refused

-- `page_bitmap`, whether the kernel lets a page be accessed, the variables of `main`, and the input. `torn`
-- (which the program does not keep) is 1 for the pages of a call of `mprotect` that failed, until a later
-- call on them succeeds.
pub record Allocator : Type 0 where
  pub page_bitmap : ℕ → ℕ
  pub access : ℕ → Bool
  pub torn : ℕ → ℕ
  pub answer : ℕ
  pub first : ℕ
  pub contiguous : ℕ
  pub input : List Item

-- How a round of the loop of `main` ends: the loop goes on, or it is left.
pub data Round : Type 0 where
  again : Allocator → Round
  quit : Allocator → Round

-- The inner loop from `j` on, with the rounds left: the first `j` with an allocated page.
pub blocked : (ℕ → ℕ) → ℕ → ℕ → ℕ → Option ℕ
blocked b i j zero = none
blocked b i j (suc left) =
    let rest = blocked b i (j + 1) left in if b (i + j) == 1 then some j else rest

-- The loop that frees or marks pages, from `i` on.
pub mark : (ℕ → ℕ) → ℕ → ℕ → ℕ → ℕ → ℕ
mark b i zero v = b
mark b i (suc left) v = mark (update b i v) (i + 1) left v

-- Whether all pages from `i` on are allocated.
pub held : (ℕ → ℕ) → ℕ → ℕ → Bool
held b i zero = true
held b i (suc left) = let rest = held b (i + 1) left in if b i == 0 then false else rest

-- `mprotect` on the mapping of the pages: from which page on, how many bytes, the new access, and the
-- access before; whether it succeeds, and the access then.
abbrev pub Mprotect : Type 0
Mprotect = ℕ → ℕ → Bool → (ℕ → Bool) → Bool × (ℕ → Bool)

-- The outer loop from `i` on, with fuel: where the search ends with `found`.
pub search : ℕ → ℕ → (ℕ → ℕ) → ℕ → ℕ → Option ℕ
search n_pages zero b contiguous i = none
search n_pages (suc fuel) b contiguous i =
    if ltb i (n_pages - contiguous)
    then elim (b i == 0) [
      | true ↦ elim (blocked b i 0 contiguous) [
        | none ↦ some i
        | some j ↦ search n_pages fuel b contiguous (i + j + 1 + 1)
      ]
      | false ↦ search n_pages fuel b contiguous (i + 1)
    ]
    else none

-- N_PAGES, what getpagesize gives, and `mprotect`.
module _ (n_pages page_size : ℕ) (mprotect : Mprotect) where
  -- What the program relies on: a call that succeeds sets the pages with a byte in its range; no call
  -- changes another page. A call that fails may have set some of the pages in its range.
  pub record IsLawful : Type 0 where
    pub inside :
        (first size : ℕ) (a : Bool) (access : ℕ → Bool) (p : ℕ)
        → (mprotect first size a access).0 ≡ true
        → first ≤ p
        → p * page_size < first * page_size + size
        → (mprotect first size a access).1 p ≡ a
    pub outside :
        (first size : ℕ) (a : Bool) (access : ℕ → Bool) (p : ℕ)
        → (p < first) ⊎ (first * page_size + size ≤ p * page_size)
        → (mprotect first size a access).1 p ≡ access p

  -- The bytes of `contiguous` pages, an `unsigned`.
  abbrev pub bytes : ℕ → ℕ
  bytes contiguous = (contiguous * page_size) % word

  -- The pages from `first` on get an access, and the bitmap a value, if `mprotect` succeeds.
  pub protect : ℕ → ℕ → ℕ → Bool → ℕ → Allocator → Allocator
  protect first contiguous left a v s =
      let (done, access') = mprotect first (bytes contiguous) a s.access in
      if done
      then record s {
        page_bitmap = mark s.page_bitmap first left v;
        access = access';
        torn = mark s.torn first left 0;
      }
      else record s { access = access'; torn = mark s.torn first contiguous 1 }

  -- The request of `contiguous` pages that are at most N_PAGES.
  pub allocate : ℕ → Allocator → Allocator
  allocate contiguous s = elim (search n_pages n_pages s.page_bitmap contiguous 0) [
    | none ↦ s
    | some i ↦ protect i contiguous contiguous true 1 s
  ]

  -- The release of `contiguous` pages from `first` on; the end of the range is an `unsigned`.
  pub release : ℕ → ℕ → Allocator → Allocator
  release first contiguous s =
      let left = (first + contiguous) % word - first in
      if held s.page_bitmap first left then protect first contiguous left false 0 s else s

  -- Behind `answer == 1`.
  pub request : Allocator → Allocator
  request s = elim (scan s.input s.contiguous) [
    | refused ↦ s
    | scanned c rest ↦
        let s' = record s { contiguous = c; input = rest } in
        if c == 0 || ltb n_pages c then s' else allocate c s'
  ]

  -- Behind `answer == 2`, and behind its test of the bitmap.
  pub free_from : ℕ → Allocator → Allocator
  free_from first s = elim (scan s.input s.contiguous) [
    | refused ↦ s
    | scanned c rest ↦
        let s' = record s { contiguous = c; input = rest } in
        if c == 0 || ltb n_pages ((first + c) % word) then s' else release first c s'
  ]

  pub free : Allocator → Allocator
  free s = elim (scan s.input s.first) [
    | refused ↦ s
    | scanned f rest ↦
        let s' = record s { first = f; input = rest } in
        if leb n_pages f || s'.page_bitmap f == 0 then s' else free_from f s'
  ]

  -- What `main` does with the answer; the dump of the bitmap changes nothing.
  pub choose : ℕ → Allocator → Round
  choose answer s =
      if answer == 1
      then again (request s)
      else if answer == 2
      then again (free s)
      else if answer == 4
      then quit s
      else again s

  pub round : Allocator → Round
  round s = elim (scan s.input s.answer) [
    | refused ↦ again s
    | scanned v rest ↦ choose v (record s { answer = v; input = rest })
  ]

  -- That many rounds of the loop, or fewer.
  pub rounds : ℕ → Allocator → Round
  rounds zero s = again s
  rounds (suc k) s = elim (round s) [ quit t ↦ quit t | again t ↦ rounds k t ]

-- What `main` begins with; the variables are not initialised.
abbrev pub start : ℕ → ℕ → ℕ → List Item → Allocator
start answer first contiguous input = record {
  page_bitmap = λ i. 0;
  access = λ i. false;
  torn = λ i. 0;
  answer = answer;
  first = first;
  contiguous = contiguous;
  input = input;
}
