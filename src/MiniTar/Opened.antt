-- ===== src/MiniTar/Opened.antt =====
-- The first loop of mini-tar.c: the names in the header and the open descriptors.
use sistemi_operativi.Prelude.{
  ℕ, zero, suc, ◌+◌, ◌≤◌, ◌<◌, ◌≡◌, refl, ap, ◌∙◌, some, List, [], ◌∷◌, leb, arith, length,
  get_elem?, update, Bool-cases, Option-cases, ◌⊎◌, inl, inr, update_self, update_ne,
}
use sistemi_operativi.Prelude.Text.{str_eq}
use sistemi_operativi.MiniTar.{
  file, itself, FilePath, Header, Env, Outcome, ok, usage, ◌>>=◌, Descriptor, open_source,
  open_sources, max_file_name_length, max_manageable_files,
}

-- A source that can be read is opened as itself, unless it is the archive.
pub open_source_cases :
    (env : Env) (dest name : FilePath) {bytes : List ℕ}
    → env.source name ≡ some bytes
    → (open_source env dest name ≡ some itself) ⊎ (open_source env dest name ≡ some (file bytes))
unfolding open_source
open_source_cases env dest name src = elim (Bool-cases (str_eq name dest)) [
  | inl same ↦ inl (rw same)
  | inr other ↦ inr (rw (other, src))
]

-- The header with one more name.
abbrev pub named : ℕ → Header → FilePath → Header
named n h path = record h { num_files = h.num_files + 1; file_names = update h.file_names n path }

-- One round of the loop that goes on.
record Round (env : Env) (dest path : FilePath) (paths : List FilePath) (n : ℕ) (h : Header)
    (r : Header × List Descriptor) : Type 0 where
  first : Descriptor
  rest : List Descriptor
  opened : open_source env dest path ≡ some first
  short : length path < max_file_name_length
  room : n < max_manageable_files
  later : open_sources env dest paths (n + 1) (named n h path) ≡ ok (r.0, rest)
  all : r.1 ≡ first ∷ rest

pub >>=-eq-ok :
    {A B : Type 0} (m : Outcome A) (f : A → Outcome B) {b : B}
    → (m >>= f) ≡ ok b
    → (a : A) × (m ≡ ok a) × (f a ≡ ok b)
>>=-eq-ok (ok a) f e = (a, refl, e)
>>=-eq-ok usage f e = absurd (cc)
>>=-eq-ok _ f e = absurd (cc)

module _ (env : Env) (dest path : FilePath) (paths : List FilePath) (n : ℕ) (h : Header) where
  Round-of :
      (d : Descriptor) (s r : Header × List Descriptor)
      → open_source env dest path ≡ some d
      → length path < max_file_name_length
      → n < max_manageable_files
      → open_sources env dest paths (n + 1) (named n h path) ≡ ok s
      → ok (s.0, d ∷ s.1) ≡ ok r
      → Round env dest path paths n h r
  Round-of d s r opened short room later all = record {
    first = d;
    rest = s.1;
    opened = opened;
    short = short;
    room = room;
    later = later ∙ cc;
    all = cc;
  }

  open_sources-Round :
      {r : Header × List Descriptor}
      → open_sources env dest (path ∷ paths) n h ≡ ok r
      → Round env dest path paths n h r
  unfolding open_sources
  open_sources-Round {r} e = elim (Bool-cases (leb max_file_name_length (length path))) [
    | inl long ↦ absurd (let e' = rw long at e in cc)
    | inr short ↦ elim (Bool-cases (leb max_manageable_files n)) [
      | inl full ↦ absurd (let e' = rw (short, full) at e in cc)
      | inr room ↦ elim (Option-cases (open_source env dest path)) [
        | inl closed ↦ absurd (let e' = rw (short, room, closed) at e in cc)
        | inr (d, opened) ↦
            let (s, later, all) =
              >>=-eq-ok (open_sources env dest paths (n + 1) (named n h path))
                (λ s. ok (s.0, d ∷ s.1)) (rw (short, room, opened) at e) in
            Round-of d s r opened (ground arith) (ground arith) later all
      ]
    ]
  ]

-- What the loop leaves when all its sources are open.
pub record Opened (env : Env) (dest : FilePath) (paths : List FilePath) (n : ℕ) (h : Header)
    (r : Header × List Descriptor) : Type 0 where
  pub names : (k : ℕ) {p : FilePath} → get_elem? paths k ≡ some p → r.0.file_names (n + k) ≡ p
  pub before : (j : ℕ) → j < n → r.0.file_names j ≡ h.file_names j
  pub after : (j : ℕ) → n + length paths ≤ j → r.0.file_names j ≡ h.file_names j
  pub reads :
      (k : ℕ) {p : FilePath} → get_elem? paths k ≡ some p → get_elem? r.1 k ≡ open_source env dest p
  pub few : (n ≤ max_manageable_files) → n + length paths ≤ max_manageable_files
  pub counts : r.0.num_files ≡ h.num_files + length paths

module _ (env : Env) (dest path : FilePath) (paths : List FilePath) (n : ℕ) (h : Header)
    {r : Header × List Descriptor} (round : Round env dest path paths n h r)
    (o : Opened env dest paths (n + 1) (named n h path) (r.0, round.rest)) where
  names_cons :
      (k : ℕ) {p : FilePath} → get_elem? (path ∷ paths) k ≡ some p → r.0.file_names (n + k) ≡ p
  names_cons zero g =
      ap r.0.file_names (omega arith)
      ∙ o.before n (omega arith)
      ∙ update_self h.file_names n path
      ∙ cc
  names_cons (suc k) g = ap r.0.file_names (omega arith) ∙ o.names k g

  reads_cons :
      (k : ℕ) {p : FilePath}
      → get_elem? (path ∷ paths) k ≡ some p
      → get_elem? r.1 k ≡ open_source env dest p
  reads_cons zero {p} g = rw round.all (cc round.opened)
  reads_cons (suc k) g = rw round.all (o.reads k g)

  Opened-cons : Opened env dest (path ∷ paths) n h r
  Opened-cons = record {
    names = λ k g. names_cons k g;
    before = λ j l. o.before j (omega arith) ∙ update_ne h.file_names n j path (omega arith);
    after = λ j l. o.after j (omega arith) ∙ update_ne h.file_names n j path (omega arith);
    reads = λ k g. reads_cons k g;
    few = λ l. omega (arith, o.few (omega (arith, round.room)));
    counts = omega (arith, o.counts);
  }

pub open_sources-Opened :
    (env : Env) (dest : FilePath) (paths : List FilePath) (n : ℕ) (h : Header)
    {r : Header × List Descriptor}
    → open_sources env dest paths n h ≡ ok r
    → Opened env dest paths n h r
unfolding open_sources
open_sources-Opened env dest [] n h {r} e = record {
  names = λ k g. absurd (cc);
  before = λ j l. ap (λ (x : Header). x.file_names j) head;
  after = λ j l. ap (λ (x : Header). x.file_names j) head;
  reads = λ k g. absurd (cc);
  few = λ l. omega arith;
  counts = omega (arith, ap (λ (x : Header). x.num_files) head);
}
  where
    head : r.0 ≡ h
    head = cc
open_sources-Opened env dest (path ∷ paths) n h {r} e =
    let round : Round env dest path paths n h r = open_sources-Round env dest path paths n h e in
    Opened-cons env dest path paths n h round
      (open_sources-Opened env dest paths (n + 1) (named n h path) round.later)
