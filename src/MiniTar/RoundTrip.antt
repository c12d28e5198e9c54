-- ===== src/MiniTar/RoundTrip.antt =====
-- Archives that `mini_tar` makes, read by `extract`.
use sistemi_operativi.Prelude.{
  ℕ, ◌+◌, ◌-◌, ◌^◌, ◌≤◌, ◌<◌, ◌≡◌, ◌≢◌, refl, sym, ap, ap₂, dec_lt, All, ◌∙◌, subst, true, none,
  some, List, [], ◌∷◌, ◌++◌, arith, length, take, drop, get_elem?, Bool-cases, inl, inr,
  drop-append_add, get_elem?-IsSome, lt-length_of_get_elem?, length-drop,
}
use sistemi_operativi.Prelude.Int.{to_int_small}
use sistemi_operativi.MiniTar.{
  Bytes, FilePath, Header, tar_head, Archive, Env, ok, overrun, Descriptor, header_size,
  open_sources, tar_files, mini_tar, find_entry, dump, extract, extract_entry, archive, found,
  not_found, max_manageable_files,
}
use sistemi_operativi.MiniTar.Copy.{dump-eq-take}
use sistemi_operativi.MiniTar.Entries.{
  Entry, tar_files-Entry, file_names-tar_files, get_elem?-ne-itself, tar_files_total,
}
use sistemi_operativi.MiniTar.Search.{First, find_entry-First, find_entry-none}
use sistemi_operativi.MiniTar.Opened.{Opened, open_sources-Opened, open_source_cases, >>=-eq-ok}
use sistemi_operativi.MiniTar.Sources.{IsSource, open_sources_total, open_sources_overrun}

-- The two loops of a run that ends with an archive.
record Run (env : Env) (dest : FilePath) (paths : List FilePath) (a : Archive) : Type 0 where
  opened : Header × List Descriptor
  first : Opened env dest paths 0 tar_head opened
  second : tar_files opened.1 0 opened.0 [] ≡ ok a
  names : a.head.file_names ≡ opened.0.file_names

mini_tar-Run :
    (env : Env) (dest : FilePath) (paths : List FilePath) {a : Archive}
    → mini_tar env dest paths ≡ ok a
    → Run env dest paths a
unfolding mini_tar
mini_tar-Run env dest [] e = absurd (cc)
mini_tar-Run env dest (path ∷ paths) e = elim (Bool-cases (env.can_create dest)) [
  | inl t ↦
      let (r, first, second) =
        >>=-eq-ok (open_sources env dest (path ∷ paths) 0 tar_head) (λ r. tar_files r.1 0 r.0 [])
          (rw t at e) in
      record {
        opened = r;
        first = open_sources-Opened env dest (path ∷ paths) 0 tar_head first;
        second = second;
        names = file_names-tar_files r.1 0 r.0 [] second;
      }
  | inr f ↦ absurd (let e' = rw f at e in cc)
]

-- Entry `j` holds the bytes of the source with index `j`.
Entry-source :
    (env : Env) (dest : FilePath) (paths : List FilePath) {a : Archive} (run : Run env dest paths a)
    (j : ℕ) {name : FilePath} {bytes : Bytes}
    → get_elem? paths j ≡ some name
    → env.source name ≡ some bytes
    → Entry a.head a.body j bytes
Entry-source env dest paths {a} run j {name} {bytes} g src =
    elim (open_source_cases env dest name src) [
      | inl own ↦ absurd (
          get_elem?-ne-itself run.opened.1 0 run.opened.0 [] j run.second
            (run.first.reads j g ∙ own))
      | inr plain ↦
          subst (λ n. Entry a.head a.body n bytes) (omega arith)
            (tar_files-Entry run.opened.1 0 run.opened.0 [] j run.second
              (run.first.reads j g ∙ plain))
    ]

-- The bytes between two offsets behind a prefix.
dump_window :
    (front body : Bytes) (offset n c : ℕ)
    → offset + n ≤ length body
    → dump
        (length front + offset + n - (length front + offset))
        (drop (length front + offset) (front ++ body))
        c
      ≡ take n (drop offset body)
dump_window front body offset n c h =
    ap₂ (λ k l. dump k l c) (omega arith) (drop-append_add front body offset)
    ∙ dump-eq-take n (drop offset body) c (omega (arith, length-drop offset body))

module _ (image : Header → Bytes) (c : ℕ) where
  -- The bytes of an entry whose offsets fit an `int`.
  extract_entry-Entry :
      (a : Archive) (j : ℕ) {bytes : Bytes}
      → Entry a.head a.body j bytes
      → length (image a.head) ≡ header_size
      → header_size + length a.body < 2 ^ 31
      → extract_entry image c a j ≡ bytes
  unfolding extract_entry
  extract_entry-Entry a j {bytes} en size small =
      rw
        (
          en.starts,
          to_int_small (header_size + en.offset) (omega (arith, en.fits)),
          en.ends,
          to_int_small (header_size + en.offset + length bytes) (omega (arith, en.fits)),
        )
        (subst
          (λ s.
            dump (s + en.offset + length bytes - (s + en.offset))
              (drop (s + en.offset) (image a.head ++ a.body)) c
            ≡ bytes)
          size (dump_window (image a.head) a.body en.offset (length bytes) c en.fits ∙ en.holds))

  extract-found :
      (a : Archive) (name : FilePath) (j : ℕ)
      → find_entry max_manageable_files 0 a.head name ≡ some j
      → extract image c (archive a) name ≡ found (extract_entry image c a j)
  unfolding extract
  extract-found a name j e = rw (e, extract) refl

  extract-not_found :
      (a : Archive) (name : FilePath)
      → find_entry max_manageable_files 0 a.head name ≡ none
      → extract image c (archive a) name ≡ not_found
  unfolding extract
  extract-not_found a name e = rw (e, extract) refl

  -- Every source of an archive is extracted with the bytes that it had: if `mini_tar` ends with an
  -- archive of less than 2^31 bytes, and a header takes `header_size` bytes of it, then `extract`
  -- with the name of any source finds the contents of that source.
  pub extract-mini_tar :
      (env : Env) (dest : FilePath) (paths : List FilePath) (k : ℕ) {a : Archive} {name : FilePath}
      {bytes : Bytes}
      → mini_tar env dest paths ≡ ok a
      → get_elem? paths k ≡ some name
      → env.source name ≡ some bytes
      → length (image a.head) ≡ header_size
      → header_size + length a.body < 2 ^ 31
      → extract image c (archive a) name ≡ found bytes
  extract-mini_tar env dest paths k {a} {name} e g src size small =
      extract-found a name j at_k.finds
      ∙ ap found (extract_entry-Entry a j (Entry-source env dest paths run j at_j src) size small)
    where
      run : Run env dest paths a
      run = mini_tar-Run env dest paths e

      at_k : First max_manageable_files 0 a.head name k
      at_k =
          find_entry-First max_manageable_files 0 a.head name k
            (omega (arith, run.first.few (omega arith), lt-length_of_get_elem? paths k g))
            (ap (λ f. f (0 + k)) run.names ∙ run.first.names k g)

      j : ℕ
      j = at_k.index

      at_j : get_elem? paths j ≡ some name
      at_j =
          let l : j < length paths = omega (arith, at_k.early, lt-length_of_get_elem? paths k g) in
          let (p, e) = get_elem?-IsSome paths j l in
          e
          ∙ ap some (
              sym (run.first.names j e)
              ∙ sym (ap (λ f. f (0 + j)) run.names)
              ∙ ap a.head.file_names (omega arith)
              ∙ at_k.named)

  -- A name that is none of the sources is not found, but for the empty name, which an unused entry
  -- of the header has.
  extract-mini_tar_unknown :
      (env : Env) (dest : FilePath) (paths : List FilePath) {a : Archive} {name : FilePath}
      → mini_tar env dest paths ≡ ok a
      → ((k : ℕ) → get_elem? paths k ≢ some name)
      → name ≢ []
      → extract image c (archive a) name ≡ not_found
  extract-mini_tar_unknown env dest paths {a} {name} e unknown filled =
      extract-not_found a name (find_entry-none max_manageable_files 0 a.head name no_entry)
    where
      run : Run env dest paths a
      run = mini_tar-Run env dest paths e

      no_entry : (j : ℕ) → a.head.file_names j ≢ name
      no_entry j h = elim (dec_lt j (length paths)) [
        | yes l ↦
            let (p, at_j) = get_elem?-IsSome paths j l in
            unknown j (
              at_j
              ∙ ap some (
                  sym (run.first.names j at_j)
                  ∙ sym (ap (λ f. f (0 + j)) run.names)
                  ∙ ap a.head.file_names (omega arith)
                  ∙ h))
        | no ge ↦ filled (sym h ∙ ap (λ f. f j) run.names ∙ run.first.after j (omega arith))
      ]

-- One to 128 sources are always archived: with enough fuel the run ends with an archive.
pub mini_tar_total :
    (env : Env) (dest : FilePath) (paths : List FilePath)
    → env.can_create dest ≡ true
    → All (IsSource env dest) paths
    → 0 < length paths
    → length paths ≤ max_manageable_files
    → (a : Archive) × (mini_tar env dest paths ≡ ok a)
unfolding mini_tar
mini_tar_total env dest [] can src some_path few = absurd (omega arith)
mini_tar_total env dest (path ∷ paths) can src some_path few =
    let (r, opened, files) =
      open_sources_total env dest (path ∷ paths) 0 tar_head src (omega arith) in
    let (a, done) = tar_files_total r.1 0 r.0 [] files in (a, rw (can, opened) done)

-- When the archive can be created and there are more than 128 sources, each of which can be opened, is not
-- the archive, and has a name that fits into its array, the run writes behind the end of `descriptors`:
-- the number of arguments is not tested.
pub mini_tar_overrun :
    (env : Env) (dest : FilePath) (paths : List FilePath)
    → env.can_create dest ≡ true
    → All (IsSource env dest) paths
    → max_manageable_files < length paths
    → mini_tar env dest paths ≡ overrun
unfolding mini_tar
mini_tar_overrun env dest [] can src many = absurd (omega arith)
mini_tar_overrun env dest (path ∷ paths) can src many =
    rw
      (can, open_sources_overrun env dest (path ∷ paths) 0 tar_head src (omega arith) (omega arith))
