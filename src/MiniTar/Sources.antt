-- ===== src/MiniTar/Sources.antt =====
-- The sources that the first loop of mini-tar.c opens, and one too many.
use sistemi_operativi.Prelude.{
  ℕ, ◌+◌, ◌≤◌, ◌<◌, ◌≡◌, refl, ◌∙◌, some, List, [], ◌∷◌, leb, arith, length, true, false, All,
  dec_lt,
}
use sistemi_operativi.Prelude.Text.{str_eq}
use sistemi_operativi.MiniTar.{
  file, itself, overrun, FilePath, Header, Env, ok, ◌>>=◌, Descriptor, open_source, open_sources,
  max_file_name_length, max_manageable_files,
}
use sistemi_operativi.MiniTar.Opened.{named}

-- A file that can be read, under a name that fits the header, and that is not the archive.
pub record IsSource (env : Env) (dest path : FilePath) : Type 0 where
  pub bytes : List ℕ
  pub reads : env.source path ≡ some bytes
  pub other : str_eq path dest ≡ false
  pub short : length path < max_file_name_length

open_source_file :
    (env : Env) (dest path : FilePath) (src : IsSource env dest path)
    → open_source env dest path ≡ some (file src.bytes)
unfolding open_source
open_source_file env dest path src = rw (src.other, src.reads)

open_sources-cons :
    (env : Env) (dest path : FilePath) (paths : List FilePath) (n : ℕ) (h : Header)
    (src : IsSource env dest path)
    → n < max_manageable_files
    → open_sources env dest (path ∷ paths) n h ≡ (
        open_sources env dest paths (n + 1) (named n h path) >>= λ r.
        ok (r.0, file src.bytes ∷ r.1))
unfolding open_sources
open_sources-cons env dest path paths n h src room =
    rw
      (
        not_long (length path) src.short,
        not_long n room,
        open_source_file env dest path src,
        open_sources,
      )
      refl
  where
    not_long : (m : ℕ) → m < 128 → leb 128 m ≡ false
    not_long m l = ground arith

-- The descriptor is not the archive's.
abbrev pub IsFile : Descriptor → Type 0
IsFile (file bytes) = Unit
IsFile itself = ⊥

-- Up to 128 such sources are opened.
pub open_sources_total :
    (env : Env) (dest : FilePath) (paths : List FilePath) (n : ℕ) (h : Header)
    → All (IsSource env dest) paths
    → n + length paths ≤ max_manageable_files
    → (r : Header × List Descriptor) × (open_sources env dest paths n h ≡ ok r) × All IsFile r.1
unfolding open_sources
open_sources_total env dest [] n h src few = (_, refl, tt)
open_sources_total env dest (path ∷ paths) n h src few =
    let (r, e, files) =
      open_sources_total env dest paths (n + 1) (named n h path) src.1 (omega arith) in
    (
      (r.0, file src.0.bytes ∷ r.1),
      open_sources-cons env dest path paths n h src.0 (omega arith) ∙ rw e,
      (tt, files),
    )

-- One more runs over the end of `descriptors`.
pub open_sources_overrun :
    (env : Env) (dest : FilePath) (paths : List FilePath) (n : ℕ) (h : Header)
    → All (IsSource env dest) paths
    → n ≤ max_manageable_files
    → max_manageable_files < n + length paths
    → open_sources env dest paths n h ≡ overrun
unfolding open_sources
open_sources_overrun env dest [] n h src le many = absurd (omega arith)
open_sources_overrun env dest (path ∷ paths) n h src le many =
    elim (dec_lt n max_manageable_files) [
      | yes l ↦
          open_sources-cons env dest path paths n h src.0 l
          ∙ rw (
              open_sources_overrun env dest paths (n + 1) (named n h path) src.1 (omega arith)
                (omega arith))
      | no ge ↦ rw (not_long src.0.short, full {m = n} (omega arith)) refl
    ]
  where
    not_long : {m : ℕ} → m < 128 → leb 128 m ≡ false
    not_long l = ground arith

    full : {m : ℕ} → 128 ≤ m → leb 128 m ≡ true
    full l = ground arith
