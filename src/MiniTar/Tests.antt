-- ===== src/MiniTar/Tests.antt =====
-- Runs of the archiver, and the theorems at concrete archives.
use sistemi_operativi.Prelude.{
  ℕ, ◌≡◌, refl, true, none, some, List, [], ◌∷◌, arith, update, replicate, length-replicate,
  if◌then◌else◌, All, suc, zero, ℕ_discrete,
}
use sistemi_operativi.Prelude.Int.{pos}
use sistemi_operativi.Prelude.Text.{str_eq}
use sistemi_operativi.MiniTar.{
  Bytes, FilePath, Header, Archive, Env, Outcome, ok, overrun, mini_tar, open_sources, open_source,
  tar_files, copy, extract, extract_entry, find_entry, dump, archive, found, header_size,
}
use sistemi_operativi.MiniTar.Sources.{IsSource}
use sistemi_operativi.MiniTar.RoundTrip.{extract-mini_tar, mini_tar_total, mini_tar_overrun}

abbrev name_f : FilePath
name_f = b'f' ∷ []

abbrev name_g : FilePath
name_g = b'g' ∷ []

abbrev name_t : FilePath
name_t = b't' ∷ []

abbrev two_files : Env
two_files = record {
  can_create = λ _. true;
  source = λ p.
      if str_eq p name_f
      then some (1 ∷ 2 ∷ [])
      else if str_eq p name_g
      then some (3 ∷ [])
      else none;
}

abbrev both : List FilePath
both = name_f ∷ name_g ∷ []

abbrev two_entries : Archive
two_entries = record {
  head = record {
    num_files = 2;
    file_names = update (update (λ _. []) 0 name_f) 1 name_g;
    start_position = update (update (λ _. pos 0) 0 (pos 17412)) 1 (pos 17414);
    end_position = update (update (λ _. pos 0) 0 (pos 17414)) 1 (pos 17415);
  };
  body = 1 ∷ 2 ∷ 3 ∷ [];
}

-- A layout of the header: any bytes of the right number.
abbrev blank : Header → Bytes
blank h = replicate header_size 0

mini_tar-both : mini_tar two_files name_t both ≡ ok two_entries
unfolding mini_tar open_sources open_source tar_files copy str_eq
mini_tar-both = refl

mini_tar_alone : mini_tar two_files name_t (name_t ∷ []) ≡ Outcome.endless
unfolding mini_tar open_sources open_source tar_files copy str_eq
mini_tar_alone = refl

extract-mini_tar_example : extract blank 0 (archive two_entries) name_g ≡ found (3 ∷ [])
unfolding str_eq
extract-mini_tar_example =
    extract-mini_tar blank 0 two_files name_t both 1 mini_tar-both refl refl
      (length-replicate {A = ℕ} header_size 0) (omega arith)

-- An unused entry of the header answers to the empty name.
extract_empty_name : extract blank 0 (archive two_entries) [] ≡ found []
unfolding extract find_entry extract_entry dump str_eq ℕ_discrete
extract_empty_name = refl

both-IsSource : All (IsSource two_files name_t) both
unfolding str_eq
both-IsSource = (
  record { bytes = 1 ∷ 2 ∷ []; reads = refl; other = refl; short = omega arith },
  (record { bytes = 3 ∷ []; reads = refl; other = refl; short = omega arith }, tt),
)

mini_tar_total_example : (a : Archive) × (mini_tar two_files name_t both ≡ ok a)
mini_tar_total_example =
    mini_tar_total two_files name_t both refl both-IsSource (omega arith) (omega arith)

copies-IsSource : (n : ℕ) → All (IsSource two_files name_t) (replicate n name_f)
unfolding str_eq
copies-IsSource zero = tt
copies-IsSource (suc n) = (both-IsSource.0, copies-IsSource n)

mini_tar_overrun_example : mini_tar two_files name_t (replicate 129 name_f) ≡ overrun
mini_tar_overrun_example =
    mini_tar_overrun two_files name_t (replicate 129 name_f) refl (copies-IsSource 129)
      (omega (arith, length-replicate {A = FilePath} 129 name_f))
