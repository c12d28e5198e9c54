-- ===== src/MiniTar/Entries.antt =====
-- What the header of a finished archive says of each source.
use sistemi_operativi.Prelude.{
  ℕ, zero, suc, ◌+◌, ◌≤◌, ◌<◌, ◌≡◌, refl, sym, ap, ◌∙◌, subst, some, List, [], ◌∷◌, ◌++◌, arith,
  length, take, drop, get_elem?, All, update, update_self, update_ne, length-append, take-append,
  drop-append, take-drop-append, append-nil, ◌≢◌,
}
use sistemi_operativi.Prelude.Int.{to_int}
use sistemi_operativi.MiniTar.{
  Bytes, Header, Archive, Outcome, ok, Descriptor, file, itself, header_size, tar_files,
}
use sistemi_operativi.MiniTar.Sources.{IsFile}
use sistemi_operativi.MiniTar.Copy.{copy_total}

-- Entry `j` describes a window of the body that holds the bytes `c`.
pub record Entry (h : Header) (body : Bytes) (j : ℕ) (c : Bytes) : Type 0 where
  pub offset : ℕ
  pub starts : h.start_position j ≡ to_int (header_size + offset)
  pub ends : h.end_position j ≡ to_int (header_size + offset + length c)
  pub fits : offset + length c ≤ length body
  pub holds : take (length c) (drop offset body) ≡ c

-- The header after one more file of `bytes` behind `body`.
abbrev entered : ℕ → Header → Bytes → Bytes → Header
entered i h bytes body = record h {
  start_position = update h.start_position i (to_int (header_size + length body));
  end_position = update h.end_position i (to_int (header_size + length (body ++ bytes)));
}

tar_files-cons :
    (bytes : Bytes) (ds : List Descriptor) (i : ℕ) (h : Header) (body : Bytes)
    → tar_files (file bytes ∷ ds) i h body
      ≡ tar_files ds (i + 1) (entered i h bytes body) (body ++ bytes)
unfolding tar_files
tar_files-cons bytes ds i h body =
    rw (copy_total (suc (length bytes)) bytes body (omega arith), tar_files) refl

not-tar_files-itself :
    (ds : List Descriptor) (i : ℕ) (h : Header) (body : Bytes) {a : Archive}
    → tar_files (itself ∷ ds) i h body ≡ ok a
    → ⊥
unfolding tar_files
not-tar_files-itself ds i h body e = cc

Entry-entered :
    (bytes : Bytes) (i : ℕ) (h : Header) (body : Bytes)
    → Entry (entered i h bytes body) (body ++ bytes) i bytes
Entry-entered bytes i h body = record {
  offset = length body;
  starts = update_self h.start_position i _;
  ends = update_self h.end_position i _ ∙ ap to_int (omega (arith, length-append body bytes));
  fits = omega (arith, length-append body bytes);
  holds = rw (drop-append (length body) body bytes refl) (
      ap (take (length bytes)) (sym (append-nil bytes)) ∙ take-append (length bytes) bytes [] refl);
}

Entry-append :
    {h : Header} {body : Bytes} {j : ℕ} {c : Bytes} (bytes : Bytes) (i : ℕ)
    → i ≢ j
    → Entry h body j c
    → Entry (entered i h bytes body) (body ++ bytes) j c
Entry-append {h} {body} {j} {c} bytes i ne e = record {
  offset = e.offset;
  starts = update_ne h.start_position i j _ ne ∙ e.starts;
  ends = update_ne h.end_position i j _ ne ∙ e.ends;
  fits = omega (arith, length-append body bytes, e.fits);
  holds = take-drop-append e.offset (length c) body bytes e.fits ∙ e.holds;
}

-- Later files leave the entries of the earlier ones alone.
pub Entry-kept :
    (ds : List Descriptor) (i : ℕ) (h : Header) (body : Bytes) {a : Archive} {j : ℕ} {c : Bytes}
    → tar_files ds i h body ≡ ok a
    → j < i
    → Entry h body j c
    → Entry a.head a.body j c
unfolding tar_files
Entry-kept [] i h body {a} {j} {c} e l en = subst (λ (x : Outcome Archive). Held x) e en
  where
    Held : Outcome Archive → Type 0
    Held (ok x) = Entry x.head x.body j c
    Held _ = Unit
Entry-kept (itself ∷ ds) i h body e l en = absurd (not-tar_files-itself ds i h body e)
Entry-kept (file bytes ∷ ds) i h body e l en =
    Entry-kept ds (i + 1) _ _ (sym (tar_files-cons bytes ds i h body) ∙ e) (omega arith)
      (Entry-append bytes i (omega arith) en)

-- The `k`-th descriptor's bytes are entry `i + k` of the archive.
pub tar_files-Entry :
    (ds : List Descriptor) (i : ℕ) (h : Header) (body : Bytes) {a : Archive} (k : ℕ) {c : Bytes}
    → tar_files ds i h body ≡ ok a
    → get_elem? ds k ≡ some (file c)
    → Entry a.head a.body (i + k) c
tar_files-Entry [] i h body k e g = absurd (cc)
tar_files-Entry (itself ∷ ds) i h body k e g = absurd (not-tar_files-itself ds i h body e)
tar_files-Entry (file bytes ∷ ds) i h body {a} zero {c} e g =
    subst (λ n. Entry a.head a.body n c) (omega arith)
      (subst (λ b. Entry a.head a.body i b) (cc)
        (Entry-kept ds (i + 1) _ _ (sym (tar_files-cons bytes ds i h body) ∙ e) (omega arith)
          (Entry-entered bytes i h body)))
tar_files-Entry (file bytes ∷ ds) i h body {a} (suc k) {c} e g =
    subst (λ n. Entry a.head a.body n c) (omega arith)
      (tar_files-Entry ds (i + 1) _ _ k (sym (tar_files-cons bytes ds i h body) ∙ e) g)

-- The names are those that the first loop has entered.
pub file_names-tar_files :
    (ds : List Descriptor) (i : ℕ) (h : Header) (body : Bytes) {a : Archive}
    → tar_files ds i h body ≡ ok a
    → a.head.file_names ≡ h.file_names
unfolding tar_files
file_names-tar_files [] i h body {a} e = subst (λ (x : Outcome Archive). Named x) e refl
  where
    Named : Outcome Archive → Type 0
    Named (ok x) = x.head.file_names ≡ h.file_names
    Named _ = Unit
file_names-tar_files (itself ∷ ds) i h body e = absurd (not-tar_files-itself ds i h body e)
file_names-tar_files (file bytes ∷ ds) i h body e =
    file_names-tar_files ds (i + 1) _ _ (sym (tar_files-cons bytes ds i h body) ∙ e)

-- An archive that is finished has no source that is the archive.
pub get_elem?-ne-itself :
    (ds : List Descriptor) (i : ℕ) (h : Header) (body : Bytes) {a : Archive} (k : ℕ)
    → tar_files ds i h body ≡ ok a
    → get_elem? ds k ≡ some itself
    → ⊥
get_elem?-ne-itself [] i h body k e g = cc
get_elem?-ne-itself (itself ∷ ds) i h body k e g = not-tar_files-itself ds i h body e
get_elem?-ne-itself (file bytes ∷ ds) i h body zero e g = cc
get_elem?-ne-itself (file bytes ∷ ds) i h body (suc k) e g =
    get_elem?-ne-itself ds (i + 1) _ _ k (sym (tar_files-cons bytes ds i h body) ∙ e) g

-- Sources that can be read are all copied, whatever their sizes.
pub tar_files_total :
    (ds : List Descriptor) (i : ℕ) (h : Header) (body : Bytes)
    → All IsFile ds
    → (a : Archive) × (tar_files ds i h body ≡ ok a)
unfolding tar_files
tar_files_total [] i h body plain = (_, refl)
tar_files_total (itself ∷ ds) i h body plain = absurd plain.0
tar_files_total (file bytes ∷ ds) i h body plain =
    let (a, e) = tar_files_total ds (i + 1) (entered i h bytes body) (body ++ bytes) plain.1 in
    (a, tar_files-cons bytes ds i h body ∙ e)
