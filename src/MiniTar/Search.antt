-- ===== src/MiniTar/Search.antt =====
-- The search of extract.c for a name among the entries of the header.
use sistemi_operativi.Prelude.{
  ℕ, zero, suc, ◌+◌, ◌≤◌, ◌<◌, ◌≡◌, ◌≢◌, refl, sym, ap, ◌∙◌, true, none, some, arith, Bool-cases,
  inl, inr,
}
use sistemi_operativi.Prelude.Text.{str_eq, eq_of_str_eq, str_eq_refl}
use sistemi_operativi.MiniTar.{FilePath, Header, find_entry}

-- The first entry with the name, where there is one.
pub record First (n i : ℕ) (h : Header) (name : FilePath) (k : ℕ) : Type 0 where
  pub index : ℕ
  pub finds : find_entry n i h name ≡ some index
  pub named : h.file_names index ≡ name
  pub early : index ≤ i + k

pub find_entry-First :
    (n i : ℕ) (h : Header) (name : FilePath) (k : ℕ)
    → k < n
    → h.file_names (i + k) ≡ name
    → First n i h name k
unfolding find_entry
find_entry-First zero i h name k l e = absurd (omega arith)
find_entry-First (suc n) i h name zero l e = record {
  index = i;
  finds = rw here;
  named = at_i;
  early = omega arith;
}
  where
    at_i : h.file_names i ≡ name
    at_i = ap h.file_names (omega arith) ∙ e

    here : str_eq name (h.file_names i) ≡ true
    here = rw at_i (str_eq_refl name)
find_entry-First (suc n) i h name (suc k) l e = elim (Bool-cases (str_eq name (h.file_names i))) [
  | inl t ↦ record {
    index = i;
    finds = rw t;
    named = sym (eq_of_str_eq name (h.file_names i) t);
    early = omega arith;
  }
  | inr f ↦
      let later : First n (i + 1) h name k =
        find_entry-First n (i + 1) h name k (omega arith) (ap h.file_names (omega arith) ∙ e) in
      record {
        index = later.index;
        finds = rw f later.finds;
        named = later.named;
        early = omega (arith, later.early);
      }
]

-- A name that no entry has is not found.
pub find_entry-none :
    (n i : ℕ) (h : Header) (name : FilePath)
    → ((j : ℕ) → h.file_names j ≢ name)
    → find_entry n i h name ≡ none
unfolding find_entry
find_entry-none zero i h name no_entry = refl
find_entry-none (suc n) i h name no_entry = elim (Bool-cases (str_eq name (h.file_names i))) [
  | inl t ↦ absurd (no_entry i (sym (eq_of_str_eq name (h.file_names i) t)))
  | inr f ↦ rw f (find_entry-none n (i + 1) h name no_entry)
]
