-- ===== src/Pages/Rounds.antt =====
-- The loop of `main` of esercizio2(UNIX).c (Tutoraggio 9), and a release whose range wraps around.
use sistemi_operativi.Prelude.{
  ℕ, ◌+◌, ◌-◌, ◌%◌, ◌≤◌, ◌<◌, ◌≡◌, refl, false, ◌||◌, List, ◌∷◌, arith, inl, inr, ◌==◌, ltb,
  Bool-cases,
}
use sistemi_operativi.Pages.{
  word, Item, number, Allocator, Round, again, quit, mark, held, Mprotect, bytes, protect, release,
  free_from, scan,
}

-- The state in which a round ends.
abbrev pub after : Round → Allocator
after (again s) = s
after (quit s) = s

module _ (n_pages page_size : ℕ) (mprotect : Mprotect) where
  -- The end of a range that does not fit into an `unsigned` wraps around. A release of such a range
  -- passes the test and clears nothing in the bitmap, but `mprotect` is called with its length.
  pub release_wraps :
      (f c : ℕ) (rest : List Item) (s : Allocator)
      → f < n_pages
      → 0 < c
      → c < word
      → word ≤ f + c
      → let t = free_from n_pages page_size mprotect f (record s { input = number c ∷ rest }) in
        (t.page_bitmap ≡ s.page_bitmap)
        × (t.access ≡ (mprotect f (bytes n_pages page_size mprotect c) false s.access).1)
  unfolding free_from release protect scan held mark
  release_wraps f c rest s h p k o =
      let pass : (c == 0 || ltb n_pages ((f + c) % word)) ≡ false =
        ground (arith, h, p, k, o, wrapped) in
      let none_left : (f + c) % word - f ≡ 0 = omega (arith, k, o) in
      elim (Bool-cases (mprotect f (bytes n_pages page_size mprotect c) false s.access).0) [
        | inl z ↦ rw (pass, none_left, z) (refl, refl)
        | inr z ↦ rw (pass, none_left, z) (refl, refl)
      ]
    where
      wrapped : (f + c) % word ≤ f
      wrapped = omega (arith, k, o)
