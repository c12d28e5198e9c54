-- ===== src/Pages/Safety.antt =====
-- The bitmap and the protection of the pages of esercizio2(UNIX).c (Tutoraggio 9) in the rounds of `main`.
use sistemi_operativi.Prelude.{
  ℕ, ◌+◌, ◌-◌, ◌*◌, ◌%◌, ◌≤◌, ◌<◌, ◌≡◌, refl, ◌∙◌, Bool, true, false, ◌||◌, List, [], ◌∷◌, All,
  arith, ◌⊎◌, inl, inr, ◌==◌, ltb, leb, Bool-cases, Option-cases, dec_lt, if◌then◌else◌,
}
use sistemi_operativi.Pages.{
  word, Item, number, junk, Allocator, mark, held, Mprotect, search, IsLawful, bytes, protect,
  allocate, release, request, free_from, free, refused, scanned, scan,
}
use sistemi_operativi.Pages.Search.{search_sound}
use sistemi_operativi.Pages.Ranges.{mark_in, mark_out, bytes_in, bytes_out, bytes_fit}

-- A page is free and not accessible, or allocated and accessible.
abbrev pub Entry : ℕ → Bool → Type 0
Entry v a = ((v ≡ 0) × (a ≡ false)) ⊎ ((v ≡ 1) × (a ≡ true))

-- Or the last call of `mprotect` with the page in its range has failed.
abbrev pub Kept : ℕ → ℕ → Bool → Type 0
Kept torn v a = (torn ≡ 1) ⊎ Entry v a

Kept-same : {t t' v v' : ℕ} {a a' : Bool} → t' ≡ t → v' ≡ v → a' ≡ a → Kept t v a → Kept t' v' a'
Kept-same o e q (inl z) = inl (o ∙ z)
Kept-same o e q (inr (inl (z, y))) = inr (inl (e ∙ z, q ∙ y))
Kept-same o e q (inr (inr (z, y))) = inr (inr (e ∙ z, q ∙ y))

-- A number that can be added to the index of a page.
abbrev pub Small : ℕ → Item → Type 0
Small n_pages (number u) = u + n_pages < word
Small n_pages junk = Unit

pub record Sound (n_pages : ℕ) (s : Allocator) : Type 0 where
  pub entries : (p : ℕ) → p < n_pages → Kept (s.torn p) (s.page_bitmap p) (s.access p)
  pub variable : s.contiguous + n_pages < word
  pub items : All (Small n_pages) s.input

-- What `scanf` gives in a sound state.
pub scan-cases :
    (n_pages : ℕ) (input : List Item) (v : ℕ)
    → All (Small n_pages) input
    → (scan input v ≡ refused)
      ⊎ ((c : ℕ) × ((rest : List Item) × ((scan input v ≡ scanned c rest)
              × (All (Small n_pages) rest × ((c ≡ v) ⊎ (c + n_pages < word))))))
unfolding scan
scan-cases n_pages [] v a = inr (v, ([], (refl, (tt, inl refl))))
scan-cases n_pages (number u ∷ rest) v a = inr (u, (rest, (refl, (a.1, inr a.0))))
scan-cases n_pages (junk ∷ rest) v a = inl refl

module _ (n_pages page_size : ℕ) (mprotect : Mprotect) (law : IsLawful n_pages page_size mprotect)
    (positive : 0 < page_size) (fits : n_pages * page_size < word) where
  protect-Sound :
      (f c : ℕ) (a : Bool) (v : ℕ) (s : Allocator)
      → f + c ≤ n_pages
      → Entry v a
      → Sound n_pages s
      → Sound n_pages (protect n_pages page_size mprotect f c c a v s)
  unfolding protect
  protect-Sound f c a v s h entry sound =
      elim (Bool-cases (mprotect f (bytes n_pages page_size mprotect c) a s.access).0) [
        | inl e ↦ rw (e) (record {
          entries = λ p l. granted e p l;
          variable = sound.variable;
          items = sound.items;
        })
        | inr e ↦ rw (e) (record {
          entries = λ p l. refused_at p l;
          variable = sound.variable;
          items = sound.items;
        })
      ]
    where
      size : bytes n_pages page_size mprotect c ≡ c * page_size
      size = bytes_fit page_size c n_pages word (omega (arith, h)) fits

      -- A page that is not in the range.
      away :
          (w : ℕ) (b : ℕ → ℕ) (p : ℕ)
          → p < n_pages
          → b p ≡ s.page_bitmap p
          → (p < f) ⊎ (f + c ≤ p)
          → Kept
              (mark s.torn f c w p)
              (b p)
              ((mprotect f (bytes n_pages page_size mprotect c) a s.access).1 p)
      away w b p l e o =
          Kept-same (mark_out s.torn f c w p o) e
            (law.outside f (bytes n_pages page_size mprotect c) a s.access p (out o))
            (sound.entries p l)
        where
          out :
              (p < f) ⊎ (f + c ≤ p)
              → (p < f) ⊎ (f * page_size + bytes n_pages page_size mprotect c ≤ p * page_size)
          out (inl k) = inl k
          out (inr k) = inr (omega (arith, size, bytes_out page_size f c p k))

      refused_at :
          (p : ℕ)
          → p < n_pages
          → Kept
              (mark s.torn f c 1 p)
              (s.page_bitmap p)
              ((mprotect f (bytes n_pages page_size mprotect c) a s.access).1 p)
      refused_at p l = elim (dec_lt p f) [
        | yes k ↦ away 1 s.page_bitmap p l refl (inl k)
        | no k ↦ elim (dec_lt p (f + c)) [
          | yes k' ↦ inl (mark_in s.torn f c 1 p (omega (arith, k)) k')
          | no k' ↦ away 1 s.page_bitmap p l refl (inr (omega (arith, k')))
        ]
      ]

      granted :
          (mprotect f (bytes n_pages page_size mprotect c) a s.access).0 ≡ true
          → (p : ℕ) → p < n_pages
          → Kept
              (mark s.torn f c 0 p)
              (mark s.page_bitmap f c v p)
              ((mprotect f (bytes n_pages page_size mprotect c) a s.access).1 p)
      granted e p l = elim (dec_lt p f) [
        | yes k ↦
            away 0 (mark s.page_bitmap f c v) p l (mark_out s.page_bitmap f c v p (inl k)) (inl k)
        | no k ↦ elim (dec_lt p (f + c)) [
          | yes k' ↦
              Kept-same {t = mark s.torn f c 0 p} refl
                (mark_in s.page_bitmap f c v p (omega (arith, k)) k')
                (law.inside f (bytes n_pages page_size mprotect c) a s.access p e (omega (arith, k))
                  (omega (arith, size, bytes_in page_size f c p positive k')))
                (inr entry)
          | no k' ↦
              let o : f + c ≤ p = omega (arith, k') in
              away 0 (mark s.page_bitmap f c v) p l (mark_out s.page_bitmap f c v p (inr o)) (inr o)
        ]
      ]

  pub allocate-Sound :
      (c : ℕ) (s : Allocator)
      → 0 < c
      → Sound n_pages s
      → Sound n_pages (allocate n_pages page_size mprotect c s)
  unfolding allocate
  allocate-Sound c s p sound = elim (Option-cases (search n_pages n_pages s.page_bitmap c 0)) [
    | inl e ↦ rw (e, allocate) sound
    | inr (w, e) ↦
        let (h, free) = search_sound n_pages s.page_bitmap c p e in
        rw (e, allocate) (protect-Sound w c true 1 s (omega (arith, h)) (inr (refl, refl)) sound)
  ]

  pub release-Sound :
      (f c : ℕ) (s : Allocator)
      → f + c ≤ n_pages
      → f + c < word
      → Sound n_pages s
      → Sound n_pages (release n_pages page_size mprotect f c s)
  unfolding release
  release-Sound f c s h k sound =
      let left : (f + c) % word - f ≡ c = omega (arith, k) in
      rw (left) (released (Bool-cases (held s.page_bitmap f c)))
    where
      released :
          (held s.page_bitmap f c ≡ true) ⊎ (held s.page_bitmap f c ≡ false)
          → Sound n_pages (
              if held s.page_bitmap f c
              then protect n_pages page_size mprotect f c c false 0 s
              else s)
      released (inl e) = rw (e) (protect-Sound f c false 0 s h (inl (refl, refl)) sound)
      released (inr e) = rw (e) sound

  pub request-Sound :
      (s : Allocator) → Sound n_pages s → Sound n_pages (request n_pages page_size mprotect s)
  unfolding request
  request-Sound s sound = elim (scan-cases n_pages s.input s.contiguous sound.items) [
    | inl e ↦ rw (e, request) sound
    | inr (c, (rest, (e, (items, small)))) ↦
        rw (e, request)
          (requested c rest items (omega (arith, small, sound.variable))
            (Bool-cases (c == 0 || ltb n_pages c)))
  ]
    where
      requested :
          (c : ℕ) (rest : List Item)
          → All (Small n_pages) rest
          → c + n_pages < word
          → ((c == 0 || ltb n_pages c) ≡ true) ⊎ ((c == 0 || ltb n_pages c) ≡ false)
          → Sound n_pages (
              let s' = record s { contiguous = c; input = rest } in
              if c == 0 || ltb n_pages c then s' else allocate n_pages page_size mprotect c s')
      requested c rest items small (inl e) =
          rw (e) (record { entries = sound.entries; variable = small; items = items })
      requested c rest items small (inr e) = rw (e) (
          allocate-Sound c (record s { contiguous = c; input = rest }) (ground (arith, e))
            (record { entries = sound.entries; variable = small; items = items }))

  free_from-Sound :
      (f : ℕ) (s : Allocator)
      → f < n_pages
      → Sound n_pages s
      → Sound n_pages (free_from n_pages page_size mprotect f s)
  unfolding free_from
  free_from-Sound f s h sound = elim (scan-cases n_pages s.input s.contiguous sound.items) [
    | inl e ↦ rw (e, free_from) sound
    | inr (c, (rest, (e, (items, small)))) ↦
        rw (e, free_from)
          (freed c rest items (omega (arith, small, sound.variable))
            (Bool-cases (c == 0 || ltb n_pages ((f + c) % word))))
  ]
    where
      freed :
          (c : ℕ) (rest : List Item)
          → All (Small n_pages) rest
          → c + n_pages < word
          → ((c == 0 || ltb n_pages ((f + c) % word)) ≡ true)
            ⊎ ((c == 0 || ltb n_pages ((f + c) % word)) ≡ false)
          → Sound n_pages (
              let s' = record s { contiguous = c; input = rest } in
              if c == 0 || ltb n_pages ((f + c) % word)
              then s'
              else release n_pages page_size mprotect f c s')
      freed c rest items small (inl e) =
          rw (e) (record { entries = sound.entries; variable = small; items = items })
      freed c rest items small (inr e) =
          let sum : (f + c) % word ≡ f + c = omega (arith, small, h) in
          rw (e) (
            release-Sound f c (record s { contiguous = c; input = rest }) (ground (arith, e, sum))
              (omega (arith, small, h))
              (record { entries = sound.entries; variable = small; items = items }))

  pub free-Sound :
      (s : Allocator) → Sound n_pages s → Sound n_pages (free n_pages page_size mprotect s)
  unfolding free
  free-Sound s sound = elim (scan-cases n_pages s.input s.first sound.items) [
    | inl e ↦ rw (e, free) sound
    | inr (f, (rest, (e, (items, small)))) ↦
        rw (e, free) (freed f rest items (Bool-cases (leb n_pages f || s.page_bitmap f == 0)))
  ]
    where
      freed :
          (f : ℕ) (rest : List Item)
          → All (Small n_pages) rest
          → ((leb n_pages f || s.page_bitmap f == 0) ≡ true)
            ⊎ ((leb n_pages f || s.page_bitmap f == 0) ≡ false)
          → Sound n_pages (
              let s' = record s { first = f; input = rest } in
              if leb n_pages f || s'.page_bitmap f == 0
              then s'
              else free_from n_pages page_size mprotect f s')
      freed f rest items (inl e) =
          rw (e) (record { entries = sound.entries; variable = sound.variable; items = items })
      freed f rest items (inr e) = rw (e) (
          free_from-Sound f (record s { first = f; input = rest }) (ground (arith, e))
            (record { entries = sound.entries; variable = sound.variable; items = items }))
