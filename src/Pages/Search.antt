-- ===== src/Pages/Search.antt =====
-- The search for free pages of esercizio2(UNIX).c (Tutoraggio 9).
use sistemi_operativi.Prelude.{
  ℕ, zero, suc, ◌+◌, ◌-◌, ◌≤◌, ◌<◌, ◌≡◌, ◌≢◌, sym, ap, ◌∙◌, dec_lt, none, some, arith, ◌⊎◌, inl,
  inr, ℕ_discrete, subst, ltb, ltb→lt, ◌==◌, Bool-cases, Option-cases,
}
use sistemi_operativi.Pages.{blocked, search}

-- `contiguous` pages from `w` on are free.
abbrev pub Free : (ℕ → ℕ) → ℕ → ℕ → Type 0
Free b w contiguous = (k : ℕ) → w ≤ k → k < w + contiguous → b k ≢ 1

blocked-none :
    (b : ℕ → ℕ) (i j left : ℕ)
    → blocked b i j left ≡ none
    → (k : ℕ) → i + j ≤ k
    → k < i + j + left
    → b k ≢ 1
unfolding blocked
blocked-none b i j zero e k l h = absurd (omega (arith, l, h))
blocked-none b i j (suc left) e k l h = elim (Bool-cases (b (i + j) == 1)) [
  | inl q ↦ absurd (cc (rw (q) at e))
  | inr q ↦ elim (ℕ_discrete k (i + j)) [
    | yes p ↦ λ z. absurd (ground (arith, q, ap b p, z))
    | no ne ↦ blocked-none b i (j + 1) left (rw (q) at e) k (omega arith) (omega arith)
  ]
]

blocked-some :
    (b : ℕ → ℕ) (i j left : ℕ) {m : ℕ}
    → blocked b i j left ≡ some m
    → (j ≤ m) × ((m < j + left) × (b (i + m) ≡ 1))
unfolding blocked
blocked-some b i j zero e = absurd (cc)
blocked-some b i j (suc left) {m} e = elim (Bool-cases (b (i + j) == 1)) [
  | inl q ↦
      let same : j ≡ m = cc (rw (q) at e) in
      let here : b (i + j) ≡ 1 = ground (arith, q) in
      (omega (arith, same), (omega (arith, same), subst (λ k. b (i + k) ≡ 1) same here))
  | inr q ↦
      let (l, (h, z)) = blocked-some b i (j + 1) left (rw (q) at e) in
      (omega (arith, l), (omega (arith, h), z))
]

module _ (n_pages : ℕ) (b : ℕ → ℕ) (contiguous : ℕ) where
  search-some :
      (fuel i : ℕ) {w : ℕ}
      → 0 < contiguous
      → search n_pages fuel b contiguous i ≡ some w
      → (w + contiguous < n_pages) × ((b w ≡ 0) × Free b w contiguous)
  unfolding search
  search-some zero i p e = absurd (cc)
  search-some (suc fuel) i {w} p e = elim (Bool-cases (ltb i (n_pages - contiguous))) [
    | inr q ↦ absurd (cc (rw (q) at e))
    | inl q ↦ elim (Bool-cases (b i == 0)) [
      | inr z ↦ search-some fuel (i + 1) p (rw (q, z) at e)
      | inl z ↦ elim (Option-cases (blocked b i 0 contiguous)) [
        | inr (j, f) ↦ search-some fuel (i + j + 1 + 1) p (rw (q, z, f) at e)
        | inl f ↦
            let same : i ≡ w = cc (rw (q, z, f) at e) in
            subst (λ w. (w + contiguous < n_pages) × ((b w ≡ 0) × Free b w contiguous)) same
              (
                omega (arith, ltb→lt i (n_pages - contiguous) q),
                (
                  ground (arith, z),
                  (λ k l h.
                      blocked-none b i 0 contiguous f k (omega (arith, l)) (omega (arith, h))),
                ),
              )
      ]
    ]
  ]

  -- Where the loop begins a round: at `i` or later, and not behind an allocated page but at `i`.
  search-none :
      (fuel i : ℕ)
      → n_pages ≤ fuel + i
      → search n_pages fuel b contiguous i ≡ none
      → (w : ℕ) → i ≤ w
      → (w ≡ i) ⊎ (b (w - 1) ≢ 1)
      → w + contiguous < n_pages
      → 0 < contiguous
      → ((k : ℕ) → w ≤ k → k < w + contiguous → b k ≡ 0)
      → ⊥
  unfolding search
  search-none zero i p e w l o h c free = omega (arith, p, l, h)
  search-none (suc fuel) i p e w l o h c free = elim (Bool-cases (ltb i (n_pages - contiguous))) [
    | inr q ↦ ground (arith, q, l, h)
    | inl q ↦ elim (Bool-cases (b i == 0)) [
      | inr z ↦
          let z0 : b w ≡ 0 = free w (omega arith) (omega (arith, c)) in
          let differ : i ≢ w = λ u. absurd (ground (arith, z, z0, ap b u)) in
          search-none fuel (i + 1) (omega (arith, p)) (rw (q, z) at e) w (omega (arith, l, differ))
            (elim o [ inl u ↦ absurd (differ (sym u)) | inr u ↦ inr u ]) h c free
      | inl z ↦ elim (Option-cases (blocked b i 0 contiguous)) [
        | inl f ↦ cc (rw (q, z, f) at e)
        | inr (j, f) ↦
            let (x, (y, one)) = blocked-some b i 0 contiguous f in
            let before : i + j < w = elim (dec_lt (i + j) w) [
              | yes u ↦ u
              | no u ↦
                  absurd (omega (arith, one, free (i + j) (omega (arith, u)) (omega (arith, y, l))))
            ] in
            let behind : b (w - 1) ≢ 1 = elim o [
              | inl u ↦ absurd (omega (arith, u, before))
              | inr u ↦ u
            ] in
            let apart : i + j + 1 ≢ w = λ u. behind (ap b (omega (arith, u)) ∙ one) in
            search-none fuel (i + j + 1 + 1) (omega (arith, p)) (rw (q, z, f) at e) w
              (omega (arith, before, apart)) (inr behind) h c free
      ]
    ]
  ]

-- When the search finds pages, they are that many, they are free, and they end before the last page.
pub search_sound :
    (n_pages : ℕ) (b : ℕ → ℕ) (contiguous : ℕ) {w : ℕ}
    → 0 < contiguous
    → search n_pages n_pages b contiguous 0 ≡ some w
    → (w + contiguous < n_pages) × Free b w contiguous
search_sound n_pages b contiguous p e =
    let (h, (z, free)) = search-some n_pages b contiguous n_pages 0 p e in (h, free)

-- The search finds pages when as many are free that begin at the first page or behind one that is not
-- allocated, and that end before the last page.
pub search_complete :
    (n_pages : ℕ) (b : ℕ → ℕ) (contiguous w : ℕ)
    → 0 < contiguous
    → w + contiguous < n_pages
    → (w ≡ 0) ⊎ (b (w - 1) ≢ 1)
    → ((k : ℕ) → w ≤ k → k < w + contiguous → b k ≡ 0)
    → (i : ℕ) × (search n_pages n_pages b contiguous 0 ≡ some i)
search_complete n_pages b contiguous w c h o free =
    elim (Option-cases (search n_pages n_pages b contiguous 0)) [
      | inr found ↦ found
      | inl e ↦
          absurd
            (search-none n_pages b contiguous n_pages 0 (omega arith) e w (omega arith) o h c free)
    ]
