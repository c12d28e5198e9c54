-- ===== src/Pages/Tests.antt =====
-- Eight pages of four bytes, under a kernel that grants calls on at most two pages, and the theorems at them.
use sistemi_operativi.Prelude.{
  ℕ, zero, suc, ◌+◌, ◌*◌, ◌≤◌, ◌<◌, ◌≡◌, refl, true, false, ◌&&◌, none, some, List, [], ◌∷◌, arith,
  inr, leb, ltb, ◌==◌, if◌then◌else◌,
}
use sistemi_operativi.Pages.{
  Item, number, Allocator, Mprotect, blocked, search, bytes, free_from, start,
}
use sistemi_operativi.Pages.Search.{Free, search_sound, search_complete}
use sistemi_operativi.Pages.Rounds.{release_wraps}

-- A kernel that refuses calls that would make more than two pages accessible, when it has set the first.
abbrev kernel : Mprotect
kernel first size a access =
    if a && ltb 8 size
    then (false, λ p. if p == first && ltb 0 size then true else access p)
    else (true, λ p. if leb first p && ltb (p * 4) (first * 4 + size) then a else access p)

-- Pages 0 and 3 are allocated.
abbrev bitmap : ℕ → ℕ
bitmap zero = 1
bitmap (suc zero) = 0
bitmap (suc (suc zero)) = 0
bitmap (suc (suc (suc zero))) = 1
bitmap (suc (suc (suc (suc p)))) = 0

-- Three pages from 4 on are free, but the search goes from 1 to 5 and gives up.
missed : search 8 8 bitmap 3 0 ≡ none
unfolding search blocked
missed = refl

found : search 8 8 bitmap 2 0 ≡ some 1
unfolding search blocked
found = refl

search_sound_example : (1 + 2 < 8) × Free bitmap 1 2
search_sound_example = search_sound 8 bitmap 2 (omega arith) found

search_complete_example : (i : ℕ) × (search 8 8 bitmap 2 0 ≡ some i)
search_complete_example =
    search_complete 8 bitmap 2 5 (omega arith) (omega arith) (inr (λ e. absurd (omega (arith, e))))
      (λ k l h. free k l)
  where
    free : (k : ℕ) → 5 ≤ k → bitmap k ≡ 0
    free zero l = absurd (omega (arith, l))
    free (suc zero) l = absurd (omega (arith, l))
    free (suc (suc zero)) l = absurd (omega (arith, l))
    free (suc (suc (suc zero))) l = absurd (omega (arith, l))
    free (suc (suc (suc (suc k)))) l = refl

-- Three pages are asked for, then one; page 1 is released.
abbrev input : List Item
input = number 1 ∷ number 3 ∷ number 1 ∷ number 1 ∷ number 2 ∷ number 1 ∷ number 1 ∷ number 4 ∷ []

abbrev first_state : Allocator
first_state = start 0 0 0 []

empty_found : search 8 8 first_state.page_bitmap 3 0 ≡ some 0
unfolding search blocked
empty_found = refl

release_wraps_example :
    let t = free_from 8 4 kernel 5 (record first_state { input = number 4_294_967_294 ∷ [] }) in
    (t.page_bitmap ≡ first_state.page_bitmap)
    × (t.access ≡ (kernel 5 (bytes 8 4 kernel 4_294_967_294) false first_state.access).1)
release_wraps_example =
    release_wraps 8 4 kernel 5 4_294_967_294 [] first_state (omega arith) (omega arith)
      (omega arith) (omega arith)
