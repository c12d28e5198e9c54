-- ===== src/Pages/Windows.antt =====
-- Tutoraggio SO/Tutoraggio 9/esercizio2(WIN).cpp: the same allocator with `VirtualProtect`, which keeps
-- the bitmap in `DWORD`s. Its address has 64 bits, its number of bytes 32.
use sistemi_operativi.Prelude.{ℕ, Option, List}
use sistemi_operativi.Pages.{Allocator, Round, Item, Mprotect}
use sistemi_operativi.Pages

abbrev pub search : ℕ → (ℕ → ℕ) → ℕ → Option ℕ
search n_pages b contiguous = Pages.search n_pages n_pages b contiguous 0

-- `VirtualProtect` in place of `mprotect`.
module _ (n_pages page_size : ℕ) (virtual_protect : Mprotect) where
  abbrev pub request : Allocator → Allocator
  request = Pages.request n_pages page_size virtual_protect

  abbrev pub free : Allocator → Allocator
  free = Pages.free n_pages page_size virtual_protect

  abbrev pub round : Allocator → Round
  round = Pages.round n_pages page_size virtual_protect

abbrev pub start : ℕ → ℕ → ℕ → List Item → Allocator
start = Pages.start
