-- ===== src/Broadcast/Safety.antt =====
-- What the files of prog-B-solution.c (exam of 18-7-2018) hold in the reachable states.
use sistemi_operativi.Prelude.{ℕ, ◌<◌, ◌≡◌, ◌≢◌, ap, List, ◌++◌, arith, ◌⊎◌, inl, inr}
use sistemi_operativi.Broadcast.{m_scan, w_write, System, with_nul, Reach}
use sistemi_operativi.Broadcast.Lateness.{writes, due, Slot, Inv}
use sistemi_operativi.Broadcast.Rounds.{none_late, not_late, Reach-Inv}

-- In every reachable state where the main thread is before its `scanf`, each of the files holds all the
-- strings read, in their order and each with its NUL, also if signals have interrupted writes.
pub files_agree :
    {n : ℕ} {input : List (List ℕ)} {s : System} (i : ℕ)
    → Reach n input s
    → s.main ≡ m_scan
    → i < n
    → s.files i ≡ s.taken
files_agree {n} {input} {s} i r e h =
    let inv : Inv n s = Reach-Inv r in
    let o : Slot (s.files i) s.buffer s.taken (s.sd1 i) (s.workers i) (due s.main i) (inv.late i) =
      inv.slots i h in
    not_late s.buffer o.lags (none_late n s inv e i h).0

-- In every reachable state each of the files holds all the strings read, in their order and each with its
-- NUL, or all but the last, which stands in `buffer`.
files_lag :
    {n : ℕ} {input : List (List ℕ)} {s : System} (i : ℕ)
    → Reach n input s
    → i < n
    → (s.files i ≡ s.taken) ⊎ (s.files i ++ with_nul s.buffer ≡ s.taken)
files_lag {n} {input} {s} i r h =
    let inv : Inv n s = Reach-Inv r in
    let o : Slot (s.files i) s.buffer s.taken (s.sd1 i) (s.workers i) (due s.main i) (inv.late i) =
      inv.slots i h in
    elim o.lags [ inl p ↦ inl p.1 | inr p ↦ inr p.1 ]

-- In no reachable state is the main thread before its `scanf` into `buffer` while a worker is before its
-- `write` of it.
buffer_exclusive :
    {n : ℕ} {input : List (List ℕ)} {s : System} (i : ℕ)
    → Reach n input s
    → i < n
    → s.workers i ≡ w_write
    → s.main ≢ m_scan
buffer_exclusive {n} {input} {s} i r h w e =
    let inv : Inv n s = Reach-Inv r in
    let o : Slot (s.files i) s.buffer s.taken (s.sd1 i) (s.workers i) (due s.main i) (inv.late i) =
      inv.slots i h in
    absurd (omega (arith, o.called, ap writes w, (none_late n s inv e i h).0))
