-- ===== src/Dispatch/Safety.antt =====
-- `val`, `lists` and the two handlers of prog-A-solution.c (exam of 26-6-2018) and exam1_A.c in the
-- reachable states.
use sistemi_operativi.Prelude.{
  ℕ, zero, suc, ◌+◌, ◌≤◌, ◌<◌, ◌≡◌, ◌≢◌, refl, sym, ap, ◌∙◌, Bool, true, false, List, [], ◌∷◌, ◌++◌,
  arith, length, take, flatten, flatten-append, append-nil, sum_below, sum_below_zero, le-sum_below,
  add-le-sum_below,
}
use sistemi_operativi.Prelude.Int.{ℤ, negsuc}
use sistemi_operativi.Dispatch.{
  Token, Data, MainPc, m_lock, m_scan, m_unlock, m_exit, WorkerPc, w_lock, w_copy, w_unlock, w_next,
  w_link, System, Reach, printer_from, printer_list, stampa_from, stampa_list, printer,
}
use sistemi_operativi.Prelude.Count.{count, count-append, one-le}
use sistemi_operativi.Dispatch.Tokens.{
  only, only_zero, main_token, worker_token, main_pending, carried, tokens, pending,
}
use sistemi_operativi.Dispatch.Conserve.{Inv, sum-worker_pending-le, pending-le-tokens}
use sistemi_operativi.Dispatch.Workers.{Reach-Inv}

printer_from-next : (v : ℤ) (l : List ℤ) → printer_from v l ≡ l
unfolding printer_from
printer_from-next v [] = refl
printer_from-next v (x ∷ l) = ap (λ m. x ∷ m) (printer_from-next x l)

count-printer :
    (p : ℤ → Bool) (n : ℕ) (lists : ℕ → Data)
    → count p (flatten (printer n lists)) ≡ sum_below (λ (d : Data). count p d.next) n lists
unfolding printer count sum_below
count-printer p zero lists = refl
count-printer p (suc n) lists = omega (
  arith,
  ap (count p) (flatten-append (printer n lists) (printer_list (lists n) ∷ [])),
  count-append p (flatten (printer n lists)) (printer_list (lists n) ++ []),
  ap (count p) (append-nil (printer_list (lists n))),
  ap (count p) (printer_from-next (lists n).val (lists n).next),
  count-printer p n lists,
)

carried-le : (p : ℤ → Bool) (pc : WorkerPc) → carried p pc ≤ 1
carried-le p w_lock = omega arith
carried-le p w_copy = omega arith
carried-le p (w_unlock v) = one-le (p v)
carried-le p (w_next v) = one-le (p v)
carried-le p (w_link aux) = one-le (p aux.val)

sum-carried-le : (p : ℤ → Bool) (n : ℕ) (f : ℕ → WorkerPc) → sum_below (carried p) n f ≤ n
unfolding sum_below
sum-carried-le p zero f = omega arith
sum-carried-le p (suc n) f = omega (arith, carried-le p (f n), sum-carried-le p n f)

only-le : (b : Bool) (n : ℕ) → only b n ≤ n
only-le true n = omega arith
only-le false n = omega arith

pending-le : (n : ℕ) (s : System) → tokens n s ≡ 1 → pending n s ≤ 1
pending-le n s h = omega (arith, by_main s.main, h, sum-worker_pending-le n s.workers)
  where
    by_main : (pc : MainPc) → main_pending pc ≤ main_token pc
    by_main m_lock = omega arith
    by_main m_scan = omega arith
    by_main m_unlock = omega arith
    by_main m_exit = omega arith

-- In every reachable state and for every test on integers, the lists that the handler prints hold at
-- most as many values that pass the test as have been read, and at most `n + 1` fewer.
printer_counts :
    {n : ℕ} {input : List Token} {s : System}
    → Reach n input s
    → (p : ℤ → Bool)
    → (count p (flatten (printer n s.lists)) ≤ count p s.taken)
      × (count p s.taken ≤ count p (flatten (printer n s.lists)) + n + 1)
printer_counts {n} {input} {s} r p =
    let inv : Inv n s = Reach-Inv r in
    (
      omega (arith, inv.conserved p, count-printer p n s.lists),
      omega (
        arith,
        inv.conserved p,
        count-printer p n s.lists,
        sum-carried-le p n s.workers,
        only-le (p s.val) (pending n s),
        pending-le n s inv.token,
      ),
    )

-- In a reachable state where the main thread waits for input and every worker for `lock`, the lists that
-- the handler prints hold, for every test on integers, as many values that pass it as have been read.
pub printer_complete :
    {n : ℕ} {input : List Token} {s : System}
    → Reach n input s
    → s.main ≡ m_scan
    → ((i : ℕ) → i < n → s.workers i ≡ w_lock)
    → (p : ℤ → Bool) → count p (flatten (printer n s.lists)) ≡ count p s.taken
printer_complete {n} {input} {s} r m idle p =
    let inv : Inv n s = Reach-Inv r in
    omega (
      arith,
      inv.conserved p,
      count-printer p n s.lists,
      sum_below_zero (carried p) n s.workers (λ i l. ap (carried p) (idle i l)),
      ap (only (p s.val)) (pending-le-tokens n s m inv.token),
      only_zero (p s.val),
    )

-- In every reachable state, while a worker is between its lock of `lock` and its unlock of `next`, the
-- main thread is not between its lock of `next` and its unlock of `lock`, and no other worker is where
-- the first one is.
val_exclusive :
    {n : ℕ} {input : List Token} {s : System} (i : ℕ)
    → Reach n input s
    → i < n
    → worker_token (s.workers i) ≡ 1
    → (s.main ≡ m_lock) × ((j : ℕ) → j < n → i ≢ j → worker_token (s.workers j) ≡ 0)
val_exclusive {n} {input} {s} i r l h =
    let inv : Inv n s = Reach-Inv r in
    (
      away s.main (omega (arith, inv.token, le-sum_below worker_token n s.workers i l, h)),
      λ j k d. omega (arith, inv.token, add-le-sum_below worker_token n s.workers i j l k d, h),
    )
  where
    away : (pc : MainPc) → main_token pc ≡ 0 → pc ≡ m_lock
    away m_lock e = refl
    away m_scan e = absurd (omega arith)
    away m_unlock e = absurd (omega arith)
    away m_exit e = absurd (omega arith)

-- In every reachable state `stampa` prints -1 and then the list that `printer` prints, but for its last
-- value; it prints nothing of an empty list.
pub stampa_shifted :
    {n : ℕ} {input : List Token} {s : System}
    → Reach n input s
    → (i : ℕ)
    → stampa_list (s.lists i)
      ≡ take (length (printer_list (s.lists i))) (negsuc 0 ∷ printer_list (s.lists i))
unfolding stampa_from
stampa_shifted {n} {input} {s} r i =
    ap (λ v. stampa_from v (s.lists i).next) ((Reach-Inv r).heads i)
    ∙ shifted (negsuc 0) (s.lists i).next
    ∙ ap (λ l. take (length l) (negsuc 0 ∷ l))
        (sym (printer_from-next (s.lists i).val (s.lists i).next))
  where
    shifted : (v : ℤ) (l : List ℤ) → stampa_from v l ≡ take (length l) (v ∷ l)
    shifted v [] = refl
    shifted v (x ∷ l) = ap (λ m. v ∷ m) (shifted x l)
