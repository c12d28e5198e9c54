-- ===== src/Broadcast/Rounds.antt =====
-- The steps of `main` of prog-B-solution.c (exam of 18-7-2018), and all steps of the process.
use sistemi_operativi.Prelude.{
  ℕ, ◌+◌, ◌≤◌, ◌<◌, ◌≡◌, ◌≢◌, refl, sym, ap, ◌∙◌, subst, Option, List, [], ◌∷◌, ◌++◌, arith, length,
  leb, ltb, ltb→lt, leb→le, le-sum_below, update, update_same, Bool-cases, inl, inr,
}
use sistemi_operativi.Broadcast.{
  buffer_size, MainPc, m_wait, m_scan, m_exit, m_fault, m_post, System, Actor, run_main, run_worker,
  signal, with_nul, scan, main_step, worker_step, interrupt, running, guarded, step, Reach, here,
  next,
}
use sistemi_operativi.Broadcast.Lateness.{
  posts, due, held, Lags, Slot, Slots, same, Inv, After, start-Inv, sum_below_ones,
}
use sistemi_operativi.Broadcast.Steps.{Slots-keep, worker_Inv, interrupt-Inv}

-- The main thread moves to where nobody is due.
Slots-rest :
    (n : ℕ) (s : System) (late : ℕ → ℕ) (pc : MainPc)
    → ((i : ℕ) → due pc i ≡ 0)
    → Slots n s.buffer s.taken s.files s.sd1 s.workers (due s.main) late
    → Slots n s.buffer s.taken s.files s.sd1 s.workers (due pc) late
Slots-rest n s late pc z slots i h =
    let o : Slot (s.files i) s.buffer s.taken (s.sd1 i) (s.workers i) (due s.main i) (late i) =
      slots i h in
    record {
      lags = o.lags;
      called = omega (arith, o.called, z i);
      single = omega (arith, o.single, z i);
    }

-- When the main thread is before its `scanf`, no file is late.
pub none_late :
    (n : ℕ) (s : System)
    → (inv : Inv n s) → s.main ≡ m_scan
    → (i : ℕ) → i < n
    → (inv.late i ≡ 0) × (posts (s.workers i) ≡ 0)
none_late n s inv e i h = (
  omega (arith, inv.balance, ap (held n) e, le-sum_below same n inv.late i h),
  omega (arith, inv.balance, ap (held n) e, le-sum_below posts n s.workers i h),
)

pub not_late :
    {late : ℕ} {file taken : List ℕ} (buffer : List ℕ)
    → Lags late file buffer taken
    → late ≡ 0
    → file ≡ taken
not_late buffer (inl p) z = p.1
not_late buffer (inr p) z = absurd (omega (arith, z, p.0))

due-zero : (i : ℕ) → due (m_post 0) i ≤ 1
due-zero i = ground arith

scan_Inv : (n : ℕ) (s : System) (l : List (List ℕ)) → s.main ≡ m_scan → Inv n s → After n (scan l s)
unfolding scan
scan_Inv n s [] e inv = record {
  late = inv.late;
  slots = Slots-rest n s inv.late m_exit (λ i. refl) inv.slots;
  balance = omega (arith, inv.balance, ap (held n) e);
}
scan_Inv n s (word ∷ later) e inv = elim (Bool-cases (ltb (length word) buffer_size)) [
  | inl f ↦ rw f (record {
    late = λ _. 1;
    slots = λ i h.
        (let o : Slot (s.files i) s.buffer s.taken (s.sd1 i) (s.workers i) (due s.main i)
              (inv.late i) =
            inv.slots i h in
          let (z, q) = none_late n s inv e i h in
          record {
            lags = inr (refl, ap (λ l. l ++ with_nul word) (not_late s.buffer o.lags z));
            called = omega (arith, o.called, z, due-zero i);
            single = omega (arith, o.called, z, q, due-zero i);
          });
    balance = omega (arith, inv.balance, ap (held n) e, sum_below_ones n);
  })
  | inr f ↦ rw f (record {
    late = inv.late;
    slots = Slots-rest n s inv.late m_fault (λ i. refl) inv.slots;
    balance = omega (arith, inv.balance, ap (held n) e);
  })
]

due_self : (j : ℕ) → (due (m_post j) j ≡ 1) × (due (m_post (j + 1)) j ≡ 0)
due_self j = (ground arith, ground arith)

due_other : (j i : ℕ) → j ≢ i → due (m_post (j + 1)) i ≡ due (m_post j) i
due_other j i ne = ground arith

main_Inv : (n : ℕ) (s : System) (pc : MainPc) → s.main ≡ pc → Inv n s → After n (main_step n pc s)
unfolding main_step
main_Inv n s m_wait e inv = elim (Bool-cases (leb n s.sd)) [
  | inl f ↦ rw f (record {
    late = inv.late;
    slots = Slots-rest n s inv.late m_scan (λ i. refl) inv.slots;
    balance = omega (arith, inv.balance, ap (held n) e, leb→le n s.sd f);
  })
  | inr f ↦ rw f tt
]
main_Inv n s m_scan e inv = scan_Inv n s s.input e inv
main_Inv n s m_exit e inv = tt
main_Inv n s m_fault e inv = tt
main_Inv n s (m_post j) e inv = elim (Bool-cases (ltb j n)) [
  | inl f ↦ rw f (record {
    late = inv.late;
    slots =
        subst
          (λ w.
            Slots n s.buffer s.taken s.files (update s.sd1 j (s.sd1 j + 1)) w (due (m_post (j + 1)))
              inv.late)
          (update_same s.workers j)
          (Slots-keep n s (due (m_post (j + 1))) inv.late j (s.sd1 j + 1) (s.workers j) inv.slots
            (λ i ne. due_other j i ne ∙ ap (λ pc. due pc i) (sym e))
            (turn (inv.slots j (ltb→lt j n f))));
    balance = omega (arith, inv.balance, ap (held n) e);
  })
  | inr f ↦ rw f (record {
    late = inv.late;
    slots = Slots-rest n s inv.late m_wait (λ i. refl) inv.slots;
    balance = omega (arith, inv.balance, ap (held n) e);
  })
]
  where
    turn :
        Slot (s.files j) s.buffer s.taken (s.sd1 j) (s.workers j) (due s.main j) (inv.late j)
        → Slot
            (s.files j)
            s.buffer
            s.taken
            (s.sd1 j + 1)
            (s.workers j)
            (due (m_post (j + 1)) j)
            (inv.late j)
    turn o = record {
      lags = o.lags;
      called = omega (arith, o.called, due_self j, ap (λ pc. due pc j) e);
      single = omega (arith, o.single, due_self j, ap (λ pc. due pc j) e);
    }

guarded-Inv :
    (n me : ℕ) (s : System) (o : Option System) → (me < n → After n o) → After n (guarded n me s o)
guarded-Inv n me s o h = elim (Bool-cases (ltb me n)) [
  | inl l ↦ elim (Bool-cases (running s.main)) [
    | inl r ↦ rw (l, r) (h (ltb→lt me n l))
    | inr r ↦ rw (l, r) tt
  ]
  | inr l ↦ rw l tt
]

step-Inv : (n : ℕ) (s : System) (a : Actor) → Inv n s → After n (step n a s)
unfolding step
step-Inv n s run_main inv = main_Inv n s s.main refl inv
step-Inv n s (run_worker me) inv =
    guarded-Inv n me s (worker_step me (s.workers me) s)
      (λ h. worker_Inv n s me (s.workers me) h refl inv)
step-Inv n s (signal me) inv =
    guarded-Inv n me s (interrupt me (s.workers me) s)
      (λ h. interrupt-Inv n s me (s.workers me) h refl inv)

pub Reach-Inv : {n : ℕ} {input : List (List ℕ)} {s : System} → Reach n input s → Inv n s
Reach-Inv {n} {input} here = start-Inv n input
Reach-Inv {n} (next {s} a r e) = subst (After n) e (step-Inv n s a (Reach-Inv r))
