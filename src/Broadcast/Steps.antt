-- ===== src/Broadcast/Steps.antt =====
-- The steps of `worker` of prog-B-solution.c (exam of 18-7-2018), interrupted or not.
use sistemi_operativi.Prelude.{
  ℕ, zero, suc, ◌<◌, ◌≡◌, ◌≢◌, refl, ap, subst, List, ◌++◌, arith, sum_below-update, update,
  update_same, inl, inr,
}
use sistemi_operativi.Broadcast.{
  WorkerPc, w_wait, w_write, w_post, System, with_nul, take_turn, worker_step, interrupt,
}
use sistemi_operativi.Broadcast.Lateness.{
  writes, posts, due, Lags, Slot, Slots, Slots-update, same, Inv, After, moved,
}

-- A worker is changed, but for its file and its lateness.
pub Slots-keep :
    (n : ℕ) (s : System) (d' late : ℕ → ℕ) (me count : ℕ) (pc : WorkerPc)
    → Slots n s.buffer s.taken s.files s.sd1 s.workers (due s.main) late
    → ((i : ℕ) → me ≢ i → d' i ≡ due s.main i)
    → Slot (s.files me) s.buffer s.taken count pc (d' me) (late me)
    → Slots n s.buffer s.taken s.files (update s.sd1 me count) (update s.workers me pc) d' late
Slots-keep n s d' late me count pc slots rest mine =
    subst (λ f. Slots n s.buffer s.taken f (update s.sd1 me count) (update s.workers me pc) d' late)
      (update_same s.files me)
      (subst
        (λ l.
          Slots n s.buffer s.taken (update s.files me (s.files me)) (update s.sd1 me count)
            (update s.workers me pc) d' l)
        (update_same late me)
        (Slots-update n s.buffer s.taken s.files s.sd1 s.workers (due s.main) d' late me
          (s.files me) count pc (late me) slots rest mine))

-- Only the program counter of a worker is changed.
Slots-pc :
    (n : ℕ) (s : System) (late : ℕ → ℕ) (me : ℕ) (pc : WorkerPc)
    → Slots n s.buffer s.taken s.files s.sd1 s.workers (due s.main) late
    → Slot (s.files me) s.buffer s.taken (s.sd1 me) pc (due s.main me) (late me)
    → Slots n s.buffer s.taken s.files s.sd1 (update s.workers me pc) (due s.main) late
Slots-pc n s late me pc slots mine =
    subst (λ c. Slots n s.buffer s.taken s.files c (update s.workers me pc) (due s.main) late)
      (update_same s.sd1 me)
      (Slots-keep n s (due s.main) late me (s.sd1 me) pc slots (λ i ne. refl) mine)

take_turn-Inv :
    (n : ℕ) (s : System) (me k : ℕ)
    → me < n
    → s.workers me ≡ w_wait
    → s.sd1 me ≡ k
    → Inv n s
    → After n (take_turn me k s)
unfolding take_turn
take_turn-Inv n s me zero h e c inv = tt
take_turn-Inv n s me (suc k) h e c inv = record {
  late = inv.late;
  slots =
      Slots-keep n s (due s.main) inv.late me k w_write inv.slots (λ i ne. refl)
        (record {
          lags = o.lags;
          called = omega (arith, o.called, c, ap writes e);
          single = omega (arith, o.single, c, ap writes e, ap posts e);
        });
  balance = omega (arith, inv.balance, moved n s me w_write h e);
}
  where
    o : Slot (s.files me) s.buffer s.taken (s.sd1 me) (s.workers me) (due s.main me) (inv.late me)
    o = inv.slots me h

-- A file that is late is so no longer when the string in the buffer is behind it.
caught_up :
    {late : ℕ} {file taken : List ℕ} (buffer : List ℕ)
    → Lags late file buffer taken
    → 0 < late
    → (late ≡ 1) × (file ++ with_nul buffer ≡ taken)
caught_up buffer (inl (z, q)) h = absurd (omega (arith, z, h))
caught_up buffer (inr p) h = p

pub worker_Inv :
    (n : ℕ) (s : System) (me : ℕ) (pc : WorkerPc)
    → me < n
    → s.workers me ≡ pc
    → Inv n s
    → After n (worker_step me pc s)
unfolding worker_step
worker_Inv n s me w_wait h e inv = take_turn-Inv n s me (s.sd1 me) h e refl inv
worker_Inv n s me w_write h e inv = record {
  late = update inv.late me 0;
  slots =
      subst
        (λ c.
          Slots n s.buffer s.taken (update s.files me file) c (update s.workers me w_post)
            (due s.main) (update inv.late me 0))
        (update_same s.sd1 me)
        (Slots-update n s.buffer s.taken s.files s.sd1 s.workers (due s.main) (due s.main) inv.late
          me file (s.sd1 me) w_post 0 inv.slots (λ i ne. refl)
          (record {
            lags = inl (refl, wrote.1);
            called = omega (arith, o.single, ap writes e);
            single = omega (arith, o.single, ap writes e);
          }));
  balance = omega (
    arith,
    inv.balance,
    moved n s me w_post h e,
    sum_below-update same n inv.late me 0 h,
    wrote.0,
  );
}
  where
    file : List ℕ
    file = s.files me ++ with_nul s.buffer

    o : Slot (s.files me) s.buffer s.taken (s.sd1 me) (s.workers me) (due s.main me) (inv.late me)
    o = inv.slots me h

    wrote : (inv.late me ≡ 1) × (file ≡ s.taken)
    wrote = caught_up s.buffer o.lags (omega (arith, o.called, ap writes e))
worker_Inv n s me w_post h e inv = record {
  late = inv.late;
  slots = Slots-pc n s inv.late me w_wait inv.slots (record {
    lags = o.lags;
    called = omega (arith, o.called);
    single = omega (arith, o.single);
  });
  balance = omega (arith, inv.balance, moved n s me w_wait h e);
}
  where
    o : Slot (s.files me) s.buffer s.taken (s.sd1 me) (s.workers me) (due s.main me) (inv.late me)
    o = inv.slots me h

pub interrupt-Inv :
    (n : ℕ) (s : System) (me : ℕ) (pc : WorkerPc)
    → me < n
    → s.workers me ≡ pc
    → Inv n s
    → After n (interrupt me pc s)
unfolding interrupt
interrupt-Inv n s me w_wait h e inv = inv
interrupt-Inv n s me w_post h e inv = inv
interrupt-Inv n s me w_write h e inv = record {
  late = inv.late;
  slots = Slots-pc n s inv.late me w_wait inv.slots (record {
    lags = o.lags;
    called = omega (arith, o.called);
    single = omega (arith, o.single);
  });
  balance = omega (arith, inv.balance, moved n s me w_wait h e);
}
  where
    o : Slot (s.files me) s.buffer s.taken (s.sd1 me) (s.workers me) (due s.main me) (inv.late me)
    o = inv.slots me h
