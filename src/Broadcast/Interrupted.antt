-- ===== src/Broadcast/Interrupted.antt =====
-- The runs of prog-B-solution.c (exam of 18-7-2018) behind a `write` of `worker` that fails with EINTR.
use sistemi_operativi.Prelude.{
  ℕ, ◌<◌, ◌≡◌, ◌≢◌, refl, sym, ap, ◌∙◌, subst, Option, none, some, List, ◌++◌, arith, ltb, update,
  update_self, update_ne, ℕ_discrete, Bool-cases, inl, inr,
}
use sistemi_operativi.Broadcast.{
  m_scan, WorkerPc, w_wait, w_write, w_post, System, Actor, run_main, run_worker, signal, with_nul,
  take_turn, worker_step, interrupt, running, guarded, step, Reach, next,
}
use sistemi_operativi.Broadcast.Lateness.{writes, due, held, Lags, Slot, Inv}
use sistemi_operativi.Broadcast.Rounds.{Reach-Inv}
use sistemi_operativi.Broadcast.Stuck.{Stuck, Remains, short, main_Stuck, other_Stuck}

-- The states that the process can reach from a state.
pub data Later (n : ℕ) (s : System) : System → Type 0 where
  now : Later n s s
  then : {t u : System} (a : Actor) → Later n s t → step n a t ≡ some u → Later n s u

waiting_Stuck : (s : System) (me : ℕ) → Stuck me s → worker_step me (s.workers me) s ≡ none
unfolding worker_step take_turn
waiting_Stuck s me st =
    ap (λ pc. worker_step me pc s) st.waits ∙ ap (λ k. take_turn me k s) st.uncalled

other-interrupt-Stuck :
    (s : System) (i me : ℕ) (pc : WorkerPc) → i ≢ me → Stuck me s → Remains me (interrupt i pc s)
unfolding interrupt
other-interrupt-Stuck s i me w_wait ne st = st
other-interrupt-Stuck s i me w_post ne st = st
other-interrupt-Stuck s i me w_write ne st = record {
  waits = update_ne s.workers i me w_wait ne ∙ st.waits;
  uncalled = st.uncalled;
  passed = st.passed;
  lags = st.lags;
}

worker_Stuck : (s : System) (i me : ℕ) → Stuck me s → Remains me (worker_step i (s.workers i) s)
worker_Stuck s i me st = elim (ℕ_discrete i me) [
  | yes e ↦
      subst (λ j. Remains me (worker_step j (s.workers j) s)) (sym e)
        (subst (Remains me) (sym (waiting_Stuck s me st)) tt)
  | no ne ↦ other_Stuck s i me (s.workers i) ne st
]

interrupt-Stuck : (s : System) (i me : ℕ) → Stuck me s → Remains me (interrupt i (s.workers i) s)
unfolding interrupt
interrupt-Stuck s i me st = elim (ℕ_discrete i me) [
  | yes e ↦
      subst (λ j. Remains me (interrupt j (s.workers j) s)) (sym e)
        (subst (λ pc. Remains me (interrupt me pc s)) (sym st.waits) st)
  | no ne ↦ other-interrupt-Stuck s i me (s.workers i) ne st
]

guarded-Remains :
    (n i me : ℕ) (s : System) (o : Option System) → Remains me o → Remains me (guarded n i s o)
guarded-Remains n i me s o h = elim (Bool-cases (ltb i n)) [
  | inl l ↦ elim (Bool-cases (running s.main)) [ inl r ↦ rw (l, r) h | inr r ↦ rw (l, r) tt ]
  | inr l ↦ rw l tt
]

step-Remains :
    (n : ℕ) (s : System) (me : ℕ) (a : Actor)
    → me < n
    → Inv n s
    → Stuck me s
    → Remains me (step n a s)
unfolding step
step-Remains n s me run_main h inv st = main_Stuck n s me s.main h refl inv st
step-Remains n s me (run_worker i) h inv st =
    guarded-Remains n i me s (worker_step i (s.workers i) s) (worker_Stuck s i me st)
step-Remains n s me (signal i) h inv st =
    guarded-Remains n i me s (interrupt i (s.workers i) s) (interrupt-Stuck s i me st)

Later-Reach :
    {n : ℕ} {input : List (List ℕ)} {s t : System} → Reach n input s → Later n s t → Reach n input t
Later-Reach r now = r
Later-Reach r (then a l e) = next a (Later-Reach r l) e

Later-Stuck :
    {n : ℕ} {input : List (List ℕ)} {s t : System} (me : ℕ)
    → Reach n input s
    → me < n
    → Stuck me s
    → Later n s t
    → Stuck me t
Later-Stuck me r h st now = st
Later-Stuck {n} me r h st (then {t} a l e) =
    subst (Remains me) e
      (step-Remains n t me a h (Reach-Inv (Later-Reach r l)) (Later-Stuck me r h st l))

-- What the interrupted `write` of a worker leaves behind.
interrupted-Stuck :
    {n : ℕ} {s : System} (me : ℕ)
    → me < n
    → Inv n s
    → s.workers me ≡ w_write
    → Stuck me (record s { workers = update s.workers me w_wait })
interrupted-Stuck {n} {s} me h inv w = record {
  waits = update_self s.workers me w_wait;
  uncalled = omega (arith, o.single, ap writes w);
  passed = omega (arith, o.single, ap writes w);
  lags = by_lags o.lags;
}
  where
    o : Slot (s.files me) s.buffer s.taken (s.sd1 me) (s.workers me) (due s.main me) (inv.late me)
    o = inv.slots me h

    by_lags :
        Lags (inv.late me) (s.files me) s.buffer s.taken → s.files me ++ with_nul s.buffer ≡ s.taken
    by_lags (inl p) = absurd (omega (arith, o.called, ap writes w, p.0))
    by_lags (inr p) = p.1

signal-Stuck :
    (n : ℕ) (s : System) {t : System} (me : ℕ)
    → me < n
    → Inv n s
    → s.workers me ≡ w_write
    → step n (signal me) s ≡ some t
    → Stuck me t
unfolding step interrupt
signal-Stuck n s me h inv w e = subst (Remains me) e (
    guarded-Remains n me me s (interrupt me (s.workers me) s)
      (subst (λ pc. Remains me (interrupt me pc s)) (sym w) (interrupted-Stuck me h inv w)))

-- If a signal interrupts the `write` of a worker in a reachable state, then from there on the main thread
-- never reads another string, and the file of that worker never gets the string in `buffer`.
pub interrupted_stuck :
    {n : ℕ} {input : List (List ℕ)} {s t u : System} (me : ℕ)
    → Reach n input s
    → me < n
    → s.workers me ≡ w_write
    → step n (signal me) s ≡ some t
    → Later n t u
    → (u.main ≢ m_scan) × (u.files me ++ with_nul u.buffer ≡ u.taken)
interrupted_stuck {n} {input} {s} {t} {u} me r h w e l =
    let st : Stuck me u =
      Later-Stuck me (next (signal me) r e) h (signal-Stuck n s me h (Reach-Inv r) w e) l in
    let inv : Inv n u = Reach-Inv (Later-Reach (next (signal me) r e) l) in
    (λ q. absurd (omega (arith, short n u me h inv st, ap (held n) q)), st.lags)
