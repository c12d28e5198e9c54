-- ===== src/Broadcast/Lateness.antt =====
-- Which files of prog-B-solution.c (exam of 18-7-2018) still miss the string in `buffer`, and how the
-- semaphores `sd` and `sd1` count them.
use sistemi_operativi.Prelude.{
  ℕ, zero, suc, ◌+◌, ◌≤◌, ◌<◌, ◌≡◌, ◌≢◌, refl, subst, Option, none, some, List, ◌++◌, arith, leb,
  sum_below, sum_below-update, sum_below_zero, update, update_self, update_ne, ℕ_discrete, ◌⊎◌, inl,
  if◌then◌else◌,
}
use sistemi_operativi.Broadcast.{
  MainPc, m_scan, m_exit, m_fault, m_post, WorkerPc, w_wait, w_write, w_post, System, with_nul,
  start,
}

abbrev pub writes : WorkerPc → ℕ
writes w_write = 1
writes _ = 0

abbrev pub posts : WorkerPc → ℕ
posts w_post = 1
posts _ = 0

-- Whether the round of posts has not come to worker `i`.
abbrev pub due : MainPc → ℕ → ℕ
due (m_post j) i = if leb j i then 1 else 0
due _ i = 0

-- The tokens that the main thread holds: those of all the workers, from its wait to its `scanf`.
abbrev pub held : ℕ → MainPc → ℕ
held n m_scan = n
held n m_exit = n
held n m_fault = n
held n _ = 0

-- A file has all strings read, or all but the last.
abbrev pub Lags : ℕ → List ℕ → List ℕ → List ℕ → Type 0
Lags late file buffer taken =
    ((late ≡ 0) × (file ≡ taken)) ⊎ ((late ≡ 1) × (file ++ with_nul buffer ≡ taken))

-- A worker with its file, its count in `sd1`, its program counter, whether it is due and whether it is
-- late: only a worker that is late is called to write, and it is called once.
pub record Slot (file buffer taken : List ℕ) (count : ℕ) (pc : WorkerPc) (d late : ℕ) : Type 0 where
  pub lags : Lags late file buffer taken
  pub called : count + writes pc + d ≤ late
  pub single : count + writes pc + posts pc + d ≤ 1

-- All workers.
abbrev pub Slots :
    ℕ → List ℕ → List ℕ → (ℕ → List ℕ) → (ℕ → ℕ) → (ℕ → WorkerPc) → (ℕ → ℕ) → (ℕ → ℕ) → Type 0
Slots n buffer taken files sd1 workers d late =
    (i : ℕ) → i < n → Slot (files i) buffer taken (sd1 i) (workers i) (d i) (late i)

-- One worker is changed.
pub Slots-update :
    (n : ℕ) (buffer taken : List ℕ) (files : ℕ → List ℕ) (sd1 : ℕ → ℕ) (workers : ℕ → WorkerPc)
    (d d' late : ℕ → ℕ) (me : ℕ) (file : List ℕ) (count : ℕ) (pc : WorkerPc) (l : ℕ)
    → Slots n buffer taken files sd1 workers d late
    → ((i : ℕ) → me ≢ i → d' i ≡ d i)
    → Slot file buffer taken count pc (d' me) l
    → Slots n buffer taken
        (update files me file)
        (update sd1 me count)
        (update workers me pc)
        d'
        (update late me l)
Slots-update n buffer taken files sd1 workers d d' late me file count pc l slots rest mine i h =
    elim (ℕ_discrete me i) [
      | yes e ↦
          subst
            (λ j.
              Slot (update files me file j) buffer taken (update sd1 me count j)
                (update workers me pc j) (d' j) (update late me l j))
            e
            (rw
              (
                update_self files me file,
                update_self sd1 me count,
                update_self workers me pc,
                update_self late me l,
              )
              mine)
      | no ne ↦
          rw
            (
              update_ne files me i file ne,
              update_ne sd1 me i count ne,
              update_ne workers me i pc ne,
              update_ne late me i l ne,
              rest i ne,
            )
            (slots i h)
    ]

abbrev pub same : ℕ → ℕ
same k = k

pub record Inv (n : ℕ) (s : System) : Type 0 where
  pub late : ℕ → ℕ
  pub slots : Slots n s.buffer s.taken s.files s.sd1 s.workers (due s.main) late
  pub balance : s.sd + held n s.main + sum_below posts n s.workers + sum_below same n late ≡ n

-- The state behind a step, if there is one.
abbrev pub After : ℕ → Option System → Type 0
After n none = Unit
After n (some t) = Inv n t

pub start-Inv : (n : ℕ) (input : List (List ℕ)) → Inv n (start n input)
start-Inv n input = record {
  late = λ _. 0;
  slots = λ i l. record { lags = inl (refl, refl); called = omega arith; single = omega arith };
  balance = omega (
    arith,
    sum_below_zero posts n (λ _. w_wait) (λ i l. refl),
    sum_below_zero same n (λ _. 0) (λ i l. refl),
  );
}

pub sum_below_ones : (n : ℕ) → sum_below same n (λ _. 1) ≡ n
unfolding sum_below
sum_below_ones zero = refl
sum_below_ones (suc n) = omega (arith, sum_below_ones n)

-- A worker's weight moves from one program counter to the next.
pub moved :
    (n : ℕ) (s : System) (me : ℕ) (pc' : WorkerPc) {pc : WorkerPc}
    → me < n
    → s.workers me ≡ pc
    → sum_below posts n (update s.workers me pc') + posts pc
      ≡ sum_below posts n s.workers + posts pc'
moved n s me pc' h e =
    subst
      (λ q.
        sum_below posts n (update s.workers me pc') + posts q
        ≡ sum_below posts n s.workers + posts pc')
      e (sum_below-update posts n s.workers me pc' h)
