-- ===== src/Broadcast/Stuck.antt =====
-- A worker of prog-B-solution.c (exam of 18-7-2018) that waits in `redo1` for a post that was for the
-- string it has lost.
use sistemi_operativi.Prelude.{
  ℕ, zero, suc, ◌+◌, ◌<◌, ◌≡◌, ◌≢◌, refl, sym, ap, ◌∙◌, Option, none, some, List, [], ◌∷◌, ◌++◌,
  arith, length, length-append, leb, ltb, leb→le, le-sum_below, update_ne, Bool-cases, inl, inr,
}
use sistemi_operativi.Broadcast.{
  MainPc, m_wait, m_scan, m_exit, m_fault, m_post, WorkerPc, w_wait, w_write, w_post, System,
  with_nul, main_step, take_turn, worker_step,
}
use sistemi_operativi.Broadcast.Lateness.{due, held, Lags, same, Inv}

-- Worker `me` waits, its count in `sd1` is 0 and will not be raised in this round, but its file is late.
pub record Stuck (me : ℕ) (s : System) : Type 0 where
  pub waits : s.workers me ≡ w_wait
  pub uncalled : s.sd1 me ≡ 0
  pub passed : due s.main me ≡ 0
  pub lags : s.files me ++ with_nul s.buffer ≡ s.taken

abbrev pub Remains : ℕ → Option System → Type 0
Remains me none = Unit
Remains me (some t) = Stuck me t

append-ne : (l m : List ℕ) → l ++ with_nul m ≢ l
append-ne l m e =
    absurd (omega (arith, ap length e, length-append l (with_nul m), length-append m (0 ∷ [])))

late-Stuck : (n : ℕ) (s : System) (me : ℕ) → me < n → (inv : Inv n s) → Stuck me s → 0 < inv.late me
late-Stuck n s me h inv st = by_lags (inv.slots me h).lags
  where
    by_lags : Lags (inv.late me) (s.files me) s.buffer s.taken → 0 < inv.late me
    by_lags (inl p) = absurd (append-ne (s.files me) s.buffer (st.lags ∙ sym p.1))
    by_lags (inr p) = omega (arith, p.0)

-- The main thread does not get its tokens.
pub short : (n : ℕ) (s : System) (me : ℕ) → me < n → Inv n s → Stuck me s → s.sd + held n s.main < n
short n s me h inv st =
    omega (arith, inv.balance, late-Stuck n s me h inv st, le-sum_below same n inv.late me h)

pub main_Stuck :
    (n : ℕ) (s : System) (me : ℕ) (pc : MainPc)
    → me < n
    → s.main ≡ pc
    → Inv n s
    → Stuck me s
    → Remains me (main_step n pc s)
unfolding main_step
main_Stuck n s me m_wait h e inv st = elim (Bool-cases (leb n s.sd)) [
  | inl f ↦ absurd (omega (arith, leb→le n s.sd f, short n s me h inv st))
  | inr f ↦ rw f tt
]
main_Stuck n s me m_scan h e inv st = absurd (omega (arith, short n s me h inv st, ap (held n) e))
main_Stuck n s me m_exit h e inv st = tt
main_Stuck n s me m_fault h e inv st = tt
main_Stuck n s me (m_post j) h e inv st = elim (Bool-cases (ltb j n)) [
  | inl f ↦ rw f (record {
    waits = st.waits;
    uncalled = update_ne s.sd1 j me (s.sd1 j + 1) (other j me gone) ∙ st.uncalled;
    passed = still j me gone;
    lags = st.lags;
  })
  | inr f ↦
      rw f (record { waits = st.waits; uncalled = st.uncalled; passed = refl; lags = st.lags })
]
  where
    gone : due (m_post j) me ≡ 0
    gone = ap (λ pc. due pc me) (sym e) ∙ st.passed

    other : (j me : ℕ) → due (m_post j) me ≡ 0 → j ≢ me
    other j me z = ground arith

    still : (j me : ℕ) → due (m_post j) me ≡ 0 → due (m_post (j + 1)) me ≡ 0
    still j me z = ground arith

-- Another worker leaves the stuck one alone.
pub other_Stuck :
    (s : System) (i me : ℕ) (pc : WorkerPc) → i ≢ me → Stuck me s → Remains me (worker_step i pc s)
unfolding worker_step take_turn
other_Stuck s i me w_wait ne st = by_count (s.sd1 i)
  where
    by_count : (k : ℕ) → Remains me (take_turn i k s)
    by_count zero = tt
    by_count (suc k) = record {
      waits = update_ne s.workers i me w_write ne ∙ st.waits;
      uncalled = update_ne s.sd1 i me k ne ∙ st.uncalled;
      passed = st.passed;
      lags = st.lags;
    }
other_Stuck s i me w_write ne st = record {
  waits = update_ne s.workers i me w_post ne ∙ st.waits;
  uncalled = st.uncalled;
  passed = st.passed;
  lags = ap (λ l. l ++ with_nul s.buffer) (update_ne s.files i me _ ne) ∙ st.lags;
}
other_Stuck s i me w_post ne st = record {
  waits = update_ne s.workers i me w_wait ne ∙ st.waits;
  uncalled = st.uncalled;
  passed = st.passed;
  lags = st.lags;
}
