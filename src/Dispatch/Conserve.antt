-- ===== src/Dispatch/Conserve.antt =====
-- The steps of `main` of prog-A-solution.c (exam of 26-6-2018), with the count of its token and values.
use sistemi_operativi.Prelude.{
  ℕ, zero, suc, ◌+◌, ◌≤◌, ◌<◌, ◌≡◌, refl, sym, ap, ◌∙◌, subst, Bool, true, false, Option, none,
  some, List, [], ◌∷◌, ◌++◌, arith, sum_below, sum_below-update, sum_below_zero, update,
  update_self, update_ne, Bool-cases, inl, inr, ℕ_discrete,
}
use sistemi_operativi.Prelude.Int.{ℤ, pos, negsuc}
use sistemi_operativi.Dispatch.{
  Token, number, junk, Data, MainPc, m_lock, m_scan, m_unlock, m_exit, WorkerPc, w_lock, w_copy,
  w_unlock, w_next, w_link, System, scan, main_step, start,
}
use sistemi_operativi.Prelude.Count.{count, count-append}
use sistemi_operativi.Dispatch.Tokens.{
  only, only_zero, only-one, main_token, worker_token, free, main_pending, worker_pending, carried,
  tokens, pending, listed, on_the_way,
}

-- A record about to be linked hangs before the list as it is.
abbrev pub Linked : WorkerPc → Data → Type 0
Linked (w_link aux) d = aux.next ≡ d.next
Linked _ d = Unit

pub record Inv (n : ℕ) (s : System) : Type 0 where
  pub token : tokens n s ≡ 1
  pub conserved : (p : ℤ → Bool) → count p s.taken ≡ listed p n s + on_the_way p n s
  pub linked : (i : ℕ) → Linked (s.workers i) (s.lists i)
  pub heads : (i : ℕ) → (s.lists i).val ≡ negsuc 0

-- The state behind a step, if there is one.
abbrev pub After : ℕ → Option System → Type 0
After n none = Unit
After n (some t) = Inv n t

pub start-Inv : (n : ℕ) (input : List Token) → Inv n (start input)
unfolding count
start-Inv n input = record {
  token = omega (arith, sum_below_zero worker_token n (λ _. w_lock) (λ i l. refl));
  conserved = λ p. empty p;
  linked = λ i. tt;
  heads = λ i. refl;
}
  where
    empty : (p : ℤ → Bool) → 0 ≡ listed p n (start input) + on_the_way p n (start input)
    empty p = omega (
      arith,
      sum_below_zero (λ (d : Data). count p d.next) n (λ _. record { val = negsuc 0; next = [] })
          (λ i l. refl),
      sum_below_zero (carried p) n (λ _. w_lock) (λ i l. refl),
      ap (only (p (pos 0))) none_pending,
      only_zero (p (pos 0)),
    )
      where
        none_pending : pending n (start input) ≡ 0
        none_pending = omega (arith, sum_below_zero worker_pending n (λ _. w_lock) (λ i l. refl))

-- A worker's weight moves from one program counter to the next.
pub moved :
    (w : WorkerPc → ℕ) (n : ℕ) (s : System) (me : ℕ) (pc' : WorkerPc) {pc : WorkerPc}
    → me < n
    → s.workers me ≡ pc
    → sum_below w n (update s.workers me pc') + w pc ≡ sum_below w n s.workers + w pc'
moved w n s me pc' h e =
    subst (λ q. sum_below w n (update s.workers me pc') + w q ≡ sum_below w n s.workers + w pc') e
      (sum_below-update w n s.workers me pc' h)

-- What is linked stays so where a worker that links nothing moves on.
pub Linked-update :
    (s : System) (me : ℕ) (pc : WorkerPc)
    → Linked pc (s.lists me)
    → ((i : ℕ) → Linked (s.workers i) (s.lists i))
    → (i : ℕ) → Linked (update s.workers me pc i) (s.lists i)
Linked-update s me pc l h i = elim (ℕ_discrete me i) [
  | yes e ↦
      subst (λ j. Linked (update s.workers me pc j) (s.lists j)) e
        (subst (λ q. Linked q (s.lists me)) (sym (update_self s.workers me pc)) l)
  | no ne ↦ subst (λ q. Linked q (s.lists i)) (sym (update_ne s.workers me i pc ne)) (h i)
]

worker_pending-le : (pc : WorkerPc) → worker_pending pc ≤ worker_token pc
worker_pending-le w_lock = omega arith
worker_pending-le w_copy = omega arith
worker_pending-le (w_unlock v) = omega arith
worker_pending-le (w_next v) = omega arith
worker_pending-le (w_link aux) = omega arith

pub sum-worker_pending-le :
    (n : ℕ) (f : ℕ → WorkerPc) → sum_below worker_pending n f ≤ sum_below worker_token n f
unfolding sum_below
sum-worker_pending-le zero f = omega arith
sum-worker_pending-le (suc n) f = omega (arith, sum-worker_pending-le n f, worker_pending-le (f n))

pub pending-le-tokens : (n : ℕ) (s : System) → s.main ≡ m_scan → tokens n s ≡ 1 → pending n s ≡ 0
pending-le-tokens n s e h =
    omega (arith, ap main_token e, ap main_pending e, sum-worker_pending-le n s.workers)

-- The same values are on the way, since `val` is pending as before.
same_pending :
    (p : ℤ → Bool) (n : ℕ) (s t : System)
    → t.lists ≡ s.lists
    → t.workers ≡ s.workers
    → t.val ≡ s.val
    → pending n t ≡ pending n s
    → listed p n s + on_the_way p n s ≡ listed p n t + on_the_way p n t
same_pending p n s t l w v e = omega (
  arith,
  ap (sum_below (carried p) n) w,
  ap (sum_below (λ (d : Data). count p d.next) n) l,
  ap (only (p t.val)) e,
  ap (λ x. only (p x) (pending n s)) v,
)

scan_Inv : (n : ℕ) (s : System) (l : List Token) → s.main ≡ m_scan → Inv n s → After n (scan l s)
unfolding scan count
scan_Inv n s [] e inv = inv
scan_Inv n s (junk ∷ later) e inv = record {
  token = omega (arith, inv.token, ap main_token e);
  conserved = λ p.
      inv.conserved p
      ∙ same_pending p n s (record s { main = m_exit }) refl refl refl
          (omega (arith, ap main_pending e));
  linked = inv.linked;
  heads = inv.heads;
}
scan_Inv n s (number v ∷ later) e inv = record {
  token = omega (arith, inv.token, ap main_token e);
  conserved = λ p. omega (
    arith,
    inv.conserved p,
    count-append p s.taken (v ∷ []),
    ap (only (p s.val)) (pending-le-tokens n s e inv.token),
    only_zero (p s.val),
    ap (only (p v)) now,
    only-one (p v),
  );
  linked = inv.linked;
  heads = inv.heads;
}
  where
    now :
        pending n
          (record s { val = v; input = later; taken = s.taken ++ (v ∷ []); main = m_unlock })
        ≡ 1
    now = omega (arith, pending-le-tokens n s e inv.token, ap main_pending e)

pub main_Inv : (n : ℕ) (s : System) (pc : MainPc) → s.main ≡ pc → Inv n s → After n (main_step pc s)
unfolding main_step
main_Inv n s m_lock e inv = elim (Bool-cases s.next) [
  | inl f ↦ rw f tt
  | inr f ↦ rw f (record {
    token = omega (arith, inv.token, ap free f, ap main_token e);
    conserved = λ p.
        inv.conserved p
        ∙ same_pending p n s (record s { next = true; main = m_scan }) refl refl refl
            (omega (arith, ap main_pending e));
    linked = inv.linked;
    heads = inv.heads;
  })
]
main_Inv n s m_scan e inv = scan_Inv n s s.input e inv
main_Inv n s m_unlock e inv = record {
  token = omega (arith, inv.token, ap main_token e);
  conserved = λ p.
      inv.conserved p
      ∙ same_pending p n s (record s { lock = false; main = m_lock }) refl refl refl
          (omega (arith, inv.token, ap main_token e, ap main_pending e));
  linked = inv.linked;
  heads = inv.heads;
}
main_Inv n s m_exit e inv = tt
