-- ===== src/Dispatch/Workers.antt =====
-- The steps of `worker` of prog-A-solution.c (exam of 26-6-2018), and all steps of the process.
use sistemi_operativi.Prelude.{
  ℕ, ◌+◌, ◌<◌, ◌≡◌, refl, sym, ap, subst, true, false, List, ◌∷◌, arith, sum_below-update, update,
  update_self, update_ne, Bool-cases, inl, inr, ℕ_discrete, ltb, ltb→lt,
}
use sistemi_operativi.Prelude.Int.{negsuc}
use sistemi_operativi.Dispatch.{
  Token, Data, WorkerPc, w_lock, w_copy, w_unlock, w_next, w_link, System, Actor, run_main,
  run_worker, worker_step, running, step, Reach, here, next,
}
use sistemi_operativi.Prelude.Count.{count}
use sistemi_operativi.Dispatch.Tokens.{
  only, only_suc, worker_token, free, worker_pending, carried, pending,
}
use sistemi_operativi.Dispatch.Conserve.{
  Linked, Inv, After, start-Inv, moved, Linked-update, main_Inv,
}

-- A record that is linked is counted in the list and no longer with its worker.
link-Inv :
    (n : ℕ) (s : System) (me : ℕ) (aux : Data)
    → me < n
    → s.workers me ≡ w_link aux
    → Inv n s
    → After n (worker_step me (w_link aux) s)
unfolding worker_step count
link-Inv n s me aux h e inv = record {
  token = omega (arith, inv.token, moved worker_token n s me w_lock h e);
  conserved = λ p. omega (
    arith,
    inv.conserved p,
    moved (carried p) n s me w_lock h e,
    sum_below-update (λ (d : Data). count p d.next) n s.lists me d h,
    ap (count p) hung,
    ap (only (p s.val)) same,
  );
  linked = linked;
  heads = heads;
}
  where
    d : Data
    d = record { val = (s.lists me).val; next = aux.val ∷ aux.next }

    hung : aux.next ≡ (s.lists me).next
    hung = subst (λ q. Linked q (s.lists me)) e (inv.linked me)

    same :
        pending n (record s { lists = update s.lists me d; workers = update s.workers me w_lock })
        ≡ pending n s
    same = omega (arith, moved worker_pending n s me w_lock h e)

    linked : (i : ℕ) → Linked (update s.workers me w_lock i) (update s.lists me d i)
    linked i = elim (ℕ_discrete me i) [
      | yes q ↦
          subst (λ j. Linked (update s.workers me w_lock j) (update s.lists me d i)) q
            (subst (λ x. Linked x (update s.lists me d i)) (sym (update_self s.workers me w_lock))
              tt)
      | no ne ↦
          subst (λ x. Linked x (update s.lists me d i)) (sym (update_ne s.workers me i w_lock ne))
            (subst (Linked (s.workers i)) (sym (update_ne s.lists me i d ne)) (inv.linked i))
    ]

    heads : (i : ℕ) → (update s.lists me d i).val ≡ negsuc 0
    heads i = elim (ℕ_discrete me i) [
      | yes q ↦
          subst (λ j. (update s.lists me d j).val ≡ negsuc 0) q
            (subst (λ (x : Data). x.val ≡ negsuc 0) (sym (update_self s.lists me d)) (inv.heads me))
      | no ne ↦
          subst (λ (x : Data). x.val ≡ negsuc 0) (sym (update_ne s.lists me i d ne)) (inv.heads i)
    ]

worker_Inv :
    (n : ℕ) (s : System) (me : ℕ) (pc : WorkerPc)
    → me < n
    → s.workers me ≡ pc
    → Inv n s
    → After n (worker_step me pc s)
unfolding worker_step
worker_Inv n s me w_lock h e inv = elim (Bool-cases s.lock) [
  | inl f ↦ rw f tt
  | inr f ↦ rw f (record {
    token = omega (arith, inv.token, ap free f, moved worker_token n s me w_copy h e);
    conserved = λ p.
        omega (
          arith,
          inv.conserved p,
          moved (carried p) n s me w_copy h e,
          ap (only (p s.val)) (same f),
        );
    linked = Linked-update s me w_copy tt inv.linked;
    heads = inv.heads;
  })
]
  where
    same :
        s.lock ≡ false
        → pending n (record s { lock = true; workers = update s.workers me w_copy }) ≡ pending n s
    same f = omega (arith, ap free f, moved worker_pending n s me w_copy h e)
worker_Inv n s me w_copy h e inv = record {
  token = omega (arith, inv.token, moved worker_token n s me (w_unlock s.val) h e);
  conserved = λ p. omega (
    arith,
    inv.conserved p,
    moved (carried p) n s me (w_unlock s.val) h e,
    ap (only (p s.val)) less,
    only_suc (p s.val) (pending n (record s { workers = update s.workers me (w_unlock s.val) })),
  );
  linked = Linked-update s me (w_unlock s.val) tt inv.linked;
  heads = inv.heads;
}
  where
    less : pending n s ≡ pending n (record s { workers = update s.workers me (w_unlock s.val) }) + 1
    less = omega (arith, moved worker_pending n s me (w_unlock s.val) h e)
worker_Inv n s me (w_unlock v) h e inv = record {
  token = omega (arith, inv.token, moved worker_token n s me (w_next v) h e);
  conserved = λ p.
      omega
        (arith, inv.conserved p, moved (carried p) n s me (w_next v) h e, ap (only (p s.val)) same);
  linked = Linked-update s me (w_next v) tt inv.linked;
  heads = inv.heads;
}
  where
    same :
        pending n (record s { next = false; workers = update s.workers me (w_next v) })
        ≡ pending n s
    same = omega (arith, moved worker_pending n s me (w_next v) h e)
worker_Inv n s me (w_next v) h e inv = record {
  token = omega (arith, inv.token, moved worker_token n s me (w_link aux) h e);
  conserved = λ p.
      omega (
        arith,
        inv.conserved p,
        moved (carried p) n s me (w_link aux) h e,
        ap (only (p s.val)) same,
      );
  linked = Linked-update s me (w_link aux) refl inv.linked;
  heads = inv.heads;
}
  where
    aux : Data
    aux = record { val = v; next = (s.lists me).next }

    same : pending n (record s { workers = update s.workers me (w_link aux) }) ≡ pending n s
    same = omega (arith, moved worker_pending n s me (w_link aux) h e)
worker_Inv n s me (w_link aux) h e inv = link-Inv n s me aux h e inv

step-Inv : (n : ℕ) (s : System) (a : Actor) → Inv n s → After n (step n a s)
unfolding step
step-Inv n s run_main inv = main_Inv n s s.main refl inv
step-Inv n s (run_worker me) inv = elim (Bool-cases (ltb me n)) [
  | inl l ↦ elim (Bool-cases (running s.main)) [
    | inl r ↦ rw (l, r) (worker_Inv n s me (s.workers me) (ltb→lt me n l) refl inv)
    | inr r ↦ rw (l, r) tt
  ]
  | inr l ↦ rw l tt
]

pub Reach-Inv : {n : ℕ} {input : List Token} {s : System} → Reach n input s → Inv n s
Reach-Inv {n} {input} here = start-Inv n input
Reach-Inv {n} (next {s} a r e) = subst (After n) e (step-Inv n s a (Reach-Inv r))
