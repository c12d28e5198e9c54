-- ===== src/Readers/Runs.antt =====
-- The steps of `consumer` of readers-writers-syncronization.c, and all steps of the processes.
use sistemi_operativi.Prelude.{
  ℕ, ◌+◌, ◌-◌, ◌*◌, ◌<◌, ◌≡◌, refl, ap, subst, arith, Bool-cases, inl, inr, leb, ltb, leb→le,
  ltb→lt,
}
use sistemi_operativi.Readers.{
  ConsumerPc, c_wait_write, c_wait_read, c_post_write, c_post_read, c_ended, c_sum, System, Actor,
  run_producer, run_consumer, consumer_step, step, Reach, here, next,
}
use sistemi_operativi.Readers.Locks.{at_write, at_read, SumOf, Inv, After, start-Inv}
use sistemi_operativi.Readers.Steps.{producer_Inv, consumer_moves}

mul_suc : (i d : ℕ) → (i + 1) * d ≡ i * d + d
mul_suc i d = grind arith

consumer_Inv :
    (n size last : ℕ) (s : System) (me : ℕ) (pc : ConsumerPc)
    → me < n
    → (s.consumers me).pc ≡ pc
    → Inv n size s
    → After n size (consumer_step n size last me pc (s.consumers me) s)
unfolding consumer_step
consumer_Inv n size last s me c_wait_write h e inv = elim (Bool-cases (leb 1 s.sem_write)) [
  | inr f ↦ rw f tt
  | inl f ↦ rw f (
      consumer_moves n size s me (s.sem_write - 1) s.sem_read _ h inv
        (omega (arith, ap at_write e, leb→le 1 s.sem_write f)) (omega (arith, ap at_read e))
        (omega (arith, ap at_write e, inv.undo_write me h))
        (omega (arith, ap at_read e, inv.undo_read me h)) (λ d g. tt))
]
consumer_Inv n size last s me c_wait_read h e inv = elim (Bool-cases (leb 1 s.sem_read)) [
  | inr f ↦ rw f tt
  | inl f ↦ rw f (
      consumer_moves n size s me s.sem_write (s.sem_read - 1) _ h inv (omega (arith, ap at_write e))
        (omega (arith, ap at_read e, leb→le 1 s.sem_read f))
        (omega (arith, ap at_write e, inv.undo_write me h))
        (omega (arith, ap at_read e, inv.undo_read me h)) (λ d g. tt))
]
consumer_Inv n size last s me c_post_write h e inv =
    consumer_moves n size s me (s.sem_write + 1) s.sem_read _ h inv (omega (arith, ap at_write e))
      (omega (arith, ap at_read e)) (omega (arith, ap at_write e, inv.undo_write me h))
      (omega (arith, ap at_read e, inv.undo_read me h)) (λ d g. omega arith)
consumer_Inv n size last s me c_post_read h e inv =
    consumer_moves n size s me s.sem_write (s.sem_read + 1) _ h inv (omega (arith, ap at_write e))
      (omega (arith, ap at_read e)) (omega (arith, ap at_write e, inv.undo_write me h))
      (omega (arith, ap at_read e, inv.undo_read me h)) (λ d g. tt)
consumer_Inv n size last s me c_ended h e inv = tt
consumer_Inv n size last s me (c_sum i value) h e inv = elim (Bool-cases (ltb i size)) [
  | inl f ↦ rw f (
      consumer_moves n size s me s.sem_write s.sem_read _ h inv (omega (arith, ap at_write e))
        (omega (arith, ap at_read e)) (omega (arith, ap at_write e, inv.undo_write me h))
        (omega (arith, ap at_read e, inv.undo_read me h))
        (λ d g.
          omega (arith, mul_suc i d, g i (ltb→lt i size f), subst (SumOf d) e (inv.sums d g me h))))
  | inr f ↦ elim (Bool-cases (leb last (s.consumers me).rounds)) [
    | inl q ↦
        rw (f, q)
          (consumer_moves n size s me (s.sem_write + (s.consumers me).undo_write)
            (s.sem_read + (s.consumers me).undo_read) _ h inv (omega (arith, inv.undo_write me h))
            (omega (arith, inv.undo_read me h)) refl refl (λ d g. tt))
    | inr q ↦
        rw (f, q)
          (consumer_moves n size s me s.sem_write s.sem_read _ h inv (omega (arith, ap at_write e))
            (omega (arith, ap at_read e)) (omega (arith, ap at_write e, inv.undo_write me h))
            (omega (arith, ap at_read e, inv.undo_read me h)) (λ d g. tt))
  ]
]

step-Inv :
    (n size last : ℕ) (s : System) (a : Actor) → Inv n size s → After n size (step n size last a s)
unfolding step
step-Inv n size last s run_producer inv = producer_Inv n size last s s.producer refl inv
step-Inv n size last s (run_consumer me) inv = elim (Bool-cases (ltb me n)) [
  | inl l ↦ rw l (consumer_Inv n size last s me (s.consumers me).pc (ltb→lt me n l) refl inv)
  | inr l ↦ rw l tt
]

pub Reach-Inv : {n size last : ℕ} {s : System} → Reach n size last s → Inv n size s
Reach-Inv {n} {size} {last} here = start-Inv n size last
Reach-Inv {n} {size} {last} (next {s} a r e) =
    subst (After n size) e (step-Inv n size last s a (Reach-Inv r))
