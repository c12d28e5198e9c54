-- ===== src/Readers/Steps.antt =====
-- The steps of `producer` and `consumer` of readers-writers-syncronization.c.
use sistemi_operativi.Prelude.{
  ℕ, ◌+◌, ◌≤◌, ◌<◌, ◌≡◌, ap, ◌∙◌, subst, false, arith, sum_below-update, le-sum_below, update,
  update_self, update_ne, ℕ_discrete, Bool-cases, inl, inr, leb, ltb, leb→le,
}
use sistemi_operativi.Readers.{
  ProducerPc, p_wait_write, p_wait_read, p_post_read, p_post_write, p_fill, ConsumerPc,
  c_wait_write, c_wait_read, c_post_write, c_post_read, c_ended, c_sum, Consumer, System,
  producer_step,
}
use sistemi_operativi.Readers.Locks.{
  writer, filler, at_read, holds_write, holds_read, SumOf, Filled, Content, Inv, After, update-All,
}

-- A consumer that holds no token of `sem_read` has added up nothing.
SumOf-idle : (d : ℕ) (pc : ConsumerPc) → at_read pc ≡ 0 → SumOf d pc
SumOf-idle d c_wait_write h = tt
SumOf-idle d c_wait_read h = tt
SumOf-idle d c_post_write h = tt
SumOf-idle d c_post_read h = tt
SumOf-idle d c_ended h = tt
SumOf-idle d (c_sum i value) h = absurd (omega (arith, h))

-- While the producer fills the array, no consumer has a token of `sem_read`.
pub none_reads :
    {n size : ℕ} {s : System} (k : ℕ)
    → Inv n size s
    → s.producer ≡ p_fill k
    → (i : ℕ) → i < n
    → at_read (s.consumers i).pc ≡ 0
none_reads {n} {size} {s} k inv e i l =
    omega (arith, inv.read, ap (filler n) e, le-sum_below holds_read n s.consumers i l)

Filled-suc : (k d : ℕ) (v : ℕ → ℕ) → Filled k d v → Filled (k + 1) d (update v k d)
Filled-suc k d v f j l = elim (ℕ_discrete k j) [
  | yes e ↦ subst (λ x. update v k d x ≡ d) e (update_self v k d)
  | no ne ↦ update_ne v k j d ne ∙ f j (omega (arith, l, ne))
]

pub producer_Inv :
    (n size last : ℕ) (s : System) (pc : ProducerPc)
    → s.producer ≡ pc
    → Inv n size s
    → After n size (producer_step n size last pc s)
unfolding producer_step
producer_Inv n size last s p_wait_write e inv = elim (Bool-cases (leb 1 s.sem_write)) [
  | inr f ↦ rw f tt
  | inl f ↦ rw f (record {
    write = omega (arith, inv.write, ap writer e, leb→le 1 s.sem_write f);
    read = omega (arith, inv.read, ap (filler n) e);
    undo_write = inv.undo_write;
    undo_read = inv.undo_read;
    content = subst (λ pc. Content size pc s.v s.current_data) e inv.content;
    sums = inv.sums;
  })
]
producer_Inv n size last s p_wait_read e inv = elim (Bool-cases (leb n s.sem_read)) [
  | inr f ↦ rw f tt
  | inl f ↦ rw f (record {
    write = omega (arith, inv.write, ap writer e);
    read = omega (arith, inv.read, ap (filler n) e, leb→le n s.sem_read f);
    undo_write = inv.undo_write;
    undo_read = inv.undo_read;
    content = λ j l. absurd (omega (arith, l));
    sums = inv.sums;
  })
]
producer_Inv n size last s (p_fill k) e inv = elim (Bool-cases (ltb k size)) [
  | inl f ↦ rw f (record {
    write = omega (arith, inv.write, ap writer e);
    read = omega (arith, inv.read, ap (filler n) e);
    undo_write = inv.undo_write;
    undo_read = inv.undo_read;
    content =
        Filled-suc k s.current_data s.v
          (subst (λ pc. Content size pc s.v s.current_data) e inv.content);
    sums = λ d g i l. SumOf-idle d (s.consumers i).pc (none_reads k inv e i l);
  })
  | inr f ↦ rw f (record {
    write = omega (arith, inv.write, ap writer e);
    read = omega (arith, inv.read, ap (filler n) e);
    undo_write = inv.undo_write;
    undo_read = inv.undo_read;
    content = full (subst (λ pc. Content size pc s.v s.current_data) e inv.content) f;
    sums = inv.sums;
  })
]
  where
    full : Filled k s.current_data s.v → ltb k size ≡ false → (d : ℕ) × Filled size d s.v
    full g f = (s.current_data, λ j l. g j (let h : size ≤ k = ground arith in omega (arith, h, l)))
producer_Inv n size last s p_post_read e inv = record {
  write = omega (arith, inv.write, ap writer e);
  read = omega (arith, inv.read, ap (filler n) e);
  undo_write = inv.undo_write;
  undo_read = inv.undo_read;
  content = subst (λ pc. Content size pc s.v s.current_data) e inv.content;
  sums = inv.sums;
}
producer_Inv n size last s p_post_write e inv = record {
  write = omega (arith, inv.write, ap writer e);
  read = omega (arith, inv.read, ap (filler n) e);
  undo_write = inv.undo_write;
  undo_read = inv.undo_read;
  content = subst (λ pc. Content size pc s.v s.current_data) e inv.content;
  sums = inv.sums;
}

-- A consumer moves to `c` and changes the semaphores to `w` and `r`.
pub consumer_moves :
    (n size : ℕ) (s : System) (me w r : ℕ) (c : Consumer)
    → me < n
    → Inv n size s
    → w + holds_write c ≡ s.sem_write + holds_write (s.consumers me)
    → r + holds_read c ≡ s.sem_read + holds_read (s.consumers me)
    → c.undo_write ≡ holds_write c
    → c.undo_read ≡ holds_read c
    → ((d : ℕ) → Filled size d s.v → SumOf d c.pc)
    → Inv n size (record s { sem_write = w; sem_read = r; consumers = update s.consumers me c })
consumer_moves n size s me w r c h inv hw hr uw ur sum = record {
  write = omega (arith, inv.write, hw, sum_below-update holds_write n s.consumers me c h);
  read = omega (arith, inv.read, hr, sum_below-update holds_read n s.consumers me c h);
  undo_write = update-All n (λ x. x.undo_write ≡ holds_write x) s.consumers me c inv.undo_write uw;
  undo_read = update-All n (λ x. x.undo_read ≡ holds_read x) s.consumers me c inv.undo_read ur;
  content = inv.content;
  sums = λ d f. update-All n (λ x. SumOf d x.pc) s.consumers me c (inv.sums d f) (sum d f);
}
