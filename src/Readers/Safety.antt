-- ===== src/Readers/Safety.antt =====
-- What holds in the reachable states of readers-writers-syncronization.c.
use sistemi_operativi.Prelude.{ℕ, ◌*◌, ◌<◌, ◌≡◌, ◌≢◌, refl, ap, subst, arith, sum_below_zero}
use sistemi_operativi.Readers.{
  ProducerPc, p_wait_write, p_wait_read, p_post_read, p_post_write, p_fill, c_ended, c_sum, System,
  Reach,
}
use sistemi_operativi.Readers.Locks.{
  writer, filler, at_write, at_read, holds_write, holds_read, SumOf, Filled, Content, Inv,
}
use sistemi_operativi.Readers.Steps.{none_reads}
use sistemi_operativi.Readers.Runs.{Reach-Inv}

-- In every reachable state where a consumer is in its loop, all elements of the array are one number, and
-- what the consumer has added up is its index times that number.
pub no_torn_read :
    {n size last : ℕ} {s : System} (me i value : ℕ)
    → Reach n size last s
    → me < n
    → (s.consumers me).pc ≡ c_sum i value
    → (d : ℕ) × (((j : ℕ) → j < size → s.v j ≡ d) × (value ≡ i * d))
no_torn_read {n} {size} {last} {s} me i value r h e =
    let inv : Inv n size s = Reach-Inv r in
    let (d, f) = settled inv s.producer refl inv.content in
    (d, (f, subst (SumOf d) e (inv.sums d f me h)))
  where
    settled :
        Inv n size s
        → (pc : ProducerPc) → s.producer ≡ pc
        → Content size pc s.v s.current_data
        → (d : ℕ) × Filled size d s.v
    settled inv p_wait_write q c = c
    settled inv p_wait_read q c = c
    settled inv p_post_read q c = c
    settled inv p_post_write q c = c
    settled inv (p_fill k) q c = absurd (omega (arith, none_reads k inv q me h, ap at_read e))

-- In no reachable state is the producer in its loop while a consumer is in its own.
fill_exclusive :
    {n size last : ℕ} {s : System} (k me i value : ℕ)
    → Reach n size last s
    → me < n
    → s.producer ≡ p_fill k
    → (s.consumers me).pc ≢ c_sum i value
fill_exclusive k me i value r h q e =
    absurd (omega (arith, none_reads k (Reach-Inv r) q me h, ap at_read e))

-- In a reachable state where all consumers have exited and the producer is before its first semop, the
-- tokens of both semaphores are there again.
tokens_restored :
    {n size last : ℕ} {s : System}
    → Reach n size last s
    → s.producer ≡ p_wait_write
    → ((me : ℕ) → me < n → (s.consumers me).pc ≡ c_ended)
    → (s.sem_write ≡ 1) × (s.sem_read ≡ n)
tokens_restored {n} {size} {last} {s} r q ended =
    let inv : Inv n size s = Reach-Inv r in
    (
      omega (
        arith,
        inv.write,
        ap writer q,
        sum_below_zero holds_write n s.consumers (λ i l. ap at_write (ended i l)),
      ),
      omega (
        arith,
        inv.read,
        ap (filler n) q,
        sum_below_zero holds_read n s.consumers (λ i l. ap at_read (ended i l)),
      ),
    )
