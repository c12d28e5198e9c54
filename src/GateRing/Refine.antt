-- ===== src/GateRing/Refine.antt =====
-- The ring over lawful gates against the ring of SlotRing.
use sistemi_operativi.Prelude.{
  ℕ, suc, ◌+◌, ◌%◌, ◌≡◌, refl, sym, ap, ◌∙◌, subst, fun_ext, Bool, true, Option, none, some, arith,
  update, inl, inr, ◌&&◌, not, Bool-cases,
}
use sistemi_operativi.SlotRing.{
  ProducerPc, p_wait, p_write, p_post, ConsumerPc, c_wait, c_read, c_post, c_broken, c_ended,
  SemSet, m_wait, down, up,
}
use sistemi_operativi.SlotRing.Invariant.{Running, p_held, c_held}
use sistemi_operativi.SlotRing.Steps.{down-suc, ℕ-cases}
use sistemi_operativi.SlotRing
use sistemi_operativi.GateRing.Gates.{Gate, IsLawful}
use sistemi_operativi.GateRing.Waits.{
  producer_step-none, producer_step-some, consumer_step-none, consumer_step-some,
}
use sistemi_operativi.GateRing.{
  System, Actor, run_producer, run_consumer, producer_step, consumer_step, alive, step,
}

-- The same program with semaphores that count what the gates count.
abbrev pub actor : Actor → SlotRing.Actor
actor run_producer = SlotRing.run_producer
actor run_consumer = SlotRing.run_consumer

module _ (g : Gate) (law : IsLawful g) where
  abbrev pub semaphores : (ℕ → Gate.State g) → SemSet
  semaphores gates = record { exists = true; count = λ i. law.count (gates i) }

  abbrev pub ring : System g → SlotRing.System
  ring s = record {
    sem_free_slot = semaphores s.sem_free_slot;
    sem_available_item = semaphores s.sem_available_item;
    v = s.v;
    producer = s.producer;
    p_data = s.p_data;
    p_index = s.p_index;
    consumer = s.consumer;
    c_data = s.c_data;
    c_index = s.c_index;
    main = m_wait;
  }

  semaphores-update :
      (gates : ℕ → Gate.State g) (i : ℕ) (x : Gate.State g) (k : ℕ)
      → law.count x ≡ k
      → record { exists = true; count = update (semaphores gates).count i k }
        ≡ semaphores (update gates i x)
  semaphores-update gates i x k e =
      ap (λ f. record { exists = true; count = f }) (fun_ext (λ j. same j))
    where
      same : (j : ℕ) → update (semaphores gates).count i k j ≡ law.count (update gates i x j)
      same j = ground (arith, e)

  -- What a step leads to is what the same step of the other ring leads to.
  abbrev Matches : Option (System g) → Option SlotRing.System → Type 0
  Matches none o = Unit
  Matches (some t) o = o ≡ some (ring t)

  Matches-some :
      {o : Option (System g)} {p : Option SlotRing.System} {t : System g}
      → o ≡ some t
      → p ≡ some (ring t)
      → Matches o p
  Matches-some {o} {p} {t} e q = subst (λ x. Matches x p) (sym e) q

  Matches-none : (p : Option SlotRing.System) {o : Option (System g)} → o ≡ none → Matches o p
  Matches-none p {o} e = subst (λ x. Matches x p) (sym e) tt

  -- `down` on an opened gate.
  down-semaphores :
      (gates : ℕ → Gate.State g) (i k : ℕ) (y : Gate.State g)
      → law.count (gates i) ≡ suc k
      → law.count y ≡ k
      → down i (semaphores gates) ≡ some (semaphores (update gates i y))
  down-semaphores gates i k y e q =
      down-suc i (semaphores gates) k refl e ∙ ap some (semaphores-update gates i y k q)

  -- `up` on a closed gate.
  up-semaphores :
      (gates : ℕ → Gate.State g) (i : ℕ)
      → law.count (gates i) ≡ 0
      → up i (semaphores gates) ≡ semaphores (update gates i (Gate.leave g (gates i)))
  up-semaphores gates i z =
      semaphores-update gates i (Gate.leave g (gates i)) (law.count (gates i) + 1)
        (law.count-leave (gates i) z ∙ ap (λ n. n + 1) (sym z))

  module _ (size last : ℕ) where
    producer_Matches :
        (s : System g) (pc : ProducerPc)
        → s.producer ≡ pc
        → Running size last (ring s)
        → Matches (producer_step g size last pc s) (SlotRing.producer_step size last pc (ring s))
    unfolding producer_step SlotRing.producer_step
    producer_Matches s p_wait e run = elim (ℕ-cases (law.count (s.sem_free_slot s.p_index))) [
      | inl z ↦
          Matches-none _
            (producer_step-none g size last s (law.enter-none (s.sem_free_slot s.p_index) z))
      | inr (k, c) ↦
          let (y, (enters, q)) = law.enter-some (s.sem_free_slot s.p_index) k c in
          Matches-some (producer_step-some g size last s y enters)
            (rw (down-semaphores s.sem_free_slot s.p_index k y c q, SlotRing.producer_step) refl)
    ]
    producer_Matches s p_write e run = refl
    producer_Matches s p_post e run =
        ap
          (λ set. some (record (ring s) {
            sem_available_item = set;
            p_index = (s.p_index + 1) % size;
            p_data = s.p_data + 1;
            producer = p_wait;
          }))
          (up-semaphores s.sem_available_item s.p_index taken)
      where
        taken : law.count (s.sem_available_item s.p_index) ≡ 0
        taken =
            ap (λ i. law.count (s.sem_available_item i)) run.p_slot
            ∙ run.absent s.p_data (omega arith) (omega (arith, run.room, ap p_held e))

    consumer_Matches :
        (s : System g) (pc : ConsumerPc)
        → s.consumer ≡ pc
        → Running size last (ring s)
        → Matches (consumer_step g size last pc s) (SlotRing.consumer_step size last pc (ring s))
    unfolding consumer_step SlotRing.consumer_step
    consumer_Matches s c_wait e run = elim (ℕ-cases (law.count (s.sem_available_item s.c_index))) [
      | inl z ↦
          Matches-none _
            (consumer_step-none g size last s (law.enter-none (s.sem_available_item s.c_index) z))
      | inr (k, c) ↦
          let (y, (enters, q)) = law.enter-some (s.sem_available_item s.c_index) k c in
          Matches-some (consumer_step-some g size last s y enters) (
            rw (down-semaphores s.sem_available_item s.c_index k y c q, SlotRing.consumer_step)
              refl)
    ]
    consumer_Matches s c_read e run = refl
    consumer_Matches s c_post e run =
        ap
          (λ set. some (record (ring s) {
            sem_free_slot = set;
            c_index = (s.c_index + 1) % size;
            c_data = s.c_data + 1;
            consumer = c_wait;
          }))
          (up-semaphores s.sem_free_slot s.c_index held)
      where
        held : law.count (s.sem_free_slot s.c_index) ≡ 0
        held =
            ap (λ i. law.count (s.sem_free_slot i)) run.c_slot
            ∙ run.taken s.c_data (omega arith) (omega (arith, run.order, ap c_held e))
    consumer_Matches s c_broken e run = tt
    consumer_Matches s c_ended e run = tt

    step-Matches :
        (threads : Bool) (s : System g) (a : Actor)
        → Running size last (ring s)
        → Matches (step g size last threads a s) (SlotRing.step size last (actor a) (ring s))
    unfolding step SlotRing.step
    step-Matches threads s run_producer run =
        elim (Bool-cases (threads && not (alive g size last s.consumer))) [
          | inl stopped ↦ rw stopped tt
          | inr goes ↦ rw goes (producer_Matches s s.producer refl run)
        ]
    step-Matches threads s run_consumer run = consumer_Matches s s.consumer refl run

    -- A step that is taken is taken by the other ring.
    pub step-some :
        (threads : Bool) (s : System g) (a : Actor) {t : System g}
        → Running size last (ring s)
        → step g size last threads a s ≡ some t
        → SlotRing.step size last (actor a) (ring s) ≡ some (ring t)
    step-some threads s a run e =
        subst (λ o. Matches o (SlotRing.step size last (actor a) (ring s))) e
          (step-Matches threads s a run)
