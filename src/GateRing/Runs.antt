-- ===== src/GateRing/Runs.antt =====
-- The reachable states of the ring over lawful gates.
use sistemi_operativi.Prelude.{
  ℕ, ◌<◌, ◌≡◌, sym, ap, subst, Bool, Option, none, some, update, Option-cases, inl, inr, ◌&&◌, not,
  Bool-cases,
}
use sistemi_operativi.SlotRing.{ProducerPc, p_wait, p_write, p_post, c_ended}
use sistemi_operativi.SlotRing.Invariant.{start-Running}
use sistemi_operativi.SlotRing.Steps.{Inv, running, over, step-Inv}
use sistemi_operativi.GateRing.Gates.{Gate, IsLawful}
use sistemi_operativi.GateRing.Refine.{actor, ring, step-some}
use sistemi_operativi.GateRing.Waits.{producer_step-none, producer_step-some}
use sistemi_operativi.GateRing.{
  System, Actor, run_producer, run_consumer, producer_step, consumer_step, alive, step, Reach, here,
  next,
}

module _ (g : Gate) (law : IsLawful g) where
  module _ (size last : ℕ) where
    -- A producer alone leaves the consumer ended.
    abbrev Ended : Option (System g) → Type 0
    Ended none = Unit
    Ended (some t) = t.consumer ≡ c_ended

    producer_Ended :
        (s : System g) (pc : ProducerPc)
        → s.consumer ≡ c_ended
        → Ended (producer_step g size last pc s)
    unfolding producer_step
    producer_Ended s p_wait e = elim (Option-cases (Gate.enter g (s.sem_free_slot s.p_index))) [
      | inl z ↦ subst Ended (sym (producer_step-none g size last s z)) tt
      | inr (x, q) ↦ subst Ended (sym (producer_step-some g size last s x q)) (stays x)
    ]
      where
        stays :
            (x : Gate.State g)
            → Ended (
                some (record s {
                  sem_free_slot = update s.sem_free_slot s.p_index x;
                  producer = p_write;
                }))
        stays x = e
    producer_Ended s p_write e = e
    producer_Ended s p_post e = e

    step-Ended :
        (threads : Bool) (s : System g) (a : Actor)
        → s.consumer ≡ c_ended
        → Ended (step g size last threads a s)
    unfolding step consumer_step
    step-Ended threads s run_producer e =
        elim (Bool-cases (threads && not (alive g size last s.consumer))) [
          | inl stopped ↦ rw stopped tt
          | inr goes ↦ rw goes (producer_Ended s s.producer e)
        ]
    step-Ended threads s run_consumer e =
        subst Ended (sym (ap (λ pc. consumer_step g size last pc s) e)) tt

    -- What holds of the states of a run.
    pub Reach-Inv :
        {threads : Bool} {content : ℕ → ℕ} {s : System g}
        → 0 < size
        → Reach g size last threads content s
        → Inv size last (ring g law s)
    Reach-Inv {content = content} pos here =
        rw (law.count-opened, law.count-closed) (running (start-Running size last content pos) tt)
    Reach-Inv {threads} pos (next {s} {t} a r e) = elim (Reach-Inv pos r) [
      | over ended ↦ over (subst Ended e (step-Ended threads s a ended))
      | running run m ↦
          step-Inv size last (ring g law s) (actor a) pos (running run m)
            (step-some g law size last threads s a run e)
    ]
