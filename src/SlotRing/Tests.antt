-- ===== src/SlotRing/Tests.antt =====
-- A short run with two slots and the last item 1, and the theorems at its states.
use sistemi_operativi.Prelude.{
  ◌+◌, ◌≡◌, ◌≢◌, refl, none, some, List, [], ◌∷◌, ◌++◌, arith, ℕ_discrete, Option-cases, inl, inr,
  false,
}
use sistemi_operativi.SlotRing.{
  c_broken, c_ended, p_wait, System, Actor, run_producer, run_consumer, run_main, producer_step,
  check, consumer_step, wait_child, main_step, start, step, Reach, here, next,
}
use sistemi_operativi.SlotRing.Safety.{never_broken, removed_runaway}

-- The processes take steps in this order; one that cannot move is passed over.
run : List Actor → System → System
run [] s = s
run (a ∷ later) s = elim (step 2 1 a s) [ none ↦ run later s | some t ↦ run later t ]

run-Reach : (turns : List Actor) {s : System} → Reach 2 1 s → Reach 2 1 (run turns s)
unfolding run
run-Reach [] r = r
run-Reach (a ∷ later) {s} r = elim (Option-cases (step 2 1 a s)) [
  | inl blocked ↦ rw (blocked, run) (run-Reach later r)
  | inr (t, moves) ↦ rw (moves, run) (run-Reach later (next a r moves))
]

abbrev item : List Actor
item = run_producer ∷ run_producer ∷ run_producer ∷ []

abbrev taken : List Actor
taken = run_consumer ∷ run_consumer ∷ run_consumer ∷ []

-- Two items, and both processes at work: the producer on slot 0, the consumer on slot 1.
abbrev busy : List Actor
busy = item ++ (item ++ (taken ++ (run_producer ∷ run_consumer ∷ [])))

abbrev ended : List Actor
ended = busy ++ (run_consumer ∷ run_producer ∷ run_producer ∷ run_main ∷ run_main ∷ run_main ∷ [])

ended_in_order : ((run ended start).consumer ≡ c_ended) × ((run ended start).c_data ≡ 1)
unfolding run step producer_step check consumer_step wait_child main_step ℕ_discrete
ended_in_order = (refl, refl)

never_broken_example : (run busy start).consumer ≢ c_broken
never_broken_example = never_broken 2 1 (omega arith) (run-Reach busy here)

removed :
    ((run ended start).sem_free_slot.exists ≡ false)
    × ((run ended start).sem_available_item.exists ≡ false)
    × ((run ended start).producer ≡ p_wait)
unfolding run step producer_step check consumer_step wait_child main_step ℕ_discrete
removed = (refl, refl, refl)

removed_runaway_example :
    (t : System) × Reach 2 1 t
    × (t.p_data ≡ (run ended start).p_data + 1000)
    × (t.consumer ≡ (run ended start).consumer)
removed_runaway_example =
    removed_runaway 2 1 1000 (run-Reach ended here) removed.0 removed.1 removed.2
