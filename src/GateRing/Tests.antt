-- ===== src/GateRing/Tests.antt =====
-- A short run with two slots and the last item 1, over mutexes, and the theorems at it.
use sistemi_operativi.Prelude.{
  ℕ, ◌≡◌, ◌≢◌, refl, sym, ◌∙◌, true, none, some, List, [], ◌∷◌, ◌++◌, arith, ℕ_discrete,
  Option-cases, inl, inr, ◌==◌, if◌then◌else◌,
}
use sistemi_operativi.SlotRing.{c_ended, c_read, check}
use sistemi_operativi.SlotRing
use sistemi_operativi.GateRing.Gates.{Gate}
use sistemi_operativi.GateRing.{
  Actor, run_producer, run_consumer, producer_step, consumer_step, alive, step, start, Reach, here,
  next,
}
use sistemi_operativi.GateRing
use sistemi_operativi.GateRing.Mutex.{mutex, mutex_lock, mutex_unlock, mutex-IsLawful}
use sistemi_operativi.GateRing.Mutex
use sistemi_operativi.GateRing.Named.{slot, item, Names, sem_open}
use sistemi_operativi.GateRing.Named
use sistemi_operativi.GateRing.Named.Opened.{start_counts}
use sistemi_operativi.GateRing.Refine.{actor, ring}
use sistemi_operativi.GateRing.Safety.{ring_refined}

module _ (g : Gate) (content : ℕ → ℕ) where
  run : List Actor → GateRing.System g → GateRing.System g
  run [] s = s
  run (a ∷ later) s = elim (step g 2 1 true a s) [ none ↦ run later s | some t ↦ run later t ]

  run-Reach :
      (turns : List Actor) {s : GateRing.System g}
      → Reach g 2 1 true content s
      → Reach g 2 1 true content (run turns s)
  unfolding run
  run-Reach [] r = r
  run-Reach (a ∷ later) {s} r = elim (Option-cases (step g 2 1 true a s)) [
    | inl blocked ↦ rw (blocked, run) (run-Reach later r)
    | inr (t, moves) ↦ rw (moves, run) (run-Reach later (next a r moves))
  ]

abbrev minus_one : ℕ → ℕ
minus_one i = 18_446_744_073_709_551_615

abbrev put : List Actor
put = run_producer ∷ run_producer ∷ run_producer ∷ []

abbrev got : List Actor
got = run_consumer ∷ run_consumer ∷ run_consumer ∷ []

-- Two items, one of them taken, and the consumer about to read the other.
abbrev turns : List Actor
turns = put ++ (put ++ (got ++ (run_consumer ∷ [])))

abbrev mutexes : Mutex.System
mutexes = run mutex minus_one turns Mutex.start

mutexes-reading : mutexes.consumer ≡ c_read
unfolding run step producer_step consumer_step alive check mutex_lock mutex_unlock ℕ_discrete
mutexes-reading = refl

mutexes-Reach : Mutex.Reach 2 1 mutexes
mutexes-Reach = run-Reach mutex minus_one turns here

mutexes-ne : mutexes.consumer ≢ c_ended
mutexes-ne e = let x = sym mutexes-reading ∙ e in cc

abbrev read : Mutex.System
read = record mutexes { consumer = check 2 1 (mutexes.v mutexes.c_index) mutexes.c_data }

mutexes-step : step mutex 2 1 true run_consumer mutexes ≡ some read
unfolding run step producer_step consumer_step alive check mutex_lock mutex_unlock ℕ_discrete
mutexes-step = refl

ring_refined_example :
    SlotRing.step 2 1 (actor run_consumer) (ring mutex mutex-IsLawful mutexes)
    ≡ some (ring mutex mutex-IsLawful read)
ring_refined_example =
    ring_refined mutex mutex-IsLawful 2 1 run_consumer (omega arith) mutexes-Reach mutexes-ne
      mutexes-step

-- A slot's semaphore is left over with count 0.
abbrev left_over : Names
left_over (slot i) = if i == 1 then some 0 else none
left_over (item i) = none

start_counts_example :
    ((Named.start 2 left_over).sem_free_slot 1 ≡ sem_open left_over (slot 1) 1)
    × ((Named.start 2 left_over).sem_available_item 1 ≡ sem_open left_over (item 1) 0)
start_counts_example = start_counts 2 left_over 1 (omega arith)
