-- ===== src/LockedRing/Tests.antt =====
-- A short run with two slots and the last item 1, under a mutex, and the theorem at it.
use sistemi_operativi.Prelude.{ℕ, ◌≢◌, none, some, List, [], ◌∷◌, ◌++◌, Option-cases, inl, inr}
use sistemi_operativi.GateRing.Gates.{Gate}
use sistemi_operativi.GateRing.Mutex.{mutex, mutex-IsLawful}
use sistemi_operativi.LockedRing.{
  System, Actor, run_producer, run_consumer, c_broken, step, start, Reach, here, next,
}
use sistemi_operativi.LockedRing.Safety.{locked_never_broken}

abbrev empty : ℕ → ℕ
empty _ = 18_446_744_073_709_551_615

module _ (g : Gate) where
  run : List Actor → System g → System g
  run [] s = s
  run (a ∷ later) s = elim (step g 2 1 a s) [ none ↦ run later s | some t ↦ run later t ]

  run-Reach :
      (turns : List Actor) {s : System g} → Reach g 2 1 empty s → Reach g 2 1 empty (run turns s)
  unfolding run
  run-Reach [] r = r
  run-Reach (a ∷ later) {s} r = elim (Option-cases (step g 2 1 a s)) [
    | inl blocked ↦ rw (blocked, run) (run-Reach later r)
    | inr (t, moves) ↦ rw (moves, run) (run-Reach later (next a r moves))
  ]

abbrev put : List Actor
put = run_producer ∷ run_producer ∷ run_producer ∷ run_producer ∷ run_producer ∷ []

-- The consumer takes two steps in vain while the producer has the lock.
abbrev got : List Actor
got = run_consumer ∷ run_consumer ∷ run_consumer ∷ run_consumer ∷ run_consumer ∷ []

abbrev turns : List Actor
turns = put ++ (got ++ (put ++ (put ++ (run_consumer ∷ run_producer ∷ run_consumer ∷ []))))

locked_never_broken_example : (run mutex turns (start mutex empty)).consumer ≢ c_broken
locked_never_broken_example =
    locked_never_broken mutex mutex-IsLawful 2 1 (run-Reach mutex turns here)
