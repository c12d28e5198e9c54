-- ===== src/Relay/Tests.antt =====
-- A run with two pairs of threads, and the theorems at its states.
use sistemi_operativi.Prelude.{
  ℕ, ◌≡◌, refl, none, some, List, [], ◌∷◌, ◌++◌, Option-cases, inl, inr, ℕ_discrete,
}
use sistemi_operativi.Relay.{
  System, Actor, parent_thread, child_thread, wait_for, scan, parent_step, child_step, at_work,
  step, start, Reach, here, next,
}
use sistemi_operativi.Relay.Spec.{Move}
use sistemi_operativi.Relay.Refine.{places}
use sistemi_operativi.Relay.Safety.{relay_refined}

-- The threads take steps in this order; one that cannot move is passed over.
run : List Actor → System → System
run [] s = s
run (a ∷ later) s = elim (step 2 a s) [ none ↦ run later s | some t ↦ run later t ]

run-Reach :
    {input : List (List ℕ)} (turns : List Actor) {s : System}
    → Reach 2 input s
    → Reach 2 input (run turns s)
unfolding run
run-Reach [] r = r
run-Reach (a ∷ later) {s} r = elim (Option-cases (step 2 a s)) [
  | inl blocked ↦ rw (blocked, run) (run-Reach later r)
  | inr (t, moves) ↦ rw (moves, run) (run-Reach later (next a r moves))
]

abbrev strings : List (List ℕ)
strings = (97 ∷ []) ∷ (98 ∷ 99 ∷ []) ∷ (100 ∷ []) ∷ []

abbrev send : ℕ → List Actor
send i = parent_thread i ∷ parent_thread i ∷ parent_thread i ∷ []

-- Thread 1 has handed on the first string, thread 0 has the second in its segment, and the child of
-- thread 1 is about to write.
abbrev turns : List Actor
turns = send 1 ++ (send 0 ++ (child_thread 1 ∷ []))

abbrev busy : System
busy = run turns (start strings)

abbrev wrote : System
wrote = run (turns ++ (child_thread 1 ∷ [])) (start strings)

busy-Reach : Reach 2 strings busy
busy-Reach = run-Reach turns here

busy-step : step 2 (child_thread 1) busy ≡ some wrote
unfolding run step at_work parent_step child_step wait_for scan ℕ_discrete
busy-step = refl

relay_refined_example : Move 2 (places busy) (places wrote)
relay_refined_example = relay_refined (child_thread 1) busy-Reach busy-step
