-- ===== src/Collector/Tests.antt =====
-- Short runs of the processes, and the theorems at their ends.
use sistemi_operativi.Prelude.{
  ◌+◌, flatten, map, drop, length, ℕ, zero, suc, ◌<◌, ◌≡◌, ◌≢◌, ◌⊎◌, refl, Option-cases, inl, inr,
  none, some, List, [], ◌∷◌, ◌++◌, arith, replicate, ℕ_discrete,
}
use sistemi_operativi.Collector.{
  Item, number, junk, c_exited, System, content, Actor, run_parent, run_child, exit, scan, take_one,
  child_step, parent_step, step, start, Reach, here, next,
}
use sistemi_operativi.Collector.Safety.{collector_in_order}
use sistemi_operativi.Collector.Runaway.{collector_runaway}

-- Child 0 reads 7 and then something that is no number, the others read one number each.
abbrev inputs : ℕ → List Item
inputs zero = number 7 ∷ junk ∷ []
inputs (suc i) = number (suc i) ∷ []

module _ (limit n : ℕ) where
  -- The processes take steps in this order; one that cannot move is passed over.
  run : List Actor → System → System
  run [] s = s
  run (a ∷ later) s = elim (step limit n a s) [ none ↦ run later s | some t ↦ run later t ]

  run-Reach :
      (turns : List Actor) {s : System}
      → Reach limit n inputs 0 s
      → Reach limit n inputs 0 (run turns s)
  unfolding run
  run-Reach [] r = r
  run-Reach (a ∷ later) {s} r = elim (Option-cases (step limit n a s)) [
    | inl blocked ↦ rw (blocked, run) (run-Reach later r)
    | inr (t, moves) ↦ rw (moves, run) (run-Reach later (next a r moves))
  ]

abbrev offer : ℕ → List Actor
offer i = run_child i ∷ run_child i ∷ run_child i ∷ run_child i ∷ []

abbrev collect : List Actor
collect = run_parent ∷ run_parent ∷ run_parent ∷ []

-- Child 0 has handed on its number, and child 1 has stored its own.
abbrev turns : List Actor
turns = offer 0 ++ (collect ++ offer 1)

abbrev handed : System
handed = run 2 2 turns (start inputs 0)

handed_alive : (i : ℕ) → i < 2 → (handed.children i).pc ≢ c_exited
unfolding run step child_step parent_step scan take_one exit ℕ_discrete
handed_alive zero h e = absurd (cc)
handed_alive (suc zero) h e = absurd (cc)
handed_alive (suc (suc i)) h e = absurd (omega (arith, h))

-- The text of a digit and a space, and a file that held five bytes.
abbrev digit : ℕ → List ℕ
digit v = (48 + v) ∷ 32 ∷ []

abbrev old_bytes : List ℕ
old_bytes = 120 ∷ 120 ∷ 120 ∷ 120 ∷ 120 ∷ []

collector_in_order_example :
    (numbers : List ℕ) × (((numbers ≡ handed.sent) ⊎ (numbers ++ (handed.value ∷ []) ≡ handed.sent))
      × (content digit old_bytes handed
          ≡ flatten (map digit numbers) ++ drop (length (flatten (map digit numbers))) old_bytes))
unfolding run step child_step parent_step scan take_one exit ℕ_discrete
collector_in_order_example =
    collector_in_order 2 2 inputs 0 digit old_bytes (run-Reach 2 2 turns here) handed_alive
      (omega arith)

-- With a limit of 1 the parent cannot take semaphore 0 again.
abbrev stuck : System
stuck = run 1 2 turns (start inputs 0)

collector_runaway_example :
    (t : System) × (Reach 1 2 inputs 0 t
      × ((t.printed ≡ stuck.printed ++ replicate 3 stuck.value) × (t.sent ≡ stuck.sent)))
unfolding run step child_step parent_step scan take_one exit ℕ_discrete
collector_runaway_example =
    collector_runaway 1 2 inputs 0 3 (run-Reach 1 2 turns here) refl (omega arith) (omega arith)

-- When child 0 exits behind its number, semaphore 1 is 2, and child 2 overwrites the number of child 1.
abbrev overwritten : System
overwritten =
    run 9 3 (offer 0 ++ (collect ++ (run_child 0 ∷ offer 1 ++ (offer 2 ++ (collect ++ collect)))))
      (start inputs 0)

overwritten_file : overwritten.printed ≡ 7 ∷ 2 ∷ 2 ∷ []
unfolding run step child_step parent_step scan take_one exit ℕ_discrete
overwritten_file = refl

overwritten_sent : overwritten.sent ≡ 7 ∷ 1 ∷ 2 ∷ []
unfolding run step child_step parent_step scan take_one exit ℕ_discrete
overwritten_sent = refl
