-- ===== src/Bulletin/Tests.antt =====
-- A writer of two messages and two readers, and the theorems at them.
use sistemi_operativi.Prelude.{
  ℕ, suc, ◌+◌, ◌*◌, ◌≤◌, ◌≡◌, refl, Option, none, some, List, [], ◌∷◌, ◌++◌, take, length,
  replicate, arith, ◌⊎◌, ℕ_discrete, Option-cases, inl, inr, ap, ◌∙◌, sym, subst,
}
use sistemi_operativi.Bulletin.{
  Message, w_end, System, scan, reader_step, writer_step, step, Actor, run_writer, run_reader,
  start, Reach, here, next,
}
use sistemi_operativi.Bulletin.Tokens.{announced, copies}
use sistemi_operativi.Bulletin.Progress.{Moves}
use sistemi_operativi.Bulletin.Safety.{messages_shown, runs_end}
use sistemi_operativi.Bulletin.Twice.{read_twice}

-- The lines "a" and "b".
abbrev lines : List Message
lines = (97 ∷ []) ∷ (98 ∷ []) ∷ []

unfoldable run : List Actor → Option System → Option System
run actors none = none
run [] (some s) = some s
run (a ∷ later) (some s) = run later (step 2 2 a s)

abbrev printed_of : ℕ → Option System → List Message
printed_of me none = []
printed_of me (some s) = (s.readers me).printed

abbrev messages_of : Option System → List Message
messages_of none = []
messages_of (some s) = s.messages

-- The first message by the writer, then reader 0 twice, and the second message.
abbrev hasty : List Actor
hasty = replicate 4 run_writer ++ replicate 8 (run_reader 0) ++ replicate 3 run_writer

-- Reader 1 has printed nothing when the second message is written over the first one.
reader_0 : printed_of 0 (run hasty (some (start 2 2 lines))) ≡ (97 ∷ []) ∷ (97 ∷ []) ∷ []
unfolding run step reader_step writer_step scan ℕ_discrete
reader_0 = refl

reader_1 : printed_of 1 (run hasty (some (start 2 2 lines))) ≡ []
unfolding run step reader_step writer_step scan ℕ_discrete
reader_1 = refl

both_written : messages_of (run hasty (some (start 2 2 lines))) ≡ lines
unfolding run step reader_step writer_step scan ℕ_discrete
both_written = refl

abbrev reached : Option System → System
reached none = start 2 2 lines
reached (some s) = s

run-none : (l : List Actor) → run l none ≡ none
unfolding run
run-none l = refl

abbrev steps_of : List Actor → ℕ → ℕ
steps_of [] k = k
steps_of (a ∷ l) k = steps_of l (suc k)

run-Reach :
    (l : List Actor) (k : ℕ) (s t : System)
    → Reach 2 2 lines k s
    → run l (some s) ≡ some t
    → Reach 2 2 lines (steps_of l k) t
unfolding run
run-Reach [] k s t r e = subst (Reach 2 2 lines k) (ap reached e) r
run-Reach (a ∷ l) k s t r e = elim (Option-cases (step 2 2 a s)) [
  | inl q ↦ absurd (cc (e, run-none l, q))
  | inr u ↦ run-Reach l (suc k) u.0 t (next a r u.1) (ap (run l) (sym u.1) ∙ e)
]

-- The writer has put the first message, and reader 0 has printed it.
abbrev one_printed : List Actor
one_printed = replicate 4 run_writer ++ replicate 3 (run_reader 0)

unfoldable printed_state : System
printed_state = reached (run one_printed (some (start 2 2 lines)))

printed_state-Reach : Reach 2 2 lines 7 printed_state
unfolding run step reader_step writer_step scan ℕ_discrete printed_state
printed_state-Reach = run-Reach one_printed 0 (start 2 2 lines) printed_state here refl

messages_shown_example :
    ((left : ℕ) × ((left ≤ 2)
        × (printed_state.output ++ replicate left printed_state.message
            ≡ copies 2 printed_state.messages)))
    × (printed_state.messages ≡ take (length printed_state.messages) (announced 2 lines []))
messages_shown_example = messages_shown 2 2 lines printed_state-Reach

runs_end_example :
    (7 ≤ 2 * (4 * 2 + 4) + 2 + 2)
    × (((printed_state.writer ≡ w_end) × (printed_state.output ≡ copies 2 (announced 2 lines [])))
        ⊎ ((a : Actor) × Moves (step 2 2 a printed_state)))
runs_end_example = runs_end 2 2 lines printed_state-Reach

read_twice_example :
    (k : ℕ) × ((s : System) × (Reach 2 2 lines k s
        × ((s.messages ≡ lines)
            × (((s.readers 0).printed ≡ (97 ∷ []) ∷ (97 ∷ []) ∷ [])
                × ((s.readers 1).printed ≡ [])))))
unfolding scan
read_twice_example = read_twice 2 2 lines (omega arith) (omega arith)
