-- ===== src/Readers/Tests.antt =====
-- A run with one reader, two slots and one round, and the theorems at its states.
use sistemi_operativi.Prelude.{
  ℕ, ◌*◌, ◌<◌, ◌≡◌, refl, subst, Option, none, some, List, [], ◌∷◌, ◌++◌, arith, Option-cases, inl,
  inr, ℕ_discrete,
}
use sistemi_operativi.Readers.{
  p_wait_write, c_sum, c_ended, System, Actor, run_producer, run_consumer, producer_step,
  consumer_step, step, start, Reach, here, next,
}
use sistemi_operativi.Readers.Progress.{Moves, readers_go_on}
use sistemi_operativi.Readers.Safety.{no_torn_read}

run : List Actor → System → Option System
run [] s = some s
run (a ∷ later) s = elim (step 1 2 1 a s) [ none ↦ none | some t ↦ run later t ]

run-Reach :
    (turns : List Actor) (s : System) {t : System}
    → Reach 1 2 1 s
    → run turns s ≡ some t
    → Reach 1 2 1 t
unfolding run
run-Reach [] s r e = subst (λ o. Reaches o) e r
  where
    Reaches : Option System → Type 0
    Reaches none = Unit
    Reaches (some u) = Reach 1 2 1 u
run-Reach (a ∷ later) s r e = elim (Option-cases (step 1 2 1 a s)) [
  | inl no_step ↦ absurd (let e' = rw (no_step, run) at e in cc)
  | inr (u, moves) ↦ run-Reach later u (next a r moves) (rw (moves, run) at e)
]

abbrev p : Actor
p = run_producer

abbrev c : Actor
c = run_consumer 0

-- The producer in its second round, behind its first element.
abbrev filling : List Actor
filling = p ∷ p ∷ p ∷ p ∷ p ∷ p ∷ p ∷ p ∷ p ∷ p ∷ []

-- The second round is over, and the consumer has added up both elements.
abbrev adding : List Actor
adding = filling ++ (p ∷ p ∷ p ∷ p ∷ c ∷ c ∷ c ∷ c ∷ c ∷ [])

added : Option System
unfolding run step producer_step consumer_step ℕ_discrete
added = run adding (start 1 2 1)

exited : Option System
unfolding run step producer_step consumer_step ℕ_discrete
exited = run (adding ++ (c ∷ [])) (start 1 2 1)

get : Option System → System
get none = start 1 2 1
get (some s) = s

abbrev at_sum : System
at_sum = get added

abbrev at_end : System
at_end = get exited

at_sum-Reach : Reach 1 2 1 at_sum
unfolding get added
at_sum-Reach = run-Reach adding (start 1 2 1) here refl

at_end-Reach : Reach 1 2 1 at_end
unfolding get exited
at_end-Reach = run-Reach (adding ++ (c ∷ [])) (start 1 2 1) here refl

at_sum-pc : (at_sum.consumers 0).pc ≡ c_sum 2 2
unfolding get added
at_sum-pc = refl

at_end-producer : at_end.producer ≡ p_wait_write
unfolding get exited
at_end-producer = refl

at_end-ended : (me : ℕ) → me < 1 → (at_end.consumers me).pc ≡ c_ended
unfolding get exited
at_end-ended me h = ground arith

no_torn_read_example : (d : ℕ) × (((j : ℕ) → j < 2 → at_sum.v j ≡ d) × (2 ≡ 2 * d))
no_torn_read_example = no_torn_read 0 2 2 at_sum-Reach (omega arith) at_sum-pc

readers_go_on_example : (a : Actor) × Moves (step 1 2 1 a at_end)
readers_go_on_example = readers_go_on at_end-Reach
