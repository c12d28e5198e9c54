-- ===== src/Stripe/Tests.antt =====
-- A run with two files, and the theorems at its states.
use sistemi_operativi.Prelude.{
  ℕ, subst, inl, inr, Option-cases, ◌≡◌, ◌≢◌, refl, Option, none, some, List, [], ◌∷◌, ◌++◌, arith,
  replicate, All, flatten, take, ℕ_discrete,
}
use sistemi_operativi.Stripe.{
  System, Actor, main_thread, thread, acquire, release, main_step, thread_step, step, start, Reach,
  here, next, h_none, h_read, h_done, Watched, handler_step, Watch, begun, go_on, handle,
}
use sistemi_operativi.Stripe.Layout.{IsChunk, stripe}
use sistemi_operativi.Stripe.Safety.{Late, one_mover, files-input}
use sistemi_operativi.Stripe.Handler.{Reads, handler_replays}
use sistemi_operativi.Stripe.Ends.{handle_for, Ended, handler_ends}

run : ℕ → List Actor → System → Option System
run n [] s = some s
run n (a ∷ later) s = elim (step n a s) [ none ↦ none | some t ↦ run n later t ]

run-Reach :
    (n : ℕ) (input : List ℕ) (turns : List Actor) (s : System) {t : System}
    → Reach n input s
    → run n turns s ≡ some t
    → Reach n input t
unfolding run
run-Reach n input [] s r e = subst (λ o. Reaches o) e r
  where
    Reaches : Option System → Type 0
    Reaches none = Unit
    Reaches (some u) = Reach n input u
run-Reach n input (a ∷ later) s r e = elim (Option-cases (step n a s)) [
  | inl no_step ↦ absurd (let e' = rw (no_step, run) at e in cc)
  | inr (u, moves) ↦ run-Reach n input later u (next a r moves) (rw (moves, run) at e)
]

-- The main thread's steps for one chunk, and the thread's.
abbrev chunk : ℕ → List Actor
chunk me = replicate 8 main_thread ++ (thread me ∷ thread me ∷ thread me ∷ [])

-- Two chunks, three bytes behind them, and the main thread again at the end of the input.
abbrev bytes : List ℕ
bytes = 1 ∷ 2 ∷ 3 ∷ 4 ∷ 5 ∷ 6 ∷ 7 ∷ 8 ∷ 9 ∷ 10 ∷ 11 ∷ []

final : Option System
unfolding run step main_step thread_step acquire release ℕ_discrete
final = run 2 (chunk 1 ++ (chunk 2 ++ chunk 1)) (start bytes)

get : Option System → System
get none = start []
get (some s) = s

abbrev last : System
last = get final

last-Reach : Reach 2 bytes last
unfolding get final
last-Reach = run-Reach 2 bytes (chunk 1 ++ (chunk 2 ++ chunk 1)) (start bytes) here refl

one_mover_example :
    (a : Actor) × ((t : System) × (step 2 a last ≡ some t))
    × ((b : Actor) → b ≢ a → step 2 b last ≡ none)
one_mover_example = one_mover (omega arith) last-Reach

files-input_example :
    (chunks : List (List ℕ)) × ((held : List ℕ) × ((k : ℕ) × ((All IsChunk chunks
            × (last.files ≡ stripe 2 0 chunks))
          × (((flatten chunks ++ held) ++ last.input ≡ bytes ++ replicate k 255)
              × Late last held))))
files-input_example = files-input (omega arith) last-Reach

-- What happens next: a step of the process, or one of the handler.
data Event : Type 0 where
  moved : Actor → Event
  handled : Event

watch : ℕ → List Event → Watched → Option Watched
watch n [] w = some w
watch n (handled ∷ later) w = watch n later (handler_step n w.handler w)
watch n (moved a ∷ later) w = elim (step n a w.system) [
  | none ↦ none
  | some t ↦ watch n later (record w { system = t })
]

watch-Watch :
    (n : ℕ) (input : List ℕ) (events : List Event) (w : Watched) {v : Watched}
    → Watch n input w
    → watch n events w ≡ some v
    → Watch n input v
unfolding watch
watch-Watch n input [] w r e = subst (λ o. Watches o) e r
  where
    Watches : Option Watched → Type 0
    Watches none = Unit
    Watches (some u) = Watch n input u
watch-Watch n input (handled ∷ later) w r e =
    watch-Watch n input later (handler_step n w.handler w) (handle r) e
watch-Watch n input (moved a ∷ later) w r e = elim (Option-cases (step n a w.system)) [
  | inl no_step ↦ absurd (let e' = rw (no_step, watch) at e in cc)
  | inr (u, moves) ↦
      watch-Watch n input later (record w { system = u }) (go_on a r moves) (rw (moves, watch) at e)
]

abbrev moves_of : List Actor → List Event
moves_of [] = []
moves_of (a ∷ actors) = moved a ∷ moves_of actors

-- The handler starts behind the first chunk, reads it, and the second one comes before it reads again.
abbrev watched_events : List Event
watched_events = moves_of (chunk 1) ++ (replicate 5 handled ++ moves_of (chunk 2))

abbrev begin_watch : Watched
begin_watch = record { system = start bytes; handler = h_none; positions = λ _. 0; output = [] }

get_watched : Option Watched → Watched
get_watched none = begin_watch
get_watched (some w) = w

watched : Option Watched
unfolding watch step main_step thread_step acquire release handler_step ℕ_discrete
watched = watch 2 watched_events begin_watch

abbrev between : Watched
between = get_watched watched

between-Watch : Watch 2 bytes between
unfolding get_watched watched
between-Watch = watch-Watch 2 bytes watched_events begin_watch begun refl

between-handler : between.handler ≡ h_read 1
unfolding get_watched watched
between-handler = refl

-- It reads the second chunk, which was not there when it started.
between-output : (handler_step 2 between.handler between).output ≡ take 10 bytes
unfolding get_watched watched handler_step
between-output = refl

handler_replays_example : Reads 2 between 1 (handler_step 2 between.handler between)
handler_replays_example = handler_replays (omega arith) between-Watch between-handler

-- Two more reads print the second chunk and meet the end of the first file.
handler_ends_run :
    ((handle_for 2 2 between).handler ≡ h_done) × ((handle_for 2 2 between).output ≡ take 10 bytes)
unfolding get_watched watched handler_step handle_for
handler_ends_run = (refl, refl)

handler_ends_example : (k : ℕ) × Ended between.system (handle_for 2 k between)
handler_ends_example = handler_ends (omega arith) between-Watch between-handler
