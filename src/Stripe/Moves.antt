-- ===== src/Stripe/Moves.antt =====
-- A step of prog.c (exam of 19-9-2018) by the thread that can move, and what it does to the input.
use sistemi_operativi.Prelude.{
  ℕ, suc, ◌+◌, ◌<◌, ◌≡◌, refl, sym, ap, ◌∙◌, Option, none, some, List, [], ◌∷◌, ◌++◌, append_assoc,
  arith, append-nil, replicate, update,
}
use sistemi_operativi.Stripe.{
  MainPc, ThreadPc, System, Actor, main_thread, thread, acquire, next_char, after_char, main_step,
  thread_step, step,
}
use sistemi_operativi.Stripe.Phases.{Inv}

pub acquire-some :
    (i k : ℕ) (s : System)
    → s.semaphores i ≡ suc k
    → acquire i s ≡ some (record s { semaphores = update s.semaphores i k })
unfolding acquire
acquire-some i k s e = rw (e, acquire) refl

pub acquire-none : (i : ℕ) (s : System) → s.semaphores i ≡ 0 → acquire i s ≡ none
unfolding acquire
acquire-none i s e = rw (e, acquire) refl

-- What a step does to the input: bytes go over to `taken`, and the end of the input gives 0xff.
abbrev pub Fed : System → System → Type 0
Fed s t = (k : ℕ) × (t.taken ++ t.input ≡ (s.taken ++ s.input) ++ replicate k 255)

pub Fed_same :
    (s : System) → (k : ℕ) × (s.taken ++ s.input ≡ (s.taken ++ s.input) ++ replicate k 255)
Fed_same s = (0, sym (append-nil (s.taken ++ s.input)))

pub Fed_char :
    (taken input : List ℕ)
    → (k : ℕ) × ((taken ++ (next_char input ∷ [])) ++ after_char input
        ≡ (taken ++ input) ++ replicate k 255)
Fed_char taken [] = (1, append-nil _ ∙ ap (λ l. l ++ (255 ∷ [])) (sym (append-nil taken)))
Fed_char taken (c ∷ input) = (0, append_assoc taken (c ∷ []) input ∙ sym (append-nil _))

-- One step of a thread that can move.
pub record Advance (n : ℕ) (s : System) (a : Actor) : Type 0 where
  pub after : System
  pub moves : step n a s ≡ some after
  pub keeps : Inv n after
  pub feeds : Fed s after

module _ (n : ℕ) (s : System) where
  pub main_moves :
      (m : MainPc) (t : Option System) → s.main ≡ m → main_step n m s ≡ t → step n main_thread s ≡ t
  unfolding step
  main_moves m t e h = ap (λ m. main_step n m s) e ∙ h

  pub thread_moves :
      (i : ℕ) (p : ThreadPc) (t : Option System)
      → i < n
      → s.threads (i + 1) ≡ p
      → thread_step (i + 1) p s ≡ t
      → step n (thread (i + 1)) s ≡ t
  unfolding step
  thread_moves i p t l e h = in_range ∙ ap (λ p. thread_step (i + 1) p s) e ∙ h
    where
      in_range : step n (thread (i + 1)) s ≡ thread_step (i + 1) (s.threads (i + 1)) s
      in_range = ground arith
