-- ===== src/Stripe/Safety.antt =====
-- What holds of every state that the process can reach.
use sistemi_operativi.Prelude.{
  ℕ, ◌+◌, ◌≤◌, ◌<◌, ◌≡◌, ◌≢◌, refl, sym, ap, ◌∙◌, subst, none, some, List, [], ◌++◌, append_assoc,
  append-nil, arith, All, length, flatten, replicate, length-take, replicate_add, dec_lt, ◌⊎◌,
  ℕ_discrete, inl, inr,
}
use sistemi_operativi.Stripe.{
  num_chars, waiting, idle, System, Actor, main_thread, thread, main_step, thread_step, step, Reach,
  here, next,
}
use sistemi_operativi.Stripe.Layout.{stripe}
use sistemi_operativi.Stripe.Layout.{IsChunk}
use sistemi_operativi.Stripe.Phases.{
  Phase, free, reading, full, posted, storing, stored, main_at, thread_at, free_at, posted_at,
  pending, At, Inv, start-Inv,
}
use sistemi_operativi.Stripe.Moves.{Advance, Fed, acquire-none}
use sistemi_operativi.Stripe.Protocol.{Advance-free, Advance-reading, Advance-read, Advance-full}
use sistemi_operativi.Stripe.Turns.{Advance-posted, Advance-storing, Advance-stored}

module _ (n : ℕ) (s : System) {cs : List (List ℕ)} {phase : Phase} {owner : ℕ}
    (at : At n s cs phase owner) where
  -- The main thread waits while somebody else has the token.
  blocked_main : main_at phase ≡ waiting → free_at phase ≡ 0 → step n main_thread s ≡ none
  unfolding step main_step
  blocked_main w f =
      ap (λ m. main_step n m s) (at.main ∙ w)
      ∙ rw (acquire-none 0 s (rw at.semaphores (ground arith)), main_step) refl

  -- A thread waits while it is not its turn.
  blocked_thread :
      (j : ℕ) → s.threads j ≡ idle → (0 < j → s.semaphores j ≡ 0) → step n (thread j) s ≡ none
  unfolding step thread_step
  blocked_thread j p q = elim (dec_lt 0 j) [
    | no z ↦ ground arith
    | yes l ↦
        let stuck : thread_step j (s.threads j) s ≡ none =
          ap (λ p. thread_step j p s) p ∙ rw (acquire-none j s (q l), thread_step) refl in
        ground (arith, stuck)
  ]

  -- All threads but the owner wait, and so does the owner where the main thread has the token.
  blocked_other :
      (j : ℕ)
      → (j ≢ owner + 1) ⊎ ((thread_at phase ≡ idle) × (posted_at phase ≡ 0))
      → step n (thread j) s ≡ none
  blocked_other j d =
      blocked_thread j (rw at.threads (ground arith)) (λ l. rw at.semaphores (ground arith))

-- The one thread that can move.
pub record Only (n : ℕ) (s : System) : Type 0 where
  pub actor : Actor
  pub advance : Advance n s actor
  pub others : (a : Actor) → a ≢ actor → step n a s ≡ none

module _ (n : ℕ) (s : System) {cs : List (List ℕ)} {owner : ℕ} where
  main_Only :
      {phase : Phase}
      → At n s cs phase owner
      → (thread_at phase ≡ idle) × (posted_at phase ≡ 0)
      → Advance n s main_thread
      → Only n s
  main_Only at quiet adv = record {
    actor = main_thread;
    advance = adv;
    others = elim [
      | main_thread ↦ λ ne. absurd (ne refl)
      | thread j ↦ λ ne. blocked_other n s at j (inr quiet)
    ];
  }

  thread_Only :
      {phase : Phase}
      → At n s cs phase owner
      → main_at phase ≡ waiting
      → free_at phase ≡ 0
      → Advance n s (thread (owner + 1))
      → Only n s
  thread_Only at w f adv = record {
    actor = thread (owner + 1);
    advance = adv;
    others = elim [
      | main_thread ↦ λ ne. blocked_main n s at w f
      | thread j ↦ λ ne. blocked_other n s at j (inl (λ e. ne (ap thread e)))
    ];
  }

  At-Only : 0 < n → (phase : Phase) → At n s cs phase owner → Only n s
  At-Only pos free at = main_Only at (refl, refl) (Advance-free n s cs owner at)
  At-Only pos (reading i) at =
      main_Only at (refl, refl)
        (elim (ℕ_discrete i num_chars) [
          | yes e ↦ Advance-read n s cs owner (subst (λ k. At n s cs (reading k) owner) e at)
          | no ne ↦ Advance-reading n s cs owner i at (omega (arith, at.in_range))
        ])
  At-Only pos full at = main_Only at (refl, refl) (Advance-full n s cs owner at)
  At-Only pos posted at = thread_Only at refl refl (Advance-posted n s cs owner at)
  At-Only pos storing at = thread_Only at refl refl (Advance-storing n s cs owner at)
  At-Only pos stored at = thread_Only at refl refl (Advance-stored n s cs owner pos at)

Actor-discrete : Discrete Actor
Actor-discrete = hlevel ℕ_discrete

-- A step that is taken is the step of the one thread that can move.
record Took (n : ℕ) (s t : System) : Type 0 where
  inv : Inv n t
  fed : Fed s t

step-Took : (n : ℕ) (s t : System) (a : Actor) → Only n s → step n a s ≡ some t → Took n s t
step-Took n s t a only e = elim (Actor-discrete a only.actor) [
  | yes same ↦
      subst (λ u. Took n s u) (after_eq same)
        (record { inv = only.advance.keeps; fed = only.advance.feeds })
  | no ne ↦ absurd (let none_e = sym (only.others a ne) ∙ e in cc)
]
  where
    after_eq : a ≡ only.actor → only.advance.after ≡ t
    after_eq same = let e' = sym only.advance.moves ∙ ap (λ b. step n b s) (sym same) ∙ e in cc

pub Inv-Only : {n : ℕ} {s : System} → 0 < n → Inv n s → Only n s
Inv-Only {n} {s} pos inv = At-Only n s pos inv.phase inv.at

pub Reach-Inv : {n : ℕ} {input : List ℕ} {s : System} → 0 < n → Reach n input s → Inv n s
Reach-Inv {n} {input} pos here = start-Inv n input pos
Reach-Inv {n} pos (next {s = s} {t = t} a r e) =
    (step-Took n s t a (Inv-Only pos (Reach-Inv pos r)) e).inv

-- In every state that can be reached exactly one thread can move: there is no deadlock, and no two
-- threads race for the buffer or a file.
pub one_mover :
    {n : ℕ} {input : List ℕ} {s : System}
    → 0 < n
    → Reach n input s
    → (a : Actor) × ((t : System) × (step n a s ≡ some t))
      × ((b : Actor) → b ≢ a → step n b s ≡ none)
one_mover pos r =
    let only = Inv-Only pos (Reach-Inv pos r) in
    (only.actor, (only.advance.after, only.advance.moves), only.others)

-- The bytes read are those of the input in order, and behind its end 0xff.
taken-input :
    {n : ℕ} {input : List ℕ} {s : System}
    → 0 < n
    → Reach n input s
    → (k : ℕ) × (s.taken ++ s.input ≡ input ++ replicate k 255)
taken-input pos here = (0, sym (append-nil _))
taken-input {n} {input} pos (next {s = s} {t = t} a r e) =
    let (k, old) = taken-input pos r in
    let (m, new) = (step-Took n s t a (Inv-Only pos (Reach-Inv pos r)) e).fed in
    (
      k + m,
      new
          ∙ ap (λ l. l ++ replicate m 255) old
          ∙ append_assoc input (replicate k 255) (replicate m 255)
          ∙ ap (λ l. input ++ l) (replicate_add k m 255),
    )

length-pending-le :
    (phase : Phase) (buffer : List ℕ)
    → length buffer ≡ num_chars
    → length (pending phase buffer) ≤ num_chars
length-pending-le (reading i) buffer h = omega (arith, length-take i buffer)
length-pending-le full buffer h = omega arith
length-pending-le posted buffer h = omega arith
length-pending-le _ buffer h = omega arith

semaphores_zero :
    (n : ℕ) (s : System) {cs : List (List ℕ)} {phase : Phase} {owner : ℕ}
    → At n s cs phase owner
    → s.semaphores 0 ≡ free_at phase
semaphores_zero n s at = rw at.semaphores (ground arith)

quiet-pending :
    (phase : Phase) (buffer : List ℕ)
    → (main_at phase ≢ waiting) ⊎ ((free_at phase ≢ 1) ⊎ (pending phase buffer ≡ []))
quiet-pending free buffer = inr (inr refl)
quiet-pending (reading i) buffer = inl (λ e. absurd (cc))
quiet-pending full buffer = inl (λ e. absurd (cc))
quiet-pending posted buffer = inr (inl (λ e. absurd (omega (arith, e))))
quiet-pending storing buffer = inr (inl (λ e. absurd (omega (arith, e))))
quiet-pending stored buffer = inr (inr refl)

-- The bytes that are in no file: none where the main thread waits and `semaphores[0]` is free.
abbrev pub Late : System → List ℕ → Type 0
Late s held =
    (length held ≤ num_chars) × ((s.main ≢ waiting) ⊎ ((s.semaphores 0 ≢ 1) ⊎ (held ≡ [])))

pub Inv-Late : {n : ℕ} {s : System} (inv : Inv n s) → Late s (pending inv.phase s.the_buffer)
Inv-Late {n} {s} inv = (
  length-pending-le inv.phase s.the_buffer inv.at.buffer,
  subst (λ m. (m ≢ waiting) ⊎ ((s.semaphores 0 ≢ 1) ⊎ (pending inv.phase s.the_buffer ≡ [])))
      (sym inv.at.main)
      (subst
        (λ k. (main_at inv.phase ≢ waiting) ⊎ ((k ≢ 1) ⊎ (pending inv.phase s.the_buffer ≡ [])))
        (sym (semaphores_zero n s inv.at)) (quiet-pending inv.phase s.the_buffer)),
)

-- In every state that can be reached the files hold chunks of five bytes, dealt to them in turn, and the
-- chunks, at most five bytes that are in no file yet, and what is left of the input make up the input with
-- 0xff for each read behind its end. Nothing is missing in the files where the main thread waits and
-- `semaphores[0]` is free.
pub files-input :
    {n : ℕ} {input : List ℕ} {s : System}
    → 0 < n
    → Reach n input s
    → (chunks : List (List ℕ)) × ((held : List ℕ) × ((k : ℕ) × ((All IsChunk chunks
              × (s.files ≡ stripe n 0 chunks))
            × (((flatten chunks ++ held) ++ s.input ≡ input ++ replicate k 255) × Late s held))))
files-input {n} {input} {s} pos r =
    let inv = Reach-Inv pos r in
    let (k, e) = taken-input pos r in
    (
      inv.chunks,
      (
        pending inv.phase s.the_buffer,
        (
          k,
          (
            (inv.at.five, inv.at.files),
            (ap (λ l. l ++ s.input) (sym inv.at.taken) ∙ e, Inv-Late inv),
          ),
        ),
      ),
    )
