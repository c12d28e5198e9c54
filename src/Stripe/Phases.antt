-- ===== src/Stripe/Phases.antt =====
-- The phases of the protocol of `main` and `theThread`, and the state in each of them.
use sistemi_operativi.Prelude.{
  ℕ, ◌+◌, ◌%◌, ◌≤◌, ◌<◌, ◌≡◌, refl, fun_ext, List, [], ◌++◌, arith, All, length, take, flatten,
  update,
}
use sistemi_operativi.Stripe.{
  num_chars, MainPc, waiting, filling, filled, ThreadPc, idle, writing, wrote, System, start,
}
use sistemi_operativi.Stripe.Layout.{stripe, turn_after}
use sistemi_operativi.Stripe.Layout.{IsChunk}

-- Who has the token: `semaphores[0]`, the main thread (before byte `i`, or with a full buffer), or
-- the thread whose turn it is (its semaphore, itself before and after its write).
pub data Phase : Type 0 where
  free : Phase
  reading : ℕ → Phase
  full : Phase
  posted : Phase
  storing : Phase
  stored : Phase

abbrev pub main_at : Phase → MainPc
main_at (reading i) = filling i
main_at full = filled
main_at _ = waiting

abbrev pub thread_at : Phase → ThreadPc
thread_at storing = writing
thread_at stored = wrote
thread_at _ = idle

-- The counts of `semaphores[0]` and of the semaphore of the thread whose turn it is.
abbrev pub free_at : Phase → ℕ
free_at free = 1
free_at _ = 0

abbrev pub posted_at : Phase → ℕ
posted_at posted = 1
posted_at _ = 0

-- The bytes read and not yet in a file, and whether `turn` is already the next one.
abbrev pub pending : Phase → List ℕ → List ℕ
pending (reading i) buffer = take i buffer
pending full buffer = buffer
pending posted buffer = buffer
pending storing buffer = buffer
pending _ buffer = []

abbrev pub turn_at : ℕ → Phase → ℕ → ℕ
turn_at n posted τ = (τ + 1) % n
turn_at n storing τ = (τ + 1) % n
turn_at n _ τ = τ

abbrev pub Owns : ℕ → List (List ℕ) → Phase → ℕ → Type 0
Owns n cs stored owner = Unit
Owns n cs _ owner = owner ≡ turn_after n 0 cs

abbrev pub InRange : Phase → Type 0
InRange (reading i) = i ≤ num_chars
InRange _ = Unit

-- The state in a phase: `cs` are the chunks in the files, and `owner` is the thread (less 1) whose turn
-- it is, or which still has the token after its write.
pub record At (n : ℕ) (s : System) (cs : List (List ℕ)) (phase : Phase) (owner : ℕ) : Type 0 where
  pub five : All IsChunk cs
  pub buffer : length s.the_buffer ≡ num_chars
  pub files : s.files ≡ stripe n 0 cs
  pub taken : s.taken ≡ flatten cs ++ pending phase s.the_buffer
  pub main : s.main ≡ main_at phase
  pub turn : s.turn ≡ turn_at n phase (turn_after n 0 cs)
  pub in_range : InRange phase
  pub valid : owner < n
  pub owns : Owns n cs phase owner
  pub threads : s.threads ≡ update (λ _. idle) (owner + 1) (thread_at phase)
  pub semaphores :
      s.semaphores ≡ update (update (λ _. 0) 0 (free_at phase)) (owner + 1) (posted_at phase)

pub record Inv (n : ℕ) (s : System) : Type 0 where
  pub chunks : List (List ℕ)
  pub phase : Phase
  pub owner : ℕ
  pub at : At n s chunks phase owner

pub start-Inv : (n : ℕ) (input : List ℕ) → 0 < n → Inv n (start input)
start-Inv n input h = record {
  chunks = [];
  phase = free;
  owner = 0;
  at = record {
    five = tt;
    buffer = refl;
    files = refl;
    taken = refl;
    main = refl;
    turn = refl;
    in_range = tt;
    valid = h;
    owns = refl;
    threads = fun_ext (λ i. ground arith);
    semaphores = fun_ext (λ i. ground arith);
  };
}
