-- ===== src/Stripe/Turns.antt =====
-- The steps of `theThread` of prog.c (exam of 19-9-2018), phase by phase.
use sistemi_operativi.Prelude.{
  ℕ, ◌+◌, ◌<◌, refl, sym, ap, ◌∙◌, fun_ext, List, [], ◌∷◌, ◌++◌, arith, All-append, flatten,
  flatten-append, update-append, append-nil, if◌then◌else◌, ◌==◌, update,
}
use sistemi_operativi.Stripe.{idle, writing, wrote, System, thread, release, thread_step}
use sistemi_operativi.Stripe.Layout.{
  stripe, stripe-snoc, turn_after, turn_after-snoc, turn_after-lt,
}
use sistemi_operativi.Stripe.Layout.{IsChunk}
use sistemi_operativi.Stripe.Phases.{free, posted, storing, stored, At}
use sistemi_operativi.Stripe.Moves.{acquire-some, Fed_same, Advance, thread_moves}

module _ (n : ℕ) (s : System) (cs : List (List ℕ)) (owner : ℕ) where
  pub Advance-posted : At n s cs posted owner → Advance n s (thread (owner + 1))
  unfolding thread_step
  Advance-posted at = record {
    after = record s {
      semaphores = update s.semaphores (owner + 1) 0;
      threads = update s.threads (owner + 1) writing;
    };
    moves =
        thread_moves n s owner idle _ at.valid (rw at.threads (ground arith))
          (rw (acquire-some (owner + 1) 0 s (rw at.semaphores (ground arith)), thread_step) refl);
    keeps = record {
      chunks = cs;
      phase = storing;
      owner = owner;
      at = record {
        five = at.five;
        buffer = at.buffer;
        files = at.files;
        taken = at.taken;
        main = at.main;
        turn = at.turn;
        in_range = tt;
        valid = at.valid;
        owns = at.owns;
        threads = fun_ext (λ i. rw at.threads (ground arith));
        semaphores = fun_ext (λ i. rw at.semaphores (ground arith));
      };
    };
    feeds = Fed_same s;
  }

  -- The write: the buffer is one more chunk.
  pub Advance-storing : At n s cs storing owner → Advance n s (thread (owner + 1))
  unfolding thread_step
  Advance-storing at = record {
    after = record s {
      files = update s.files (owner + 1) (s.files (owner + 1) ++ s.the_buffer);
      threads = update s.threads (owner + 1) wrote;
    };
    moves = thread_moves n s owner writing _ at.valid (rw at.threads (ground arith)) refl;
    keeps = record {
      chunks = cs ++ (s.the_buffer ∷ []);
      phase = stored;
      owner = owner;
      at = record {
        five = All-append IsChunk cs (s.the_buffer ∷ []) at.five (at.buffer, tt);
        buffer = at.buffer;
        files = fun_ext (λ i.
            ap (λ (f : ℕ → List ℕ). update f (owner + 1) (f (owner + 1) ++ s.the_buffer) i) at.files
            ∙ update-append (stripe n 0 cs) (owner + 1) s.the_buffer i
            ∙ ap (λ (k : ℕ). stripe n 0 cs i ++ (if k + 1 == i then s.the_buffer else [])) at.owns
            ∙ sym (stripe-snoc n 0 cs s.the_buffer i));
        taken =
            at.taken
            ∙ ap (λ l. flatten cs ++ l) (sym (append-nil s.the_buffer))
            ∙ sym (flatten-append cs (s.the_buffer ∷ []))
            ∙ sym (append-nil _);
        main = at.main;
        turn = at.turn ∙ sym (turn_after-snoc n 0 cs s.the_buffer);
        in_range = tt;
        valid = at.valid;
        owns = tt;
        threads = fun_ext (λ i. rw at.threads (ground arith));
        semaphores = at.semaphores;
      };
    };
    feeds = Fed_same s;
  }

  pub Advance-stored : 0 < n → At n s cs stored owner → Advance n s (thread (owner + 1))
  unfolding thread_step release
  Advance-stored pos at = record {
    after = record (release 0 s) { threads = update s.threads (owner + 1) idle };
    moves = thread_moves n s owner wrote _ at.valid (rw at.threads (ground arith)) refl;
    keeps = record {
      chunks = cs;
      phase = free;
      owner = turn_after n 0 cs;
      at = record {
        five = at.five;
        buffer = at.buffer;
        files = at.files;
        taken = at.taken;
        main = at.main;
        turn = at.turn;
        in_range = tt;
        valid = turn_after-lt n 0 cs pos pos;
        owns = refl;
        threads = fun_ext (λ i. rw at.threads (ground arith));
        semaphores = fun_ext (λ i. rw at.semaphores (ground arith));
      };
    };
    feeds = Fed_same s;
  }
