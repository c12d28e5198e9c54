-- ===== src/Stripe/Protocol.antt =====
-- The steps of `main` of prog.c (exam of 19-9-2018), phase by phase.
use sistemi_operativi.Prelude.{
  ℕ, ◌+◌, ◌%◌, ◌<◌, refl, sym, ap, ◌∙◌, fun_ext, List, [], ◌∷◌, ◌++◌, append_assoc, arith,
  take-length, take-set, length-set, lt→ltb, set, flatten, update,
}
use sistemi_operativi.Stripe.{
  num_chars, waiting, filling, filled, System, main_thread, release, next_char, after_char,
  main_step,
}
use sistemi_operativi.Stripe.Phases.{free, reading, full, posted, At}
use sistemi_operativi.Stripe.Moves.{acquire-some, Fed_same, Fed_char, Advance, main_moves}

module _ (n : ℕ) (s : System) (cs : List (List ℕ)) (owner : ℕ) where
  pub Advance-free : At n s cs free owner → Advance n s main_thread
  unfolding main_step
  Advance-free at = record {
    after = record s { semaphores = update s.semaphores 0 0; main = filling 0 };
    moves =
        main_moves n s waiting _ at.main
          (rw (acquire-some 0 0 s (rw at.semaphores (ground arith)), main_step) refl);
    keeps = record {
      chunks = cs;
      phase = reading 0;
      owner = owner;
      at = record {
        five = at.five;
        buffer = at.buffer;
        files = at.files;
        taken = at.taken;
        main = refl;
        turn = at.turn;
        in_range = omega arith;
        valid = at.valid;
        owns = at.owns;
        threads = at.threads;
        semaphores = fun_ext (λ i. rw at.semaphores (ground arith));
      };
    };
    feeds = Fed_same s;
  }

  -- A byte more in the buffer.
  pub Advance-reading :
      (i : ℕ) → At n s cs (reading i) owner → i < num_chars → Advance n s main_thread
  unfolding main_step
  Advance-reading i at l = record {
    after = record s {
      the_buffer = set s.the_buffer i (next_char s.input);
      input = after_char s.input;
      taken = s.taken ++ (next_char s.input ∷ []);
      main = filling (i + 1);
    };
    moves = main_moves n s (filling i) _ at.main (rw (lt→ltb i num_chars l) refl);
    keeps = record {
      chunks = cs;
      phase = reading (i + 1);
      owner = owner;
      at = record {
        five = at.five;
        buffer = length-set s.the_buffer i _ ∙ at.buffer;
        files = at.files;
        taken =
            ap (λ l. l ++ (next_char s.input ∷ [])) at.taken
            ∙ append_assoc (flatten cs) _ _
            ∙ ap (λ l. flatten cs ++ l)
                (sym (take-set s.the_buffer i (next_char s.input) (omega (arith, at.buffer))));
        main = refl;
        turn = at.turn;
        in_range = omega arith;
        valid = at.valid;
        owns = at.owns;
        threads = at.threads;
        semaphores = at.semaphores;
      };
    };
    feeds = Fed_char s.taken s.input;
  }

  -- The buffer is full.
  pub Advance-read : At n s cs (reading num_chars) owner → Advance n s main_thread
  unfolding main_step
  Advance-read at = record {
    after = record s { main = filled };
    moves = main_moves n s (filling num_chars) _ at.main refl;
    keeps = record {
      chunks = cs;
      phase = full;
      owner = owner;
      at = record {
        five = at.five;
        buffer = at.buffer;
        files = at.files;
        taken = at.taken ∙ ap (λ l. flatten cs ++ l) (take-length num_chars s.the_buffer at.buffer);
        main = refl;
        turn = at.turn;
        in_range = tt;
        valid = at.valid;
        owns = at.owns;
        threads = at.threads;
        semaphores = at.semaphores;
      };
    };
    feeds = Fed_same s;
  }

  -- The release of the semaphore of the thread whose turn it is.
  pub Advance-full : At n s cs full owner → Advance n s main_thread
  unfolding main_step release
  Advance-full at = record {
    after = record (release (s.turn + 1) s) { turn = (s.turn + 1) % n; main = waiting };
    moves = main_moves n s filled _ at.main refl;
    keeps = record {
      chunks = cs;
      phase = posted;
      owner = owner;
      at = record {
        five = at.five;
        buffer = at.buffer;
        files = at.files;
        taken = at.taken;
        main = refl;
        turn = ap (λ t. (t + 1) % n) at.turn;
        in_range = tt;
        valid = at.valid;
        owns = at.owns;
        threads = at.threads;
        semaphores = fun_ext (λ i. rw (at.semaphores, at.turn, ← at.owns) (ground arith));
      };
    };
    feeds = Fed_same s;
  }
