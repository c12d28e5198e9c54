-- ===== src/Bulletin/Twice.antt =====
-- A reader of exercise4(UNIX).c (Tutoraggio 11) that takes the turn of a slower one.
use sistemi_operativi.Prelude.{
  ℕ, zero, suc, ◌+◌, ◌-◌, ◌≤◌, ◌<◌, ◌≡◌, ◌≢◌, refl, ap, ap₂, ◌∙◌, some, List, [], ◌∷◌, ◌++◌, arith,
  ltb, leb, lt→ltb, true,
}
use sistemi_operativi.Bulletin.{
  Message, w_take, w_open, w_write, w_post, r_start, System, scan, later, writer_step, step,
  run_writer, start, loop, Reach, here, next,
}
use sistemi_operativi.Bulletin.Turns.{
  turn, turn-others, turn-printed, turn-pc, first_turn-Reach, next_turn-Reach,
}

module _ (n steps : ℕ) (input : List Message) (two : 2 ≤ n) (more : 2 ≤ steps) where
  abbrev first : Message
  first = scan input []

  -- The writer puts the first message.
  abbrev taken : System
  taken = record (start n steps input) { sem0 = n - n; writer = w_open }

  abbrev opened : System
  opened = record taken { sem2 = 0 + n; writer = w_write }

  abbrev written : System
  written = record opened {
    message = first;
    input = later input;
    messages = [] ++ (first ∷ []);
    writer = w_post;
  }

  abbrev posted : System
  posted = record written { sem1 = 0 + n; i = 0 + 1; writer = loop n steps (0 + 1) }

  posted-Reach : Reach n steps input 4 posted
  unfolding step writer_step
  posted-Reach =
      let any : ltb 0 steps ≡ true = lt→ltb 0 steps (omega (arith, more)) in
      let all : leb n n ≡ true = ground arith in
      next run_writer
        (next run_writer
          (next run_writer (next {t = taken} run_writer here (rw (any, all) refl)) refl) refl)
        refl

  -- Reader 0 has printed the message twice, the readers from 2 on below that number once, and reader 1 is
  -- before its first semop.
  record Ahead (k : ℕ) (s : System) : Type 0 where
    count : ℕ
    reached : Reach n steps input count s
    told_all : s.sem0 ≡ k
    left_1 : s.sem1 + k ≡ n
    left_2 : s.sem2 + k ≡ n
    writer_at : s.writer ≡ w_take
    left_lines : s.input ≡ later input
    holds : s.message ≡ first
    one : s.messages ≡ first ∷ []
    fast : (s.readers 0).printed ≡ first ∷ first ∷ []
    slow : s.readers 1 ≡ record { pc = r_start; printed = [] }
    rest : (j : ℕ) → k ≤ j → (s.readers j).pc ≡ r_start

  Ahead-start : (s : System) × Ahead 2 s
  Ahead-start =
      let s1 = turn 0 posted in
      let s2 = turn 0 s1 in
      let r1 =
        first_turn-Reach n steps input 0 posted (omega (arith, two)) posted-Reach refl
          (omega (arith, two)) (omega (arith, two)) in
      let r2 =
        next_turn-Reach n steps input 0 s1 (omega (arith, two)) r1 (turn-pc 0 posted)
          (omega (arith, two)) (omega (arith, two)) in
      let again : ltb (0 + 1) steps ≡ true = lt→ltb (0 + 1) steps (omega (arith, more)) in
      let same : (j : ℕ) → 0 ≢ j → s2.readers j ≡ posted.readers j =
        λ j h. turn-others 0 j s1 h ∙ turn-others 0 j posted h in
      (
        s2,
        record {
          count = _;
          reached = r2;
          told_all = omega arith;
          left_1 = omega (arith, two);
          left_2 = omega (arith, two);
          writer_at = rw (again) refl;
          left_lines = refl;
          holds = refl;
          one = refl;
          fast = turn-printed 0 s1 ∙ ap (λ l. l ++ (first ∷ [])) (turn-printed 0 posted);
          slow = same 1 (λ e. absurd (omega (arith, e)));
          rest = λ j l. ap (λ c. c.pc) (same j (λ e. absurd (omega (arith, l, e))));
        },
      )

  -- The next of the other readers has its turn.
  Ahead-next : (k : ℕ) (s : System) → 2 ≤ k → k < n → Ahead k s → (t : System) × Ahead (suc k) t
  Ahead-next k s h l a = (
    turn k s,
    record {
      count = _;
      reached =
          first_turn-Reach n steps input k s l a.reached (a.rest k (omega arith))
            (omega (arith, a.left_2, l)) (omega (arith, a.left_1, l));
      told_all = omega (arith, a.told_all);
      left_1 = omega (arith, a.left_1, l);
      left_2 = omega (arith, a.left_2, l);
      writer_at = a.writer_at;
      left_lines = a.left_lines;
      holds = a.holds;
      one = a.one;
      fast = ap (λ c. c.printed) (turn-others k 0 s (λ e. absurd (omega (arith, h, e)))) ∙ a.fast;
      slow = turn-others k 1 s (λ e. absurd (omega (arith, h, e))) ∙ a.slow;
      rest = λ j m.
          ap (λ c. c.pc) (turn-others k j s (λ e. absurd (omega (arith, m, e))))
          ∙ a.rest j (omega (arith, m));
    },
  )

  Ahead-all : (m : ℕ) → suc (suc m) ≤ n → (s : System) × Ahead (suc (suc m)) s
  Ahead-all zero l = Ahead-start
  Ahead-all (suc m) l =
      let (s, a) = Ahead-all m (omega (arith, l)) in
      Ahead-next (suc (suc m)) s (omega arith) (omega (arith, l)) a

  -- With two readers or more and two messages to write, a run can reach a state in which the second
  -- message is written over the first one, reader 0 has printed the first one twice, and reader 1 has
  -- printed nothing.
  pub read_twice :
      (k : ℕ) × ((s : System) × (Reach n steps input k s
          × ((s.messages ≡ first ∷ scan (later input) first ∷ [])
              × (((s.readers 0).printed ≡ first ∷ first ∷ []) × ((s.readers 1).printed ≡ [])))))
  unfolding step writer_step
  read_twice =
      let e : n ≡ suc (suc (n - 2)) = omega (arith, two) in
      let (s, a) = Ahead-all (n - 2) (omega (arith, two)) in
      let all : leb n s.sem0 ≡ true = ground (arith, a.told_all, e) in
      let s1 = record s { sem0 = s.sem0 - n; writer = w_open } in
      let s2 = record s1 { sem2 = s.sem2 + n; writer = w_write } in
      let m = scan s.input s.message in
      let s3 = record s2 {
        message = m;
        input = later s.input;
        messages = s.messages ++ (m ∷ []);
        writer = w_post;
      } in
      let take : step n steps run_writer s ≡ some s1 =
        ap (λ w. writer_step n steps w s) a.writer_at ∙ rw (all) refl in
      (
        _,
        (
          s3,
          (
            next {s = s2} run_writer
                (next {s = s1} run_writer (next {s = s} run_writer a.reached take) refl) refl,
            (
              ap₂ (λ l x. l ++ (x ∷ [])) a.one (ap₂ scan a.left_lines a.holds),
              (a.fast, ap (λ c. c.printed) a.slow),
            ),
          ),
        ),
      )
