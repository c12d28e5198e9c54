-- ===== src/Bulletin/Writer.antt =====
-- The steps of the writer of exercise4(UNIX).c (Tutoraggio 11).
use sistemi_operativi.Prelude.{
  ℕ, suc, ◌+◌, ◌-◌, ◌≤◌, ◌<◌, ◌≡◌, refl, sym, ap, ap₂, ◌∙◌, List, [], ◌∷◌, ◌++◌, append_assoc,
  append-nil, arith, inl, inr, update, sum_below, sum_below-update, le-sum_below, ltb, leb, ltb→lt,
  Bool-cases, subst, replicate,
}
use sistemi_operativi.Bulletin.{
  Message, WriterPc, w_take, w_open, w_write, w_post, w_last, w_end, w_kill, r_killed, System, scan,
  later, loop, writer_step,
}
use sistemi_operativi.Bulletin.Tokens.{
  prints, posts, waits, at_killed, at_killed-le, kills, has, ahead, held_back, to_write, InLoop,
  announced, copies, Inv,
}
use sistemi_operativi.Bulletin.Steps.{After}

copies-append :
    (n : ℕ) (ms : List Message) (m : Message)
    → copies n (ms ++ (m ∷ [])) ≡ copies n ms ++ replicate n m
copies-append n [] m = append-nil (replicate n m)
copies-append n (l ∷ ms) m =
    ap (λ x. replicate n l ++ x) (copies-append n ms m)
    ∙ sym (append_assoc (replicate n l) (copies n ms) (replicate n m))

-- What the loop of `main` does at that `i`.
pub record Loops (n steps i : ℕ) (w : WriterPc) : Type 0 where
  pub lends : has n w ≡ 0
  pub even : ahead n w ≡ 0
  pub free : held_back n w ≡ 0
  pub in_loop : InLoop steps w i
  pub togo : to_write steps w i ≡ steps - i

pub loop-Loops : (n steps i : ℕ) → Loops n steps i (loop n steps i)
loop-Loops n steps i = elim (Bool-cases (ltb i steps)) [
  | inl e ↦
      rw (e)
        (record { lends = refl; even = refl; free = refl; in_loop = ltb→lt i steps e; togo = refl })
  | inr e ↦
      let l : steps ≤ i = ground (arith, e) in
      rw (e)
        (record { lends = refl; even = refl; free = refl; in_loop = l; togo = omega (arith, l) })
]

module _ (n steps : ℕ) (input : List Message) (s : System) (inv : Inv n steps input s) where
  -- What the invariant says when the writer is there.
  pub tokens-at :
      (pc : WriterPc)
      → s.writer ≡ pc
      → s.sem0 + s.sem1 + sum_below prints n s.readers + sum_below posts n s.readers + has n pc ≡ n
  tokens-at pc q = omega (arith, inv.tokens, ap (has n) q)

  pub gates-at :
      (pc : WriterPc) → s.writer ≡ pc → s.sem2 + sum_below waits n s.readers ≡ s.sem1 + ahead n pc
  gates-at pc q = omega (arith, inv.gates, ap (ahead n) q)

  pub spared-at :
      (pc : WriterPc) → s.writer ≡ pc → (j : ℕ) → j < n → at_killed (s.readers j).pc ≤ kills pc
  spared-at pc q j l = omega (arith, inv.spared j l, ap kills q)

  pub loop-at : (pc : WriterPc) → s.writer ≡ pc → InLoop steps pc s.i
  loop-at pc q = subst (λ w. InLoop steps w s.i) q inv.in_loop

  pub order-at :
      (pc : WriterPc)
      → s.writer ≡ pc
      → s.messages ++ announced (to_write steps pc s.i) s.input s.message ≡ announced steps input []
  order-at pc q =
      ap (λ w. s.messages ++ announced (to_write steps w s.i) s.input s.message) (sym q) ∙ inv.order

  pub shown-at :
      (k : ℕ) (pc : WriterPc)
      → s.writer ≡ pc
      → k ≡ s.sem1 + sum_below prints n s.readers + held_back n pc
      → s.output ++ replicate k s.message ≡ copies n s.messages
  shown-at k pc q e =
      ap (λ j. s.output ++ replicate j s.message) (omega (arith, e, ap (held_back n) q)) ∙ inv.shown

  kill-Inv :
      (k : ℕ)
      → s.writer ≡ w_kill k
      → k < n
      → Inv n steps input (record s {
        writer = w_kill (k + 1);
        readers = update s.readers k (record (s.readers k) { pc = r_killed });
      })
  kill-Inv k q l =
      let c = record (s.readers k) { pc = r_killed } in
      let f = update s.readers k c in
      let t = tokens-at (w_kill k) q in
      let g = gates-at (w_kill k) q in
      let p : sum_below prints n f + prints (s.readers k) ≡ sum_below prints n s.readers + 0 =
        sum_below-update prints n s.readers k c l in
      let r : sum_below posts n f + posts (s.readers k) ≡ sum_below posts n s.readers + 0 =
        sum_below-update posts n s.readers k c l in
      let w : sum_below waits n f + waits (s.readers k) ≡ sum_below waits n s.readers + 0 =
        sum_below-update waits n s.readers k c l in
      let printed : sum_below prints n f ≡ sum_below prints n s.readers = omega (arith, t, p) in
      record {
        tokens = omega (arith, t, p, r, le-sum_below posts n s.readers k l);
        gates = omega (arith, t, g, w, le-sum_below waits n s.readers k l);
        spared = λ j h. at_killed-le (f j).pc;
        in_loop = loop-at (w_kill k) q;
        order = order-at (w_kill k) q;
        shown = shown-at _ (w_kill k) q (omega (arith, printed));
      }

  pub writer_After :
      (pc : WriterPc) → s.writer ≡ pc → After n steps input (writer_step n steps pc s)
  unfolding writer_step
  writer_After w_take q = elim (Bool-cases (leb n s.sem0)) [
    | inr h ↦ rw (h) tt
    | inl h ↦
        let l : n ≤ s.sem0 = ground (arith, h) in
        rw (h) (record {
          tokens = omega (arith, l, tokens-at w_take q);
          gates = gates-at w_take q;
          spared = spared-at w_take q;
          in_loop = loop-at w_take q;
          order = order-at w_take q;
          shown = shown-at _ w_take q refl;
        })
  ]
  writer_After w_open q = record {
    tokens = tokens-at w_open q;
    gates = omega (arith, gates-at w_open q);
    spared = spared-at w_open q;
    in_loop = loop-at w_open q;
    order = order-at w_open q;
    shown = shown-at _ w_open q refl;
  }
  writer_After w_write q =
      let m = scan s.input s.message in
      let l : s.i < steps = loop-at w_write q in
      let none_left : s.sem1 + sum_below prints n s.readers ≡ 0 =
        omega (arith, tokens-at w_write q) in
      let one_less : suc (steps - (s.i + 1)) ≡ steps - s.i = omega (arith, l) in
      let all : n ≡ s.sem1 + sum_below prints n s.readers + n = omega (arith, none_left) in
      record {
        tokens = tokens-at w_write q;
        gates = gates-at w_write q;
        spared = spared-at w_write q;
        in_loop = l;
        order =
            append_assoc s.messages (m ∷ []) (announced (steps - (s.i + 1)) (later s.input) m)
            ∙ ap (λ k. s.messages ++ announced k s.input s.message) one_less
            ∙ order-at w_write q;
        shown =
            ap₂ (λ o k. o ++ replicate k m)
              (sym (append-nil s.output) ∙ shown-at 0 w_write q (omega (arith, none_left)))
              (sym all)
            ∙ sym (copies-append n s.messages m);
      }
  writer_After w_post q =
      let at = loop-Loops n steps (s.i + 1) in
      let l : s.i < steps = loop-at w_post q in
      record {
        tokens = omega (arith, tokens-at w_post q, at.lends);
        gates = omega (arith, gates-at w_post q, at.even);
        spared = λ j h. omega (arith, spared-at w_post q j h);
        in_loop = at.in_loop;
        order = ap (λ k. s.messages ++ announced k s.input s.message) at.togo ∙ order-at w_post q;
        shown = shown-at _ w_post q (omega (arith, at.free));
      }
  writer_After w_last q = elim (Bool-cases (leb n s.sem0)) [
    | inr h ↦ rw (h) tt
    | inl h ↦
        let l : n ≤ s.sem0 = ground (arith, h) in
        rw (h) (record {
          tokens = omega (arith, l, tokens-at w_last q);
          gates = gates-at w_last q;
          spared = λ j h. at_killed-le (s.readers j).pc;
          in_loop = loop-at w_last q;
          order = order-at w_last q;
          shown = shown-at _ w_last q refl;
        })
  ]
  writer_After (w_kill k) q = elim (Bool-cases (ltb k n)) [
    | inl h ↦ rw (h) (kill-Inv k q (ltb→lt k n h))
    | inr h ↦ rw (h) (record {
      tokens = tokens-at (w_kill k) q;
      gates = gates-at (w_kill k) q;
      spared = spared-at (w_kill k) q;
      in_loop = loop-at (w_kill k) q;
      order = order-at (w_kill k) q;
      shown = shown-at _ (w_kill k) q refl;
    })
  ]
  writer_After w_end q = tt
