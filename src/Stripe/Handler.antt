-- ===== src/Stripe/Handler.antt =====
-- `theHandler` of prog.c (exam of 19-9-2018) while the other threads go on.
use sistemi_operativi.Prelude.{
  ℕ, ◌+◌, ◌%◌, ◌≤◌, ◌<◌, ◌≡◌, refl, sym, ap, ap₂, ◌∙◌, subst, List, [], ◌∷◌, ◌++◌, append_assoc,
  append-nil, arith, All, length, flatten, length-append, take, drop, take-append, drop-append, ◌⊎◌,
  inl, inr, update, ltb, Bool, true, false, ltb→lt, All-append, flatten-append, if◌then◌else◌, ◌==◌,
  Bool-cases,
}
use sistemi_operativi.Stripe.{
  num_chars, System, Reach, here, next, HandlerPc, h_none, h_seek, h_read, h_done, Watched,
  handler_step, Watch, begun, go_on, handle,
}
use sistemi_operativi.Stripe.Layout.{
  IsChunk, stripe, turn_after, stripe-snoc, stripe-append, turn_after-snoc, turn_after-lt,
}
use sistemi_operativi.Stripe.Phases.{pending, Inv}
use sistemi_operativi.Stripe.Safety.{Reach-Inv, Late, Inv-Late}
use sistemi_operativi.Stripe.Grown.{
  Begins, Begins-trans, Longer, Grown, step-Grown, All-behind, head-stripe, chunks-Begins,
}

module _ (n : ℕ) where
  -- The state between two reads of the handler: it has read the chunks, in the order in which they were
  -- handed out.
  record Read (w : Watched) (turn : ℕ) : Type 0 where
    chunks : List (List ℕ)
    five : All IsChunk chunks
    output : w.output ≡ flatten chunks
    its_turn : turn ≡ turn_after n 0 chunks
    positions : (j : ℕ) → 0 < j → j ≤ n → w.positions j ≡ length (stripe n 0 chunks j)
    begins : (j : ℕ) → Begins (stripe n 0 chunks j) (w.system.files j)

  -- What holds of the handler where it stands.
  abbrev WatchingAt : HandlerPc → Watched → Type 0
  WatchingAt (h_seek i) w = (w.output ≡ []) × ((j : ℕ) → 0 < j → j < i → w.positions j ≡ 0)
  WatchingAt (h_read turn) w = Read w turn
  WatchingAt _ w = Unit

  -- What a read of the handler does. The bytes read by `main` begin with what the handler has printed, and
  -- it has printed five more, or its loop is over with no byte missing but those that are in no file.
  abbrev pub Reads : Watched → ℕ → Watched → Type 0
  Reads w turn t =
      (rest : List ℕ) × ((w.system.taken ≡ t.output ++ rest)
        × (((t.handler ≡ h_read ((turn + 1) % n)) × (length t.output ≡ length w.output + num_chars))
            ⊎ ((t.handler ≡ h_done) × ((t.output ≡ w.output) × Late w.system rest))))

  -- The state after a read of a block.
  abbrev read : Watched → ℕ → List ℕ → Watched
  read w turn block = record w {
    handler = if ltb (length block) num_chars then h_done else h_read ((turn + 1) % n);
    positions = update w.positions (turn + 1) (w.positions (turn + 1) + length block);
    output = w.output ++ block;
  }

  abbrev ReadStep : Watched → ℕ → Watched → Type 0
  ReadStep w turn t = Reads w turn t × WatchingAt t.handler t

  module _ (w : Watched) (turn : ℕ) (r : Read w turn) (inv : Inv n w.system) where
    turn_lt : 0 < n → turn < n
    turn_lt pos = rw (r.its_turn) (turn_after-lt n 0 r.chunks pos pos)

    -- The file whose turn it is holds behind the position the chunks that are not read yet.
    behind_position :
        0 < n
        → (ds : List (List ℕ)) → inv.chunks ≡ r.chunks ++ ds
        → drop (w.positions (turn + 1)) (w.system.files (turn + 1)) ≡ stripe n turn ds (turn + 1)
    behind_position pos ds q =
        ap (λ f. drop (w.positions (turn + 1)) (f (turn + 1))) inv.at.files
        ∙ ap (λ cs. drop (w.positions (turn + 1)) (stripe n 0 cs (turn + 1))) q
        ∙ ap (λ l. drop (w.positions (turn + 1)) l) (stripe-append n 0 r.chunks ds (turn + 1))
        ∙ drop-append (w.positions (turn + 1)) (stripe n 0 r.chunks (turn + 1)) _
            (sym (r.positions (turn + 1) (omega arith) (omega (arith, turn_lt pos))))
        ∙ ap (λ k. stripe n k ds (turn + 1)) (sym r.its_turn)

    read_end : inv.chunks ≡ r.chunks ++ [] → ReadStep w turn (read w turn [])
    read_end q = (
      (
        pending inv.phase w.system.the_buffer,
        (
          inv.at.taken
              ∙ ap (λ l. l ++ pending inv.phase w.system.the_buffer)
                  (ap flatten (q ∙ append-nil r.chunks) ∙ sym r.output ∙ sym (append-nil w.output)),
          inr (refl, (append-nil w.output, Inv-Late inv)),
        ),
      ),
      tt,
    )

    module _ (d : List ℕ) (ds : List (List ℕ)) (q : inv.chunks ≡ r.chunks ++ (d ∷ ds))
        (five : IsChunk d) where
      chunks-snoc : inv.chunks ≡ (r.chunks ++ (d ∷ [])) ++ ds
      chunks-snoc = q ∙ sym (append_assoc r.chunks (d ∷ []) ds)

      output-snoc : w.output ++ d ≡ flatten (r.chunks ++ (d ∷ []))
      output-snoc =
          ap₂ (λ a b. a ++ b) r.output (sym (append-nil d)) ∙ sym (flatten-append r.chunks (d ∷ []))

      length-stripe-snoc :
          (j : ℕ)
          → length (stripe n 0 (r.chunks ++ (d ∷ [])) j)
            ≡ length (stripe n 0 r.chunks j) + length (if turn + 1 == j then d else [])
      length-stripe-snoc j =
          ap length (stripe-snoc n 0 r.chunks d j)
          ∙ length-append (stripe n 0 r.chunks j) _
          ∙ ap (λ k. length (stripe n 0 r.chunks j) + length (if k + 1 == j then d else []))
              (sym r.its_turn)

      positions-snoc :
          (j : ℕ)
          → 0 < j
          → j ≤ n
          → update w.positions (turn + 1) (w.positions (turn + 1) + length d) j
            ≡ length (stripe n 0 (r.chunks ++ (d ∷ [])) j)
      positions-snoc j a b = ground (arith, length-stripe-snoc j, r.positions j a b)

      taken-snoc :
          w.system.taken ≡ (w.output ++ d) ++ (flatten ds ++ pending inv.phase w.system.the_buffer)
      taken-snoc =
          inv.at.taken
          ∙ ap (λ l. l ++ pending inv.phase w.system.the_buffer)
              (ap flatten chunks-snoc
                ∙ flatten-append (r.chunks ++ (d ∷ [])) ds
                ∙ ap (λ l. l ++ flatten ds) (sym output-snoc))
          ∙ append_assoc (w.output ++ d) (flatten ds) _

      goes_on : (read w turn d).handler ≡ h_read ((turn + 1) % n)
      goes_on = ap (λ k. if ltb k num_chars then h_done else h_read ((turn + 1) % n)) five

      Read-snoc : Read (read w turn d) ((turn + 1) % n)
      Read-snoc = record {
        chunks = r.chunks ++ (d ∷ []);
        five = All-append IsChunk r.chunks (d ∷ []) r.five (five, tt);
        output = output-snoc;
        its_turn = ap (λ k. (k + 1) % n) r.its_turn ∙ sym (turn_after-snoc n 0 r.chunks d);
        positions = positions-snoc;
        begins = λ j. (
          _,
          ap (λ f. f j) inv.at.files
              ∙ ap (λ cs. stripe n 0 cs j) chunks-snoc
              ∙ stripe-append n 0 (r.chunks ++ (d ∷ [])) ds j,
        );
      }

      read_chunk : ReadStep w turn (read w turn d)
      read_chunk = (
        (
          flatten ds ++ pending inv.phase w.system.the_buffer,
          (
            taken-snoc,
            inl (goes_on, length-append w.output d ∙ ap (λ k. length w.output + k) five),
          ),
        ),
        subst (λ pc. WatchingAt pc (read w turn d)) (sym goes_on) Read-snoc,
      )

    -- A read of the handler, in a state of the protocol.
    handler_read : 0 < n → ReadStep w turn (handler_step n (h_read turn) w)
    unfolding handler_step
    handler_read pos =
        let (ds, q) =
          chunks-Begins n r.chunks inv.chunks 0 r.five inv.at.five
            (λ j. let (x, e) = r.begins j in (x, sym (ap (λ f. f j) inv.at.files) ∙ e)) in
        subst (λ l. ReadStep w turn (read w turn (take num_chars l)))
          (sym (behind_position pos ds q))
          (by_chunks ds q (All-behind r.chunks ds (subst (λ l. All IsChunk l) q inv.at.five)))
      where
        by_chunks :
            (ds : List (List ℕ))
            → inv.chunks ≡ r.chunks ++ ds
            → All IsChunk ds
            → ReadStep w turn (read w turn (take num_chars (stripe n turn ds (turn + 1))))
        by_chunks [] q a = read_end q
        by_chunks (d ∷ ds) q a =
            subst (λ l. ReadStep w turn (read w turn l))
              (sym (ap (take num_chars) (head-stripe n turn d ds) ∙ take-append num_chars d _ a.0))
              (read_chunk d ds q a.0)

  -- Another thread's step leaves the handler where it is.
  Longer-WatchingAt :
      (pc : HandlerPc) (w : Watched) (t : System)
      → Longer w.system t
      → WatchingAt pc w
      → WatchingAt pc (record w { system = t })
  Longer-WatchingAt h_none w t l h = tt
  Longer-WatchingAt (h_seek i) w t l h = h
  Longer-WatchingAt (h_read turn) w t l h = record {
    chunks = h.chunks;
    five = h.five;
    output = h.output;
    its_turn = h.its_turn;
    positions = h.positions;
    begins = λ j. Begins-trans _ _ _ (h.begins j) (l j);
  }
  Longer-WatchingAt h_done w t l h = tt

  seek-WatchingAt :
      (i : ℕ) (w : Watched)
      → WatchingAt (h_seek i) w
      → WatchingAt (handler_step n (h_seek i) w).handler (handler_step n (h_seek i) w)
  unfolding handler_step
  seek-WatchingAt i w (e, z) = elim (Bool-cases (ltb n i)) [
    | inl l ↦ rw (l) (record {
      chunks = [];
      five = tt;
      output = e;
      its_turn = refl;
      positions = λ j a b. z j a (omega (arith, b, ltb→lt n i l));
      begins = λ j. (w.system.files j, refl);
    })
    | inr l ↦ rw (l) (e, λ j a b. ground (arith, z j a))
  ]

  step-WatchingAt :
      0 < n
      → (pc : HandlerPc) (w : Watched) → Inv n w.system
      → WatchingAt pc w
      → WatchingAt (handler_step n pc w).handler (handler_step n pc w)
  unfolding handler_step
  step-WatchingAt pos h_none w inv h = (refl, λ j a b. absurd (omega (arith, a, b)))
  step-WatchingAt pos (h_seek i) w inv h = seek-WatchingAt i w h
  step-WatchingAt pos (h_read turn) w inv h = (handler_read w turn h inv pos).1
  step-WatchingAt pos h_done w inv h = tt

pub same_system : (n : ℕ) (pc : HandlerPc) (w : Watched) → w.system ≡ (handler_step n pc w).system
unfolding handler_step
same_system n h_none w = refl
same_system n (h_seek i) w = if_same (ltb n i)
  where
    if_same :
        (b : Bool)
        → w.system
          ≡ (if b
              then record w { handler = h_read 0 }
              else record w { handler = h_seek (i + 1); positions = update w.positions i 0 }).system
    if_same true = refl
    if_same false = refl
same_system n (h_read turn) w = refl
same_system n h_done w = refl

Watch-Reach : {n : ℕ} {input : List ℕ} {w : Watched} → Watch n input w → Reach n input w.system
Watch-Reach begun = here
Watch-Reach (go_on a v e) = next a (Watch-Reach v) e
Watch-Reach {n} {input} (handle {w = w} v) =
    subst (λ s. Reach n input s) (same_system n w.handler w) (Watch-Reach v)

Watch-WatchingAt :
    {n : ℕ} {input : List ℕ} {w : Watched} → 0 < n → Watch n input w → WatchingAt n w.handler w
Watch-WatchingAt pos begun = tt
Watch-WatchingAt {n} pos (go_on {w = w} {t = t} a v e) =
    Longer-WatchingAt n w.handler w t (subst (λ o. Grown w.system o) e (step-Grown n a w.system))
      (Watch-WatchingAt pos v)
Watch-WatchingAt {n} pos (handle {w = w} v) =
    step-WatchingAt n pos w.handler w (Reach-Inv pos (Watch-Reach v)) (Watch-WatchingAt pos v)

-- With one handler at a time, every read of the handler, whatever the other threads have done meanwhile,
-- leaves on its output a beginning of the bytes that `main` has read, in their order: it adds the next
-- five, or it ends the loop, and then the bytes read that are missing are at most five, and none where the
-- main thread waits and `semaphores[0]` is free.
pub handler_replays :
    {n turn : ℕ} {input : List ℕ} {w : Watched}
    → 0 < n
    → Watch n input w
    → w.handler ≡ h_read turn
    → Reads n w turn (handler_step n w.handler w)
handler_replays {n} {turn} {input} {w} pos v e =
    let at = subst (λ pc. WatchingAt n pc w) e (Watch-WatchingAt pos v) in
    subst (λ pc. Reads n w turn (handler_step n pc w)) (sym e)
      (handler_read n w turn at (Reach-Inv pos (Watch-Reach v)) pos).0
