-- ===== src/Segments/Store.antt =====
-- The shared segment of `child_function` of prog-A-solution.c (exam of 18-7-2018), round by round.
use sistemi_operativi.Prelude.{
  ℕ, zero, suc, ◌+◌, ◌-◌, ◌≤◌, ◌<◌, ◌≡◌, refl, sym, ap, ap₂, ◌∙◌, subst, true, some, List, [], ◌∷◌,
  ◌++◌, append_assoc, append-nil, arith, length, drop, replicate, length-append, length-replicate,
  take-append, drop-append, drop-append_add, Option-cases, inl, inr, leb, ◌⊎◌,
}
use sistemi_operativi.Prelude.Text.{c_string, c_string-append}
use sistemi_operativi.Segments.{fscanf, write_at, Child, Run, going, posted, child_loop}
use sistemi_operativi.Segments.Scan.{words, IsText, IsWord, Scanned, fscanf-Scanned}

-- The bytes of stored words.
abbrev pub encode : List (List ℕ) → List ℕ
encode [] = []
encode (w ∷ ws) = w ++ (0 ∷ encode ws)

pub encode-append : (ws vs : List (List ℕ)) → encode (ws ++ vs) ≡ encode ws ++ encode vs
encode-append [] vs = refl
encode-append (w ∷ ws) vs =
    ap (λ l. w ++ (0 ∷ l)) (encode-append ws vs) ∙ sym (append_assoc w (0 ∷ encode ws) (encode vs))

abbrev pub zeros : ℕ → List ℕ
zeros n = replicate n 0

drop-zeros : (n m : ℕ) → drop n (zeros m) ≡ zeros (m - n)
drop-zeros zero m = let e : m ≡ m - 0 = omega arith in ap zeros e
drop-zeros (suc n) zero = let e : 0 ≡ 0 - suc n = omega arith in ap zeros e
drop-zeros (suc n) (suc m) =
    let e : m - n ≡ suc m - suc n = omega arith in drop-zeros n m ∙ ap zeros e

-- A write at the end of what is stored.
write_at-end :
    (front bytes : List ℕ) (n : ℕ)
    → length bytes ≤ n
    → write_at (length front) bytes (front ++ zeros n)
      ≡ some ((front ++ bytes) ++ zeros (n - length bytes))
unfolding write_at
write_at-end front bytes n l =
    rw
      (
        fits,
        take-append (length front) front (zeros n) refl,
        drop-append_add front (zeros n) (length bytes),
        drop-zeros,
      )
      (ap some (sym (append_assoc front bytes _)))
  where
    fits : leb (length front + length bytes) (length (front ++ zeros n)) ≡ true
    fits = ground (arith, length-append front (zeros n), length-replicate {A = ℕ} n 0)

-- The state of a child that has stored the words `ws` and has `n` zeros left.
pub record Stored (r : Run) (ws : List (List ℕ)) (n : ℕ) (enough : Type 0) : Type 0 where
  pub child : Child
  pub at : (r ≡ going child) ⊎ (r ≡ posted child)
  pub memory : child.memory ≡ encode ws ++ zeros n
  pub ended : enough → r ≡ posted child

length-encode-snoc :
    (ws : List (List ℕ)) (w : List ℕ)
    → length (encode (ws ++ (w ∷ []))) ≡ length (encode ws) + length w + 1
length-encode-snoc ws w = omega (
  arith,
  ap length (encode-append ws (w ∷ [])),
  length-append (encode ws) (w ++ (0 ∷ [])),
  length-append w (0 ∷ []),
)

-- One round of the loop.
child_loop-suc :
    (k : ℕ) (c : Child) (ws : List (List ℕ)) (n : ℕ) (w rest : List ℕ)
    → c.memory ≡ encode ws ++ zeros n
    → c.offset ≡ length (encode ws)
    → fscanf c.unread ≡ some (w, rest)
    → IsText w
    → length w + 1 ≤ n
    → child_loop (suc k) c
      ≡ child_loop k (record {
        unread = rest;
        memory = encode (ws ++ (w ∷ [])) ++ zeros (n - (length w + 1));
        offset = length (encode (ws ++ (w ∷ [])));
      })
unfolding child_loop
child_loop-suc k c ws n w rest mem off e t l =
    rw (e, written, found, child_loop)
      (ap
        (λ o. child_loop k (record {
          unread = rest;
          memory = encode (ws ++ (w ∷ [])) ++ zeros (n - (length w + 1));
          offset = o;
        }))
        (omega (arith, length-encode-snoc ws w)))
  where
    len : length (w ++ (0 ∷ [])) ≡ length w + 1
    len = omega (arith, length-append w (0 ∷ []))

    memory' : List ℕ
    memory' = encode (ws ++ (w ∷ [])) ++ zeros (n - (length w + 1))

    written : write_at c.offset (w ++ (0 ∷ [])) c.memory ≡ some memory'
    written =
        ap₂ (λ o m. write_at o (w ++ (0 ∷ [])) m) off mem
        ∙ write_at-end (encode ws) (w ++ (0 ∷ [])) n (omega (arith, len))
        ∙ ap some (ap₂ ◌++◌ (sym (encode-append ws (w ∷ []))) (ap (λ m. zeros (n - m)) len))

    found : c_string (drop c.offset memory') ≡ some w
    found =
        ap₂ (λ o m. c_string (drop o m)) off
          (ap (λ l. l ++ zeros (n - (length w + 1))) (encode-append ws (w ∷ []))
            ∙ append_assoc (encode ws) (w ++ (0 ∷ [])) _)
        ∙ ap c_string
            (drop-append (length (encode ws)) (encode ws) _ refl ∙ append_assoc w (0 ∷ []) _)
        ∙ c_string-append w _ t

IsWord-IsText : (w : List ℕ) → IsWord w → IsText w
IsWord-IsText [] h = absurd h
IsWord-IsText (b ∷ w) h = h

-- In every round the words delivered so far are stored, and after enough rounds the child is done.
pub child_loop-Stored :
    (k : ℕ) (c : Child) (ws : List (List ℕ)) (n : ℕ)
    → IsText c.unread
    → c.memory ≡ encode ws ++ zeros n
    → c.offset ≡ length (encode ws)
    → length (encode (words k c.unread)) ≤ n
    → Stored
        (child_loop k c)
        (ws ++ words k c.unread)
        (n - length (encode (words k c.unread)))
        (length c.unread < k)
unfolding child_loop words
child_loop-Stored zero c ws n t mem off fits = record {
  child = c;
  at = inl refl;
  memory = mem ∙ ap₂ (λ l m. encode l ++ zeros m) (sym (append-nil ws)) (omega arith);
  ended = λ h. absurd (omega arith);
}
child_loop-Stored (suc k) c ws n t mem off fits = elim (Option-cases (fscanf c.unread)) [
  | inl e ↦
      rw (e, words, child_loop)
        (record {
          child = c;
          at = inr refl;
          memory = mem ∙ ap₂ (λ l m. encode l ++ zeros m) (sym (append-nil ws)) (omega arith);
          ended = λ h. refl;
        })
  | inr ((w, rest), e) ↦
      let s : Scanned c.unread w rest = fscanf-Scanned c.unread t e in
      let taken : words (suc k) c.unread ≡ w ∷ words k rest = rw (e, words) refl in
      let fits' : length (encode (w ∷ words k rest)) ≤ n =
        subst (λ l. length (encode l) ≤ n) taken fits in
      let len : length (encode (w ∷ words k rest))
          ≡ length w + suc (length (encode (words k rest))) =
        length-append w (0 ∷ encode (words k rest)) in
      let c' : Child = (record {
        unread = rest;
        memory = encode (ws ++ (w ∷ [])) ++ zeros (n - (length w + 1));
        offset = length (encode (ws ++ (w ∷ [])));
      }) in
      let round : child_loop (suc k) c ≡ child_loop k c' =
        child_loop-suc k c ws n w rest mem off e (IsWord-IsText w s.word)
          (omega (arith, fits', len)) in
      let later : Stored (child_loop k c') ((ws ++ (w ∷ [])) ++ words k rest)
          (n - (length w + 1) - length (encode (words k rest))) (length rest < k) =
        child_loop-Stored k c' (ws ++ (w ∷ [])) (n - (length w + 1)) s.text refl refl
          (omega (arith, fits', len)) in
      rw (round, taken)
        (record {
          child = later.child;
          at = later.at;
          memory =
              later.memory
              ∙ ap₂ (λ l m. encode l ++ zeros m) (append_assoc ws (w ∷ []) (words k rest))
                  (omega (arith, len));
          ended = λ h. later.ended (omega (arith, s.shorter));
        })
]
