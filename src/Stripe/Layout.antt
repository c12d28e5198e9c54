-- ===== src/Stripe/Layout.antt =====
-- What the files hold after the chunks `cs` have been handed out: the first chunk goes to the file
-- behind `turn`, the next one to the file after it, and so on round the `n` files.
use sistemi_operativi.Prelude.{
  ℕ, ◌+◌, ◌%◌, ◌<◌, ◌≡◌, refl, sym, ap, ◌∙◌, List, [], ◌∷◌, ◌++◌, append-nil, append_assoc, arith,
  ◌==◌, if◌then◌else◌, length,
}
use sistemi_operativi.Stripe.{num_chars}

-- A chunk as `main` hands it out.
abbrev pub IsChunk : List ℕ → Type 0
IsChunk c = length c ≡ num_chars

module _ (n : ℕ) where
  abbrev pub stripe : ℕ → List (List ℕ) → ℕ → List ℕ
  stripe turn [] i = []
  stripe turn (c ∷ cs) i = (if turn + 1 == i then c else []) ++ stripe ((turn + 1) % n) cs i

  -- The turn after the chunks.
  abbrev pub turn_after : ℕ → List (List ℕ) → ℕ
  turn_after turn [] = turn
  turn_after turn (c ∷ cs) = turn_after ((turn + 1) % n) cs

  -- One more chunk goes to the end of the file whose turn it is.
  pub stripe-snoc :
      (turn : ℕ) (cs : List (List ℕ)) (c : List ℕ) (i : ℕ)
      → stripe turn (cs ++ (c ∷ [])) i
        ≡ stripe turn cs i ++ (if turn_after turn cs + 1 == i then c else [])
  stripe-snoc turn [] c i = append-nil _
  stripe-snoc turn (b ∷ cs) c i =
      ap (λ l. (if turn + 1 == i then b else []) ++ l) (stripe-snoc ((turn + 1) % n) cs c i)
      ∙ sym (append_assoc (if turn + 1 == i then b else []) _ _)

  pub turn_after-snoc :
      (turn : ℕ) (cs : List (List ℕ)) (c : List ℕ)
      → turn_after turn (cs ++ (c ∷ [])) ≡ (turn_after turn cs + 1) % n
  turn_after-snoc turn [] c = refl
  turn_after-snoc turn (b ∷ cs) c = turn_after-snoc ((turn + 1) % n) cs c

  pub turn_after-lt : (turn : ℕ) (cs : List (List ℕ)) → 0 < n → turn < n → turn_after turn cs < n
  turn_after-lt turn [] h l = l
  turn_after-lt turn (c ∷ cs) h l = turn_after-lt ((turn + 1) % n) cs h (omega arith)

  -- More chunks go behind those that are there.
  pub stripe-append :
      (turn : ℕ) (cs ds : List (List ℕ)) (i : ℕ)
      → stripe turn (cs ++ ds) i ≡ stripe turn cs i ++ stripe (turn_after turn cs) ds i
  stripe-append turn [] ds i = refl
  stripe-append turn (c ∷ cs) ds i =
      ap (λ l. (if turn + 1 == i then c else []) ++ l) (stripe-append ((turn + 1) % n) cs ds i)
      ∙ sym (append_assoc (if turn + 1 == i then c else []) _ _)
