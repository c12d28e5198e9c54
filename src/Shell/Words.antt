-- ===== src/Shell/Words.antt =====
-- How `strtok` takes words from a string: Tutoraggio 8/esempio2(shell-pipe)(UNIX).c.
use sistemi_operativi.Prelude.{
  ℕ, suc, ◌≡◌, ◌≢◌, refl, sym, ap, ◌∙◌, true, false, [], ◌∷◌, ◌++◌, append_assoc, append-nil,
  length, All, ==_ne,
}
use sistemi_operativi.Shell.{bar, is_delimiter, Bytes, string_at, split, tokens, cut, first_bar}

-- A byte of a word: no delimiter and no NUL.
abbrev pub IsLetter : ℕ → Type 0
IsLetter c = (c ≢ 32) × ((c ≢ 10) × (c ≢ 0))

abbrev pub IsWord : Bytes → Type 0
IsWord [] = ⊥
IsWord (c ∷ w) = All IsLetter (c ∷ w)

letter-delimiter : (c : ℕ) → IsLetter c → is_delimiter c ≡ false
letter-delimiter c l = rw (==_ne c 32 l.0, ==_ne c 10 l.1.0) refl

-- A word is taken whole.
split-word : (begun w s : Bytes) → All IsLetter w → split begun (w ++ s) ≡ split (begun ++ w) s
unfolding split
split-word begun [] s a = ap (λ b. split b s) (sym (append-nil begun))
split-word begun (c ∷ w) s a =
    rw (letter-delimiter c a.0)
      (split-word (begun ++ (c ∷ [])) w s a.1 ∙ ap (λ b. split b s) (append_assoc begun (c ∷ []) w))

pub tokens-word :
    (w : Bytes) (d : ℕ) (s : Bytes)
    → IsWord w
    → is_delimiter d ≡ true
    → tokens (w ++ (d ∷ s)) ≡ w ∷ tokens s
unfolding split
tokens-word [] d s a e = absurd a
tokens-word (c ∷ w) d s a e = split-word [] (c ∷ w) (d ∷ s) a ∙ rw (e) refl

pub tokens_whole : (w : Bytes) → IsWord w → tokens w ≡ w ∷ []
unfolding split
tokens_whole [] a = absurd a
tokens_whole (c ∷ w) a = ap tokens (sym (append-nil (c ∷ w))) ∙ split-word [] (c ∷ w) [] a

-- Inside a word, `strtok` changes nothing.
cut-letters :
    (n : ℕ) (w s : Bytes) → All IsLetter w → cut (suc n) true (w ++ s) ≡ w ++ cut (suc n) true s
unfolding cut
cut-letters n [] s a = refl
cut-letters n (c ∷ w) s a =
    rw (==_ne c 0 a.0.1.1, letter-delimiter c a.0) (ap (λ l. c ∷ l) (cut-letters n w s a.1))

pub cut-word :
    (n : ℕ) (w : Bytes) (d : ℕ) (s : Bytes)
    → IsWord w
    → is_delimiter d ≡ true
    → d ≢ 0
    → cut (suc n) false (w ++ (d ∷ s)) ≡ w ++ (0 ∷ cut n false s)
unfolding cut
cut-word n [] d s a e z = absurd a
cut-word n (c ∷ w) d s a e z =
    rw (==_ne c 0 a.0.1.1, letter-delimiter c a.0)
      (ap (λ l. c ∷ l) (cut-letters n w (d ∷ s) a.1 ∙ ap (λ l. w ++ l) (rw (==_ne d 0 z, e) refl)))

pub string_at-append : (w s : Bytes) → All (λ c. c ≢ 0) w → string_at (w ++ s) ≡ w ++ string_at s
unfolding string_at
string_at-append [] s a = refl
string_at-append (c ∷ w) s a = rw (==_ne c 0 a.0) (ap (λ l. c ∷ l) (string_at-append w s a.1))

pub first_bar-append : (w s : Bytes) → All (λ c. c ≢ bar) w → first_bar (w ++ (bar ∷ s)) ≡ length w
unfolding first_bar
first_bar-append [] s a = refl
first_bar-append (c ∷ w) s a = rw (==_ne c bar a.0) (ap suc (first_bar-append w s a.1))
