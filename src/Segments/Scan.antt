-- ===== src/Segments/Scan.antt =====
-- The words of a text, as `fscanf` with `%s` delivers them.
use sistemi_operativi.Prelude.{
  ℕ, zero, suc, ◌≤◌, ◌<◌, ◌≡◌, ◌≢◌, refl, sym, ap, ◌∙◌, subst, false, none, some, List, [], ◌∷◌,
  All, arith, length, Bool-cases, inl, inr,
}
use sistemi_operativi.Segments.{is_space, word_at, skip_space, take_word, fscanf}

-- The words that the first `k` calls deliver.
unfoldable pub words : ℕ → List ℕ → List (List ℕ)
words zero bytes = []
words (suc k) bytes = elim (fscanf bytes) [ none ↦ [] | some (w, rest) ↦ w ∷ words k rest ]

-- A text has no NUL byte, and a word is a text that is not empty.
abbrev pub IsText : List ℕ → Type 0
IsText = All (λ b. b ≢ 0)

abbrev pub IsWord : List ℕ → Type 0
IsWord [] = ⊥
IsWord (b ∷ w) = IsText (b ∷ w)

-- What one call takes.
pub record Scanned (bytes w rest : List ℕ) : Type 0 where
  pub word : IsWord w
  pub text : IsText rest
  pub shorter : length rest < length bytes

skip_space-IsText : (bytes : List ℕ) → IsText bytes → IsText (skip_space bytes)
unfolding skip_space
skip_space-IsText [] t = tt
skip_space-IsText (b ∷ bytes) t = elim (Bool-cases (is_space b)) [
  | inl e ↦ rw e (skip_space-IsText bytes t.1)
  | inr e ↦ rw e t
]

length-skip_space-le : (bytes : List ℕ) → length (skip_space bytes) ≤ length bytes
unfolding skip_space
length-skip_space-le [] = omega arith
length-skip_space-le (b ∷ bytes) = elim (Bool-cases (is_space b)) [
  | inl e ↦ rw e (omega (arith, length-skip_space-le bytes))
  | inr e ↦ rw e (omega arith)
]

-- What is left after the white space does not begin with white space.
head-skip_space :
    (bytes : List ℕ) {b : ℕ} {rest : List ℕ} → skip_space bytes ≡ b ∷ rest → is_space b ≡ false
unfolding skip_space
head-skip_space [] e = absurd (cc)
head-skip_space (c ∷ bytes) {b} e = elim (Bool-cases (is_space c)) [
  | inl s ↦ head-skip_space bytes (rw s at e)
  | inr s ↦ (let q : c ≡ b = first (rw s at e) in ap is_space (sym q) ∙ s)
]
  where
    first : {d : ℕ} {r q : List ℕ} → d ∷ r ≡ b ∷ q → d ≡ b
    first p = cc

take_word-IsText :
    (bytes : List ℕ) → IsText bytes → IsText (take_word bytes).0 × IsText (take_word bytes).1
unfolding take_word
take_word-IsText [] t = (tt, tt)
take_word-IsText (b ∷ bytes) t = elim (Bool-cases (is_space b)) [
  | inl e ↦ rw e (tt, t)
  | inr e ↦ rw e ((t.0, (take_word-IsText bytes t.1).0), (take_word-IsText bytes t.1).1)
]

length-take_word-le : (bytes : List ℕ) → length (take_word bytes).1 ≤ length bytes
unfolding take_word
length-take_word-le [] = omega arith
length-take_word-le (b ∷ bytes) = elim (Bool-cases (is_space b)) [
  | inl e ↦ rw e (omega arith)
  | inr e ↦ rw e (omega (arith, length-take_word-le bytes))
]

take_word-Scanned :
    (b : ℕ) (bytes : List ℕ)
    → is_space b ≡ false
    → IsText (b ∷ bytes)
    → Scanned (b ∷ bytes) (take_word (b ∷ bytes)).0 (take_word (b ∷ bytes)).1
unfolding take_word
take_word-Scanned b bytes e t = rw e (record {
  word = (t.0, (take_word-IsText bytes t.1).0);
  text = (take_word-IsText bytes t.1).1;
  shorter = omega (arith, length-take_word-le bytes);
})

word_at-Scanned :
    (l : List ℕ) {w rest : List ℕ}
    → IsText l
    → ((b : ℕ) (r : List ℕ) → l ≡ b ∷ r → is_space b ≡ false)
    → word_at l ≡ some (w, rest)
    → Scanned l w rest
unfolding word_at
word_at-Scanned [] t h e = absurd (cc)
word_at-Scanned (b ∷ l) {w} {rest} t h e =
    subst (λ (p : List ℕ × List ℕ). Scanned (b ∷ l) p.0 p.1) (pair e)
      (take_word-Scanned b l (h b l refl) t)
  where
    pair : {p : List ℕ × List ℕ} → some p ≡ some (w, rest) → p ≡ (w, rest)
    pair q = cc

pub fscanf-Scanned :
    (bytes : List ℕ) {w rest : List ℕ}
    → IsText bytes
    → fscanf bytes ≡ some (w, rest)
    → Scanned bytes w rest
unfolding fscanf
fscanf-Scanned bytes {w} {rest} t e =
    let s : Scanned (skip_space bytes) w rest =
      word_at-Scanned (skip_space bytes) (skip_space-IsText bytes t)
        (λ b r q. head-skip_space bytes q) e in
    record {
      word = s.word;
      text = s.text;
      shorter = omega (arith, s.shorter, length-skip_space-le bytes);
    }
