-- ===== src/Relay/Spec.antt =====
-- What the two processes of prog-solution.c (exam of 7-9-2018) promise: channels with one place each. A
-- string goes from the input into a free place, and from a place into the file.
use sistemi_operativi.Prelude.Count.{one, count, count-append}
use sistemi_operativi.Prelude.{
  ℕ, ◌+◌, ◌<◌, ◌≡◌, ap, arith, Bool, sum_below, sum_below-update, Option, none, some, List, [], ◌∷◌,
  ◌++◌, update,
}

pub record Place : Type 0 where
  pub input : List (List ℕ)
  pub places : ℕ → Option (List ℕ)
  pub file : List (List ℕ)

-- One step between two states of `n` channels.
pub data Move (n : ℕ) : Place → Place → Type 0 where
  stay : {p q : Place} → p ≡ q → Move n p q
  accept :
      {p q : Place} (i : ℕ) (word : List ℕ) (later : List (List ℕ))
      → i < n
      → p.places i ≡ none
      → p.input ≡ word ∷ later
      → q ≡ record { input = later; places = update p.places i (some word); file = p.file }
      → Move n p q
  deliver :
      {p q : Place} (i : ℕ) (word : List ℕ)
      → i < n
      → p.places i ≡ some word
      → q
        ≡ record { input = p.input; places = update p.places i none; file = p.file ++ (word ∷ []) }
      → Move n p q

-- How many strings that pass a test stand in a place.
abbrev pub held : (List ℕ → Bool) → Option (List ℕ) → ℕ
held p none = 0
held p (some word) = one (p word)

-- How many strings that pass a test there are, wherever they stand.
unfoldable pub total : (List ℕ → Bool) → ℕ → Place → ℕ
total p n x = count p x.input + sum_below (held p) n x.places + count p x.file

-- No move loses or doubles a string.
pub Move-total : (p : List ℕ → Bool) {n : ℕ} {x y : Place} → Move n x y → total p n x ≡ total p n y
unfolding total count
Move-total p {n} (stay e) = ap (total p n) e
Move-total p {n} {x} (accept i word later l free e q) = omega (
  arith,
  ap (count p) e,
  sum_below-update (held p) n x.places i (some word) l,
  ap (held p) free,
  ap (total p n) q,
)
Move-total p {n} {x} (deliver i word l e q) = omega (
  arith,
  count-append p x.file (word ∷ []),
  sum_below-update (held p) n x.places i none l,
  ap (held p) e,
  ap (total p n) q,
)
