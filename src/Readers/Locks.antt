-- ===== src/Readers/Locks.antt =====
-- Who holds the tokens of the two semaphores, and what the array holds.
use sistemi_operativi.Prelude.{
  ℕ, ◌+◌, ◌*◌, ◌<◌, ◌≡◌, refl, sym, subst, Option, none, some, arith, sum_below, sum_below_zero,
  update, update_self, update_ne, ℕ_discrete,
}
use sistemi_operativi.Readers.{
  ProducerPc, p_wait_write, p_post_read, p_fill, ConsumerPc, c_wait_read, c_post_write, c_post_read,
  c_sum, Consumer, System, start,
}

abbrev pub writer : ProducerPc → ℕ
writer p_wait_write = 0
writer _ = 1

-- The tokens of `sem_read` that the producer has, of `n`.
abbrev pub filler : ℕ → ProducerPc → ℕ
filler n (p_fill i) = n
filler n p_post_read = n
filler n _ = 0

abbrev pub at_write : ConsumerPc → ℕ
at_write c_wait_read = 1
at_write c_post_write = 1
at_write _ = 0

abbrev pub at_read : ConsumerPc → ℕ
at_read c_post_write = 1
at_read (c_sum i value) = 1
at_read c_post_read = 1
at_read _ = 0

abbrev pub holds_write : Consumer → ℕ
holds_write c = at_write c.pc

abbrev pub holds_read : Consumer → ℕ
holds_read c = at_read c.pc

-- What a consumer has added up while every element is `d`.
abbrev pub SumOf : ℕ → ConsumerPc → Type 0
SumOf d (c_sum i value) = value ≡ i * d
SumOf d _ = Unit

-- All elements are the same.
abbrev pub Filled : ℕ → ℕ → (ℕ → ℕ) → Type 0
Filled size d v = (j : ℕ) → j < size → v j ≡ d

abbrev pub Content : ℕ → ProducerPc → (ℕ → ℕ) → ℕ → Type 0
Content size (p_fill i) v d = Filled i d v
Content size _ v d = (e : ℕ) × Filled size e v

pub record Inv (n size : ℕ) (s : System) : Type 0 where
  pub write : s.sem_write + writer s.producer + sum_below holds_write n s.consumers ≡ 1
  pub read : s.sem_read + filler n s.producer + sum_below holds_read n s.consumers ≡ n
  pub undo_write : (i : ℕ) → i < n → (s.consumers i).undo_write ≡ holds_write (s.consumers i)
  pub undo_read : (i : ℕ) → i < n → (s.consumers i).undo_read ≡ holds_read (s.consumers i)
  pub content : Content size s.producer s.v s.current_data
  pub sums : (d : ℕ) → Filled size d s.v → (i : ℕ) → i < n → SumOf d (s.consumers i).pc

-- The state behind a step, if there is one.
abbrev pub After : ℕ → ℕ → Option System → Type 0
After n size none = Unit
After n size (some t) = Inv n size t

pub start-Inv : (n size last : ℕ) → Inv n size (start n size last)
start-Inv n size last = record {
  write = omega (arith, sum_below_zero holds_write n (start n size last).consumers (λ i l. refl));
  read = omega (arith, sum_below_zero holds_read n (start n size last).consumers (λ i l. refl));
  undo_write = λ i l. refl;
  undo_read = λ i l. refl;
  content = (0, λ j l. refl);
  sums = λ d f i l. tt;
}

-- A property of all consumers, where one is changed.
pub update-All :
    (n : ℕ) (P : Consumer → Type 0) (f : ℕ → Consumer) (me : ℕ) (c : Consumer)
    → ((i : ℕ) → i < n → P (f i))
    → P c
    → (i : ℕ) → i < n
    → P (update f me c i)
update-All n P f me c h p i l = elim (ℕ_discrete me i) [
  | yes e ↦ subst (λ j. P (update f me c j)) e (subst P (sym (update_self f me c)) p)
  | no ne ↦ subst P (sym (update_ne f me i c ne)) (h i l)
]
