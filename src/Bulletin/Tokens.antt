-- ===== src/Bulletin/Tokens.antt =====
-- The tokens of exercise4(UNIX).c (Tutoraggio 11), and what its messages are.
use sistemi_operativi.Prelude.{
  ℕ, zero, suc, ◌+◌, ◌-◌, ◌≤◌, ◌<◌, ◌≡◌, List, [], ◌∷◌, ◌++◌, replicate, sum_below, sym, update,
  update_self, update_ne, ℕ_discrete, arith,
}
use sistemi_operativi.Bulletin.{
  Message, WriterPc, w_take, w_open, w_write, w_post, w_last, w_end, w_kill, ReaderPc, r_start,
  r_wait, r_print, r_post, r_barrier, r_killed, Reader, System, scan, later,
}

-- The reader is before `printf`.
abbrev pub at_print : ReaderPc → ℕ
at_print r_start = 0
at_print r_wait = 0
at_print r_print = 1
at_print r_post = 0
at_print r_barrier = 0
at_print r_killed = 0

-- It is before its semop on 0.
abbrev pub at_post : ReaderPc → ℕ
at_post r_start = 0
at_post r_wait = 0
at_post r_print = 0
at_post r_post = 1
at_post r_barrier = 0
at_post r_killed = 0

-- It has passed the barrier, and waits for semaphore 1.
abbrev pub at_wait : ReaderPc → ℕ
at_wait r_start = 0
at_wait r_wait = 1
at_wait r_print = 0
at_wait r_post = 0
at_wait r_barrier = 0
at_wait r_killed = 0

abbrev pub at_killed : ReaderPc → ℕ
at_killed r_start = 0
at_killed r_wait = 0
at_killed r_print = 0
at_killed r_post = 0
at_killed r_barrier = 0
at_killed r_killed = 1

pub at_killed-le : (pc : ReaderPc) → at_killed pc ≤ 1
at_killed-le r_start = omega arith
at_killed-le r_wait = omega arith
at_killed-le r_print = omega arith
at_killed-le r_post = omega arith
at_killed-le r_barrier = omega arith
at_killed-le r_killed = omega arith

abbrev pub prints : Reader → ℕ
prints c = at_print c.pc

abbrev pub posts : Reader → ℕ
posts c = at_post c.pc

abbrev pub waits : Reader → ℕ
waits c = at_wait c.pc

-- The tokens of semaphore 0 that the writer has, those that it has put on semaphore 2 and not yet on
-- semaphore 1, and the copies of a message that wait for its semop on 1.
module _ (n : ℕ) where
  abbrev pub has : WriterPc → ℕ
  has w_take = 0
  has w_open = n
  has w_write = n
  has w_post = n
  has w_last = 0
  has (w_kill k) = n
  has w_end = n

  abbrev pub ahead : WriterPc → ℕ
  ahead w_take = 0
  ahead w_open = 0
  ahead w_write = n
  ahead w_post = n
  ahead w_last = 0
  ahead (w_kill k) = 0
  ahead w_end = 0

  abbrev pub held_back : WriterPc → ℕ
  held_back w_take = 0
  held_back w_open = 0
  held_back w_write = 0
  held_back w_post = n
  held_back w_last = 0
  held_back (w_kill k) = 0
  held_back w_end = 0

-- Whether the writer has begun to kill the readers.
abbrev pub kills : WriterPc → ℕ
kills w_take = 0
kills w_open = 0
kills w_write = 0
kills w_post = 0
kills w_last = 0
kills (w_kill k) = 1
kills w_end = 1

-- The messages that are still to be written, with `main` at that `i`.
abbrev pub to_write : ℕ → WriterPc → ℕ → ℕ
to_write steps w_take i = steps - i
to_write steps w_open i = steps - i
to_write steps w_write i = steps - i
to_write steps w_post i = steps - (i + 1)
to_write steps w_last i = 0
to_write steps (w_kill k) i = 0
to_write steps w_end i = 0

abbrev pub InLoop : ℕ → WriterPc → ℕ → Type 0
InLoop steps w_take i = i < steps
InLoop steps w_open i = i < steps
InLoop steps w_write i = i < steps
InLoop steps w_post i = i < steps
InLoop steps w_last i = steps ≤ i
InLoop steps (w_kill k) i = steps ≤ i
InLoop steps w_end i = steps ≤ i

-- What `count` calls of `writer_function` write: the lines of the input, and behind its end the last
-- message again.
abbrev pub announced : ℕ → List Message → Message → List Message
announced zero input m = []
announced (suc count) input m = scan input m ∷ announced count (later input) (scan input m)

-- Each message as often as there are readers.
abbrev pub copies : ℕ → List Message → List Message
copies n [] = []
copies n (m ∷ ms) = replicate n m ++ copies n ms

-- The copies of the last message that are still to be printed.
abbrev pub missing : ℕ → System → ℕ
missing n s = s.sem1 + sum_below prints n s.readers + held_back n s.writer

pub record Inv (n steps : ℕ) (input : List Message) (s : System) : Type 0 where
  pub tokens :
      s.sem0 + s.sem1 + sum_below prints n s.readers + sum_below posts n s.readers + has n s.writer
      ≡ n
  pub gates : s.sem2 + sum_below waits n s.readers ≡ s.sem1 + ahead n s.writer
  pub spared : (j : ℕ) → j < n → at_killed (s.readers j).pc ≤ kills s.writer
  pub in_loop : InLoop steps s.writer s.i
  pub order :
      s.messages ++ announced (to_write steps s.writer s.i) s.input s.message
      ≡ announced steps input []
  pub shown : s.output ++ replicate (missing n s) s.message ≡ copies n s.messages

pub spared-update :
    (n : ℕ) (f : ℕ → Reader) (me : ℕ) (c : Reader) (k : ℕ)
    → ((j : ℕ) → j < n → at_killed (f j).pc ≤ k)
    → at_killed c.pc ≤ k
    → (j : ℕ) → j < n
    → at_killed (update f me c j).pc ≤ k
spared-update n f me c k h e j l = elim (ℕ_discrete me j) [
  | yes q ↦ rw (sym q, update_self f me c) e
  | no ne ↦ rw (update_ne f me j c ne) (h j l)
]
