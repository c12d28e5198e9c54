-- ===== src/Collector.antt =====
-- Esami pratici/prova-pratica-26-6-2018/prog-B-solution.c: N children read integers and hand them, through
-- one shared integer and two System V semaphores with SEM_UNDO, to the parent, which writes them to a file
-- (`run`, `main`). The calls of the parent that a signal interrupts are repeated.
pub mod Tokens
pub mod Steps
pub mod Parent
pub mod Safety
pub mod Runaway
mod Tests
use sistemi_operativi.Prelude.{
  ℕ, zero, suc, ◌+◌, ◌-◌, ◌≡◌, Option, none, some, List, [], ◌∷◌, ◌++◌, ltb, update, flatten, map,
  drop, length, if◌then◌else◌,
}

-- What `scanf` meets: a number, or something that is none.
pub data Item : Type 0 where
  number : ℕ → Item
  junk : Item

-- `run`: before `scanf`, the wait for semaphore 1, the store, the post of semaphore 0; behind `exit`.
pub data ChildPc : Type 0 where
  c_scan c_wait c_store c_post c_exited : ChildPc

-- `main` in its loop: before the wait for semaphore 0, before `fprintf`, before the post of semaphore 1.
pub data ParentPc : Type 0 where
  p_wait p_print p_post : ParentPc

-- A child with the input that is left for it. The kernel keeps how often it has posted semaphore 0 and
-- taken semaphore 1, to undo it when the child exits.
pub record Child : Type 0 where
  pub val : ℕ
  pub pc : ChildPc
  pub undo0 : ℕ
  pub undo1 : ℕ
  pub input : List Item

-- The shared integer, the semaphores, the processes, what the kernel keeps for the parent (it has taken
-- semaphore 0 and posted semaphore 1), and the numbers that it has printed to the file; `sent` (which the
-- program does not keep) are the numbers stored.
pub record System : Type 0 where
  pub value : ℕ
  pub sem0 : ℕ
  pub sem1 : ℕ
  pub children : ℕ → Child
  pub parent : ParentPc
  pub undo0 : ℕ
  pub undo1 : ℕ
  pub printed : List ℕ
  pub sent : List ℕ

pub data Actor : Type 0 where
  run_parent : Actor
  run_child : ℕ → Actor

-- `exit` of a child: the kernel undoes its operations, down to 0 at most.
unfoldable pub exit : ℕ → Child → System → System
exit me c s = record s {
  sem0 = s.sem0 - c.undo0;
  sem1 = s.sem1 + c.undo1;
  children = update s.children me (record c { pc = c_exited });
}

-- `scanf` and the test of its result: a number, or the end of the input, which is not 0 and leaves `val`.
unfoldable pub scan : ℕ → List Item → Child → System → System
scan me [] c s = record s { children = update s.children me (record c { pc = c_wait }) }
scan me (number v ∷ later) c s = record s {
  children = update s.children me (record c { val = v; pc = c_wait; input = later });
}
scan me (junk ∷ later) c s = exit me c s

-- `semop` with `sem_op = -1` on a count.
unfoldable pub take_one : ℕ → (ℕ → System) → Option System
take_one zero after = none
take_one (suc k) after = some (after k)

module _ (limit : ℕ) where
  -- A step of `run`. `semop` fails with ERANGE when the kernel cannot keep one more operation to undo.
  unfoldable pub child_step : ℕ → ChildPc → Child → System → Option System
  child_step me c_scan c s = some (scan me c.input c s)
  child_step me c_wait c s = take_one s.sem1 (λ k.
      if ltb c.undo1 limit
      then record s {
        sem1 = k;
        children = update s.children me (record c { pc = c_store; undo1 = c.undo1 + 1 });
      }
      else exit me c s)
  child_step me c_store c s = some (record s {
    value = c.val;
    children = update s.children me (record c { pc = c_post });
    sent = s.sent ++ (c.val ∷ []);
  })
  child_step me c_post c s = some (
      if ltb c.undo0 limit
      then record s {
        sem0 = s.sem0 + 1;
        children = update s.children me (record c { pc = c_scan; undo0 = c.undo0 + 1 });
      }
      else exit me c s)
  child_step me c_exited c s = none

  -- A step of the loop of `main`, which goes on when `semop` fails with ERANGE.
  unfoldable pub parent_step : ParentPc → System → Option System
  parent_step p_wait s = take_one s.sem0 (λ k.
      if ltb s.undo0 limit
      then record s { sem0 = k; undo0 = s.undo0 + 1; parent = p_print }
      else record s { parent = p_print })
  parent_step p_print s = some (record s { printed = s.printed ++ (s.value ∷ []); parent = p_post })
  parent_step p_post s = some (
      if ltb s.undo1 limit
      then record s { sem1 = s.sem1 + 1; undo1 = s.undo1 + 1; parent = p_wait }
      else record s { parent = p_wait })

  -- A step of one of the processes with `n` children.
  unfoldable pub step : ℕ → Actor → System → Option System
  step n run_parent s = parent_step s.parent s
  step n (run_child me) s =
      if ltb me n then child_step me (s.children me).pc (s.children me) s else none

-- What `main` sets up; `inputs` is what the children read, and `first` what their `val` holds.
abbrev pub start : (ℕ → List Item) → ℕ → System
start inputs first = record {
  value = 0;
  sem0 = 0;
  sem1 = 1;
  children = λ i. record { val = first; pc = c_scan; undo0 = 0; undo1 = 0; input = inputs i };
  parent = p_wait;
  undo0 = 0;
  undo1 = 0;
  printed = [];
  sent = [];
}

-- The bytes of the file. `open` does not truncate it, so that the text of the numbers stands over the first
-- bytes of what it held, `old`; `shown` is the text that `fprintf` writes for a number.
abbrev pub content : (ℕ → List ℕ) → List ℕ → System → List ℕ
content shown old s = let text = flatten (map shown s.printed) in text ++ drop (length text) old

-- The states that a run can reach.
pub data Reach (limit n : ℕ) (inputs : ℕ → List Item) (first : ℕ) : System → Type 0 where
  here : Reach limit n inputs first (start inputs first)
  next :
      {s t : System} (a : Actor)
      → Reach limit n inputs first s
      → step limit n a s ≡ some t
      → Reach limit n inputs first t
