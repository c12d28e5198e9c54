-- ===== src/SlotRing.antt =====
-- SO esempi/7_SYNCHRONIZATION/UNIX/semaphores/semaphore-producer-consumer.c: a producer and a consumer
-- over a circular buffer in shared memory, with two arrays of System V semaphores, one semaphore of
-- each for every slot. A step is one system call or one access to the shared memory.
pub mod Slots
pub mod Invariant
pub mod Keeps
pub mod Steps
pub mod Safety
mod Copy
mod Tests
use sistemi_operativi.Prelude.{
  ℕ, zero, suc, ◌+◌, ◌%◌, Bool, true, false, Option, none, some, ◌≡◌, ◌==◌, if◌then◌else◌, update,
}

-- Where `producer` stands: before its first `semop`, its write, its second `semop`.
pub data ProducerPc : Type 0 where
  p_wait p_write p_post : ProducerPc

-- Where `consumer` stands: before its first `semop`, its read and checks, its second `semop`, or
-- after one of its two calls of `exit`.
pub data ConsumerPc : Type 0 where
  c_wait c_read c_post c_broken c_ended : ConsumerPc

-- Where `main` stands after the two forks: in `wait`, before each removal, before its `exit`.
pub data MainPc : Type 0 where
  m_wait m_remove_free m_remove_available m_done : MainPc

-- A set of semaphores: whether it still exists, and the counts.
pub record SemSet : Type 0 where
  pub exists : Bool
  pub count : ℕ → ℕ

pub record System : Type 0 where
  pub sem_free_slot : SemSet
  pub sem_available_item : SemSet
  pub v : ℕ → ℕ
  pub producer : ProducerPc
  pub p_data : ℕ
  pub p_index : ℕ
  pub consumer : ConsumerPc
  pub c_data : ℕ
  pub c_index : ℕ
  pub main : MainPc

pub data Actor : Type 0 where
  run_producer run_consumer run_main : Actor

-- `semop` with `sem_op = -1`: `none` while it waits. On a removed set it fails, and the program goes
-- on, since it does not look at the result.
abbrev pub down : ℕ → SemSet → Option SemSet
down i set =
    if set.exists
    then elim (set.count i) [
      | zero ↦ none
      | suc k ↦ some (record set { count = update set.count i k })
    ]
    else some set

-- `semop` with `sem_op = 1`.
abbrev pub up : ℕ → SemSet → SemSet
up i set = if set.exists then record set { count = update set.count i (set.count i + 1) } else set

-- `size` is SIZE and `last` is END.
module _ (size last : ℕ) where
  -- `producer`, lines 29 to 47.
  unfoldable pub producer_step : ProducerPc → System → Option System
  producer_step p_wait s = elim (down s.p_index s.sem_free_slot) [
    | none ↦ none
    | some set ↦ some (record s { sem_free_slot = set; producer = p_write })
  ]
  producer_step p_write s = some (record s { v = update s.v s.p_index s.p_data; producer = p_post })
  producer_step p_post s = some (record s {
    sem_available_item = up s.p_index s.sem_available_item;
    p_index = (s.p_index + 1) % size;
    p_data = s.p_data + 1;
    producer = p_wait;
  })

  -- What `consumer` does with the value that it has read.
  unfoldable pub check : ℕ → ℕ → ConsumerPc
  check value expected =
      if value == expected then if value == last then c_ended else c_post else c_broken

  -- `consumer`, lines 61 to 92.
  unfoldable pub consumer_step : ConsumerPc → System → Option System
  consumer_step c_wait s = elim (down s.c_index s.sem_available_item) [
    | none ↦ none
    | some set ↦ some (record s { sem_available_item = set; consumer = c_read })
  ]
  consumer_step c_read s = some (record s { consumer = check (s.v s.c_index) s.c_data })
  consumer_step c_post s = some (record s {
    sem_free_slot = up s.c_index s.sem_free_slot;
    c_index = (s.c_index + 1) % size;
    c_data = s.c_data + 1;
    consumer = c_wait;
  })
  consumer_step c_broken s = none
  consumer_step c_ended s = none

-- `wait(NULL)` returns when the consumer has exited; the producer never does.
wait_child : ConsumerPc → System → Option System
wait_child c_broken s = some (record s { main = m_remove_free })
wait_child c_ended s = some (record s { main = m_remove_free })
wait_child _ s = none

-- `main` from `wait` on, lines 155 to 160.
pub main_step : MainPc → System → Option System
main_step m_wait s = wait_child s.consumer s
main_step m_remove_free s = some (record s {
  sem_free_slot = record { exists = false; count = s.sem_free_slot.count };
  main = m_remove_available;
})
main_step m_remove_available s = some (record s {
  sem_available_item = record { exists = false; count = s.sem_available_item.count };
  main = m_done;
})
main_step m_done s = none

-- What `main` sets up before the forks, lines 96 to 131: every slot is free, no item is available,
-- and the mapping is zeroed.
abbrev pub start : System
start = record {
  sem_free_slot = record { exists = true; count = λ _. 1 };
  sem_available_item = record { exists = true; count = λ _. 0 };
  v = λ _. 0;
  producer = p_wait;
  p_data = 0;
  p_index = 0;
  consumer = c_wait;
  c_data = 0;
  c_index = 0;
  main = m_wait;
}

module _ (size last : ℕ) where
  unfoldable pub step : Actor → System → Option System
  step run_producer s = producer_step size last s.producer s
  step run_consumer s = consumer_step size last s.consumer s
  step run_main s = main_step s.main s

  pub data Reach : System → Type 0 where
    here : Reach start
    next : {s t : System} (a : Actor) → Reach s → step a s ≡ some t → Reach t

-- The constants of the program.
abbrev pub program_size : ℕ
program_size = 100

abbrev pub program_end : ℕ
program_end = 10_000_000
