-- ===== src/GateRing.antt =====
-- The ring of slots without System V semaphores. It is written for the source
-- SO esempi/7_SYNCHRONIZATION/UNIX/semaphores/posix-unnamed-semaphore-producer-consumer.c, over whatever
-- the threads wait at, one gate for each slot. The other programs of the same shape (POSIX named
-- semaphores, mutexes, spin variables, WinAPI semaphores) give it another gate: the children Named,
-- Mutex, Spin and WinSemaphore.
pub mod Gates
pub mod Named
pub mod Mutex
pub mod Spin
pub mod WinSemaphore
pub mod Waits
pub mod Refine
pub mod Runs
pub mod Safety
mod Tests
use sistemi_operativi.Prelude.{
  ℕ, ◌+◌, ◌%◌, ◌≡◌, Bool, true, false, Option, none, some, update, if◌then◌else◌, ◌&&◌, not,
}
use sistemi_operativi.SlotRing.{
  ProducerPc, p_wait, p_write, p_post, ConsumerPc, c_wait, c_read, c_post, c_broken, c_ended, check,
}
use sistemi_operativi.GateRing.Gates.{Gate}

pub data Actor : Type 0 where
  run_producer run_consumer : Actor

module _ (g : Gate) where
  open g use {State, enter, leave, opened, closed}

  -- The gates of the slots, the array (a `long` is given by its 64 bits, so that -1 is 2 ^ 64 - 1), and
  -- the two threads.
  pub record System : Type 0 where
    pub sem_free_slot : ℕ → State
    pub sem_available_item : ℕ → State
    pub v : ℕ → ℕ
    pub producer : ProducerPc
    pub p_data : ℕ
    pub p_index : ℕ
    pub consumer : ConsumerPc
    pub c_data : ℕ
    pub c_index : ℕ

  -- `size` is SIZE and `last` is END.
  module _ (size last : ℕ) where
    -- `producer`, lines 31 to 42.
    pub producer_step : ProducerPc → System → Option System
    producer_step p_wait s = elim (enter (s.sem_free_slot s.p_index)) [
      | none ↦ none
      | some x ↦
          some (record s { sem_free_slot = update s.sem_free_slot s.p_index x; producer = p_write })
    ]
    producer_step p_write s =
        some (record s { v = update s.v s.p_index s.p_data; producer = p_post })
    producer_step p_post s = some (record s {
      sem_available_item =
          update s.sem_available_item s.p_index (leave (s.sem_available_item s.p_index));
      p_index = (s.p_index + 1) % size;
      p_data = s.p_data + 1;
      producer = p_wait;
    })

    -- `consumer`, lines 55 to 78.
    pub consumer_step : ConsumerPc → System → Option System
    consumer_step c_wait s = elim (enter (s.sem_available_item s.c_index)) [
      | none ↦ none
      | some x ↦ some (record s {
        sem_available_item = update s.sem_available_item s.c_index x;
        consumer = c_read;
      })
    ]
    consumer_step c_read s = some (record s { consumer = check size last (s.v s.c_index) s.c_data })
    consumer_step c_post s = some (record s {
      sem_free_slot = update s.sem_free_slot s.c_index (leave (s.sem_free_slot s.c_index));
      c_index = (s.c_index + 1) % size;
      c_data = s.c_data + 1;
      consumer = c_wait;
    })
    consumer_step c_broken s = none
    consumer_step c_ended s = none

    -- Whether the consumer has not called `exit`.
    pub alive : ConsumerPc → Bool
    alive c_wait = true
    alive c_read = true
    alive c_post = true
    alive c_broken = false
    alive c_ended = false

    -- A step of the program. Where the two are threads of one process (`threads`), the `exit` of the
    -- consumer ends the producer as well.
    pub step : Bool → Actor → System → Option System
    step threads run_producer s =
        if threads && not (alive s.consumer) then none else producer_step s.producer s
    step threads run_consumer s = consumer_step s.consumer s

  -- What `main` sets up, with the first content of the array: lines 87 to 120.
  abbrev pub start : (ℕ → ℕ) → System
  start content = record {
    sem_free_slot = λ _. opened;
    sem_available_item = λ _. closed;
    v = content;
    producer = p_wait;
    p_data = 0;
    p_index = 0;
    consumer = c_wait;
    c_data = 0;
    c_index = 0;
  }

  pub data Reach (size last : ℕ) (threads : Bool) (content : ℕ → ℕ) : System → Type 0 where
    here : Reach size last threads content (start content)
    next :
        {s t : System} (a : Actor)
        → Reach size last threads content s
        → step size last threads a s ≡ some t
        → Reach size last threads content t
