-- ===== src/LockedRing.antt =====
-- SO esempi/7_SYNCHRONIZATION/UNIX/pthread-spinlocks-mutexes/pthread-mutex-producer-consumer.c: a ring with a
-- counter of its items, under one lock. The lock is a
-- gate, in this program the mutex of GateRing/Mutex. The other programs of the same shape give it
-- another gate: the children PthreadSpin, AsmSpin and BitSpin.
pub mod PthreadSpin
pub mod AsmSpin
pub mod BitSpin
pub mod Invariant
pub mod Steps
pub mod Runs
pub mod Safety
mod Tests
use sistemi_operativi.Prelude.{
  ℕ, ◌+◌, ◌-◌, ◌%◌, ◌≡◌, Bool, true, false, Option, none, some, update, if◌then◌else◌, ltb, ◌==◌,
}
use sistemi_operativi.GateRing.Gates.{Gate}

-- `producer`: before its lock, its test of `counter`, its write, the step of `counter`, its unlock.
pub data ProducerPc : Type 0 where
  p_lock p_test p_write p_count p_unlock : ProducerPc

-- `consumer`: before its lock, its test, its read and checks, the step of `counter`, its unlock, or
-- behind one of its two calls of `exit`.
pub data ConsumerPc : Type 0 where
  c_lock c_test c_read c_count c_unlock c_broken c_ended : ConsumerPc

pub data Actor : Type 0 where
  run_producer run_consumer : Actor

module _ (g : Gate) where
  open g use {State, enter, leave, opened}

  -- The globals (a `long` is given by its 64 bits) and the two threads.
  pub record System : Type 0 where
    pub global_lock : State
    pub v : ℕ → ℕ
    pub counter : ℕ
    pub producer : ProducerPc
    pub p_data : ℕ
    pub p_index : ℕ
    pub consumer : ConsumerPc
    pub c_data : ℕ
    pub c_index : ℕ

  -- `size` is SIZE and `last` is END.
  module _ (size last : ℕ) where
    -- `producer`, lines 26 to 39.
    unfoldable pub producer_step : ProducerPc → System → Option System
    producer_step p_lock s = elim (enter s.global_lock) [
      | none ↦ none
      | some x ↦ some (record s { global_lock = x; producer = p_test })
    ]
    producer_step p_test s =
        some (record s { producer = if ltb s.counter size then p_write else p_unlock })
    producer_step p_write s =
        some (record s { v = update s.v s.p_index s.p_data; producer = p_count })
    producer_step p_count s = some (record s {
      p_index = (s.p_index + 1) % size;
      p_data = s.p_data + 1;
      counter = s.counter + 1;
      producer = p_unlock;
    })
    producer_step p_unlock s =
        some (record s { global_lock = leave s.global_lock; producer = p_lock })

    -- What `consumer` does with the value that it has read.
    unfoldable pub check : ℕ → ℕ → ConsumerPc
    check value expected =
        if value == expected then if value == last then c_ended else c_count else c_broken

    -- `consumer`, lines 52 to 78.
    unfoldable pub consumer_step : ConsumerPc → System → Option System
    consumer_step c_lock s = elim (enter s.global_lock) [
      | none ↦ none
      | some x ↦ some (record s { global_lock = x; consumer = c_test })
    ]
    consumer_step c_test s =
        some (record s { consumer = if ltb 0 s.counter then c_read else c_unlock })
    consumer_step c_read s = some (record s { consumer = check (s.v s.c_index) s.c_data })
    consumer_step c_count s = some (record s {
      c_index = (s.c_index + 1) % size;
      c_data = s.c_data + 1;
      counter = s.counter - 1;
      consumer = c_unlock;
    })
    consumer_step c_unlock s =
        some (record s { global_lock = leave s.global_lock; consumer = c_lock })
    consumer_step c_broken s = none
    consumer_step c_ended s = none

    -- Whether `exit` has not been called.
    unfoldable pub alive : ConsumerPc → Bool
    alive c_broken = false
    alive c_ended = false
    alive c_lock = true
    alive c_test = true
    alive c_read = true
    alive c_count = true
    alive c_unlock = true

    unfoldable pub step : Actor → System → Option System
    step run_producer s = if alive s.consumer then producer_step s.producer s else none
    step run_consumer s = consumer_step s.consumer s

  -- The initial values of the globals, with what `main` or the declaration puts into `v`.
  abbrev pub start : (ℕ → ℕ) → System
  start v = record {
    global_lock = opened;
    v = v;
    counter = 0;
    producer = p_lock;
    p_data = 0;
    p_index = 0;
    consumer = c_lock;
    c_data = 0;
    c_index = 0;
  }

  pub data Reach (size last : ℕ) (v : ℕ → ℕ) : System → Type 0 where
    here : Reach size last v (start v)
    next :
        {s t : System} (a : Actor)
        → Reach size last v s
        → step size last a s ≡ some t
        → Reach size last v t
