-- ===== src/Readers.antt =====
-- SO esempi/7_SYNCHRONIZATION/UNIX/readers-writers-synchronization/readers-writers-syncronization.c, built
-- without SINGLE_LOCK: one process fills the array (`producer`), NUM_READERS processes add it up
-- (`consumer`), until the parent removes the semaphores.
pub mod Locks
pub mod Steps
pub mod Runs
pub mod Safety
pub mod Progress
mod Tests
use sistemi_operativi.Prelude.{
  ℕ, ◌+◌, ◌-◌, ◌≡◌, Option, none, some, ltb, leb, update, if◌then◌else◌,
}

-- `producer`: before the semop on `sem_write`, before the one on `sem_read`, before `v[i] = data`, before
-- the release of `sem_read`, before that of `sem_write`.
pub data ProducerPc : Type 0 where
  p_wait_write p_wait_read p_post_read p_post_write : ProducerPc
  p_fill : ℕ → ProducerPc

-- `consumer`: before each of its semops, in its loop with `my_index` and `value`, and behind `exit`.
pub data ConsumerPc : Type 0 where
  c_wait_write c_wait_read c_post_write c_post_read c_ended : ConsumerPc
  c_sum : ℕ → ℕ → ConsumerPc

-- A consumer with what the kernel adds to the semaphores when it exits (SEM_UNDO).
pub record Consumer : Type 0 where
  pub pc : ConsumerPc
  pub rounds : ℕ
  pub undo_write : ℕ
  pub undo_read : ℕ

pub record System : Type 0 where
  pub sem_write : ℕ
  pub sem_read : ℕ
  pub v : ℕ → ℕ
  pub producer : ProducerPc
  pub current_data : ℕ
  pub consumers : ℕ → Consumer

pub data Actor : Type 0 where
  run_producer : Actor
  run_consumer : ℕ → Actor

-- `readers` is NUM_READERS, `size` is SIZE and `last` is END.
module _ (readers size last : ℕ) where
  -- A step of `producer`, lines 34 to 61.
  pub producer_step : ProducerPc → System → Option System
  producer_step p_wait_write s =
      if leb 1 s.sem_write
      then some (record s { sem_write = s.sem_write - 1; producer = p_wait_read })
      else none
  producer_step p_wait_read s =
      if leb readers s.sem_read
      then some (record s { sem_read = s.sem_read - readers; producer = p_fill 0 })
      else none
  producer_step (p_fill i) s =
      if ltb i size
      then some (record s { v = update s.v i s.current_data; producer = p_fill (i + 1) })
      else some (record s { producer = p_post_read })
  producer_step p_post_read s =
      some (record s { sem_read = s.sem_read + readers; producer = p_post_write })
  producer_step p_post_write s = some (record s {
    sem_write = s.sem_write + 1;
    current_data = s.current_data + 1;
    producer = p_wait_write;
  })

  -- A step of `consumer`, lines 79 to 116, of process `me` in state `c`.
  pub consumer_step : ℕ → ConsumerPc → Consumer → System → Option System
  consumer_step me c_wait_write c s =
      if leb 1 s.sem_write
      then some (record s {
        sem_write = s.sem_write - 1;
        consumers = update s.consumers me (record {
          pc = c_wait_read;
          rounds = c.rounds + 1;
          undo_write = c.undo_write + 1;
          undo_read = c.undo_read;
        });
      })
      else none
  consumer_step me c_wait_read c s =
      if leb 1 s.sem_read
      then some (record s {
        sem_read = s.sem_read - 1;
        consumers = update s.consumers me (record {
          pc = c_post_write;
          rounds = c.rounds;
          undo_write = c.undo_write;
          undo_read = c.undo_read + 1;
        });
      })
      else none
  consumer_step me c_post_write c s = some (record s {
    sem_write = s.sem_write + 1;
    consumers = update s.consumers me (record {
      pc = c_sum 0 0;
      rounds = c.rounds;
      undo_write = c.undo_write - 1;
      undo_read = c.undo_read;
    });
  })
  consumer_step me (c_sum i value) c s =
      if ltb i size
      then some (record s {
        consumers = update s.consumers me (record {
          pc = c_sum (i + 1) (value + s.v i);
          rounds = c.rounds;
          undo_write = c.undo_write;
          undo_read = c.undo_read;
        });
      })
      else if leb last c.rounds
      then some (record s {
        sem_write = s.sem_write + c.undo_write;
        sem_read = s.sem_read + c.undo_read;
        consumers =
            update s.consumers me
              (record { pc = c_ended; rounds = c.rounds; undo_write = 0; undo_read = 0 });
      })
      else some (record s {
        consumers = update s.consumers me (record {
          pc = c_post_read;
          rounds = c.rounds;
          undo_write = c.undo_write;
          undo_read = c.undo_read;
        });
      })
  consumer_step me c_post_read c s = some (record s {
    sem_read = s.sem_read + 1;
    consumers = update s.consumers me (record {
      pc = c_wait_write;
      rounds = c.rounds;
      undo_write = c.undo_write;
      undo_read = c.undo_read - 1;
    });
  })
  consumer_step me c_ended c s = none

  pub step : Actor → System → Option System
  step run_producer s = producer_step s.producer s
  step (run_consumer me) s =
      if ltb me readers then consumer_step me (s.consumers me).pc (s.consumers me) s else none

  -- The processes when all of them have been created.
  abbrev pub start : System
  start = record {
    sem_write = 1;
    sem_read = readers;
    v = λ _. 0;
    producer = p_wait_write;
    current_data = 0;
    consumers = λ _. record { pc = c_wait_write; rounds = 0; undo_write = 0; undo_read = 0 };
  }

  -- The states that they can reach.
  pub data Reach : System → Type 0 where
    here : Reach start
    next : {s t : System} (a : Actor) → Reach s → step a s ≡ some t → Reach t
