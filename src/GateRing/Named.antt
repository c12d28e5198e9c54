-- ===== src/GateRing/Named.antt =====
-- SO esempi/7_SYNCHRONIZATION/UNIX/semaphores/posix-named-semaphore-producer-consumer.c: the ring with POSIX
-- semaphores that are opened by name.
pub mod Opened
use sistemi_operativi.Prelude.{
  ℕ, zero, suc, ◌+◌, Bool, false, Option, none, some, update, ◌==◌, if◌then◌else◌,
}
use sistemi_operativi.SlotRing.{ProducerPc, ConsumerPc}
use sistemi_operativi.GateRing.Gates.{semaphore}
use sistemi_operativi.GateRing

-- What `sprintf` with "slot%d" and "item%d" writes, one name for each number.
pub data Name : Type 0 where
  slot item : ℕ → Name

-- The counts of the semaphores that have a name in the system.
abbrev pub Names : Type 0
Names = Name → Option ℕ

-- `sem_open` with O_CREAT: a semaphore that is there already is taken as it is.
pub sem_open : Names → Name → ℕ → ℕ
sem_open names name value = elim (names name) [ none ↦ value | some count ↦ count ]

pub same_name : Name → Name → Bool
same_name (slot i) (slot j) = i == j
same_name (item i) (item j) = i == j
same_name (slot i) (item j) = false
same_name (item i) (slot j) = false

pub sem_unlink : Name → Names → Names
sem_unlink name names other = if same_name name other then none else names other

-- The loop of `main` that opens a semaphore for each index from `i` on and takes its name away.
pub open_all : (ℕ → Name) → ℕ → ℕ → ℕ → Names → (ℕ → ℕ) → Names × (ℕ → ℕ)
open_all name value zero i names sems = (names, sems)
open_all name value (suc n) i names sems =
    open_all name value n (i + 1) (sem_unlink (name i) names)
      (update sems i (sem_open names (name i) value))

abbrev pub System : Type 0
System = GateRing.System semaphore

-- `producer` and `consumer` of that file.
abbrev pub producer_step : ℕ → ℕ → ProducerPc → System → Option System
producer_step size last = GateRing.producer_step semaphore size last

abbrev pub consumer_step : ℕ → ℕ → ConsumerPc → System → Option System
consumer_step size last = GateRing.consumer_step semaphore size last

-- `main` up to the forks. Entries behind the end of the arrays are of no use.
pub start : ℕ → Names → System
start size names =
    let (later, free_slot) = open_all slot 1 size 0 names (λ _. 1) in
    let (rest, available_item) = open_all item 0 size 0 later (λ _. 0) in
    record (GateRing.start semaphore (λ _. 0)) {
      sem_free_slot = free_slot;
      sem_available_item = available_item;
    }
