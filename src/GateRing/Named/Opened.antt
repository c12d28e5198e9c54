-- ===== src/GateRing/Named/Opened.antt =====
-- What `main` of posix-named-semaphore-producer-consumer.c sets up, name by name.
use sistemi_operativi.Prelude.{
  ℕ, zero, suc, ◌+◌, ◌≤◌, ◌<◌, ◌≡◌, ◌≢◌, refl, ap, ◌∙◌, subst, false, none, some, arith, update,
  update_self, update_ne, ==_ne, ℕ_discrete,
}
use sistemi_operativi.GateRing.Named.{
  Name, slot, item, Names, sem_open, same_name, sem_unlink, open_all, start,
}

-- The count that a semaphore with this name has, or the one that it is created with.
open_all-below :
    (name : ℕ → Name) (value n i : ℕ) (names : Names) (sems : ℕ → ℕ) (j : ℕ)
    → j < i
    → (open_all name value n i names sems).1 j ≡ sems j
unfolding open_all
open_all-below name value zero i names sems j l = refl
open_all-below name value (suc n) i names sems j l =
    open_all-below name value n (i + 1) (sem_unlink (name i) names)
      (update sems i (sem_open names (name i) value)) j (omega arith)
    ∙ update_ne sems i j (sem_open names (name i) value) (omega arith)

sem_open-unlink :
    (names : Names) (a b : Name) (value : ℕ)
    → same_name a b ≡ false
    → sem_open (sem_unlink a names) b value ≡ sem_open names b value
unfolding sem_open sem_unlink
sem_open-unlink names a b value e = rw (e, sem_unlink, sem_open) refl

open_all-get :
    (name : ℕ → Name) (value n i : ℕ) (names : Names) (sems : ℕ → ℕ) (j : ℕ)
    → ((k m : ℕ) → k ≢ m → same_name (name k) (name m) ≡ false)
    → i ≤ j
    → j < i + n
    → (open_all name value n i names sems).1 j ≡ sem_open names (name j) value
unfolding open_all
open_all-get name value zero i names sems j d l h = absurd (omega (arith, l, h))
open_all-get name value (suc n) i names sems j d l h = elim (ℕ_discrete i j) [
  | yes e ↦
      open_all-below name value n (i + 1) (sem_unlink (name i) names)
        (update sems i (sem_open names (name i) value)) j (omega (arith, e))
      ∙ subst (λ k. update sems i (sem_open names (name i) value) k ≡ sem_open names (name k) value)
          e (update_self sems i (sem_open names (name i) value))
  | no ne ↦
      open_all-get name value n (i + 1) (sem_unlink (name i) names)
        (update sems i (sem_open names (name i) value)) j d (omega (arith, l, ne))
        (omega (arith, h))
      ∙ sem_open-unlink names (name i) (name j) value (d i j ne)
]

open_all-names :
    (name : ℕ → Name) (value n i : ℕ) (names : Names) (sems : ℕ → ℕ) (other : Name)
    → ((k : ℕ) → same_name (name k) other ≡ false)
    → (open_all name value n i names sems).0 other ≡ names other
unfolding open_all sem_unlink
open_all-names name value zero i names sems other d = refl
open_all-names name value (suc n) i names sems other d =
    open_all-names name value n (i + 1) (sem_unlink (name i) names)
      (update sems i (sem_open names (name i) value)) other d
    ∙ unlinked (name i) (d i)
  where
    unlinked : (a : Name) → same_name a other ≡ false → sem_unlink a names other ≡ names other
    unlinked a e = rw (e, sem_unlink) refl

slots_differ : (k m : ℕ) → k ≢ m → same_name (slot k) (slot m) ≡ false
unfolding same_name
slots_differ k m ne = ==_ne k m ne

items_differ : (k m : ℕ) → k ≢ m → same_name (item k) (item m) ≡ false
unfolding same_name
items_differ k m ne = ==_ne k m ne

slot_item : (m k : ℕ) → same_name (slot k) (item m) ≡ false
unfolding same_name
slot_item m k = refl

-- Behind the set-up each semaphore counts what the semaphore of its name counted before the run, where
-- there was one, and 1 for a slot and 0 for an item where there was none.
pub start_counts :
    (size : ℕ) (names : Names) (i : ℕ)
    → i < size
    → ((start size names).sem_free_slot i ≡ sem_open names (slot i) 1)
      × ((start size names).sem_available_item i ≡ sem_open names (item i) 0)
unfolding start sem_open
start_counts size names i l = (
  open_all-get slot 1 size 0 names (λ _. 1) i slots_differ (omega arith) (omega (arith, l)),
  open_all-get item 0 size 0 (open_all slot 1 size 0 names (λ _. 1)).0 (λ _. 0) i items_differ
        (omega arith) (omega (arith, l))
      ∙ ap (λ o. elim o [ none ↦ 0 | some count ↦ count ])
          (open_all-names slot 1 size 0 names (λ _. 1) (item i) (slot_item i)),
)
