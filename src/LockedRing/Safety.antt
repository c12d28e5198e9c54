-- ===== src/LockedRing/Safety.antt =====
-- What holds in the reachable states of the ring with a counter.
use sistemi_operativi.Prelude.{ℕ, ◌+◌, ◌≤◌, ◌≡◌, ◌≢◌, arith, subst}
use sistemi_operativi.GateRing.Gates.{Gate, IsLawful}
use sistemi_operativi.LockedRing.{
  ConsumerPc, c_lock, c_test, c_read, c_count, c_unlock, c_broken, c_ended, System, Reach,
}
use sistemi_operativi.LockedRing.Invariant.{Before, Inv}
use sistemi_operativi.LockedRing.Runs.{Reach-Inv}

module _ (g : Gate) (law : IsLawful g) (size last : ℕ) where
  -- Over a lawful gate, in no reachable state has the consumer found a value other than the one that it
  -- expects, whatever the array holds at the start.
  pub locked_never_broken :
      {v : ℕ → ℕ} {s : System g} → Reach g size last v s → s.consumer ≢ c_broken
  locked_never_broken {v} {s} r e =
      subst (Before last s.c_data) e (Reach-Inv g law size last r).before

  -- Over a lawful gate, in every reachable state `counter` is the number of items produced less that of
  -- the items consumed, it is at most SIZE, and the consumer is not beyond END.
  counter_exact :
      {v : ℕ → ℕ} {s : System g}
      → Reach g size last v s
      → (s.counter + s.c_data ≡ s.p_data) × ((s.counter ≤ size) × (s.c_data ≤ last))
  counter_exact {v} {s} r =
      let inv : Inv g law size last s = Reach-Inv g law size last r in
      (inv.counted, (omega (arith, inv.room), before-le s.consumer inv.before))
    where
      before-le : {n : ℕ} (c : ConsumerPc) → Before last n c → n ≤ last
      before-le c_lock b = b
      before-le c_test b = b
      before-le c_read b = b
      before-le c_unlock b = b
      before-le c_count b = omega (arith, b)
      before-le c_broken b = absurd b
      before-le c_ended b = omega (arith, b)
