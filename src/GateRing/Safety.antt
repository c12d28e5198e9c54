-- ===== src/GateRing/Safety.antt =====
-- What holds of the programs over gates.
use sistemi_operativi.Prelude.{ℕ, ◌<◌, ◌≡◌, ◌≢◌, sym, ◌∙◌, Bool, some}
use sistemi_operativi.SlotRing.{c_broken, c_ended}
use sistemi_operativi.SlotRing.Steps.{running, over}
use sistemi_operativi.SlotRing
use sistemi_operativi.GateRing.Gates.{Gate, IsLawful}
use sistemi_operativi.GateRing.{System, Actor, step, Reach}
use sistemi_operativi.GateRing.Refine.{actor, ring, step-some}
use sistemi_operativi.GateRing.Runs.{Reach-Inv}

module _ (g : Gate) (law : IsLawful g) (size last : ℕ) where
  -- Until the consumer has ended, each step of the program over a lawful gate is the same step of the
  -- program with System V semaphores, where the semaphores count what the gates count.
  pub ring_refined :
      {threads : Bool} {content : ℕ → ℕ} {s t : System g} (a : Actor)
      → 0 < size
      → Reach g size last threads content s
      → s.consumer ≢ c_ended
      → step g size last threads a s ≡ some t
      → SlotRing.step size last (actor a) (ring g law s) ≡ some (ring g law t)
  ring_refined {threads} {content} {s} {t} a pos r ne e = elim (Reach-Inv g law size last pos r) [
    | running run m ↦ step-some g law size last threads s a run e
    | over ended ↦ absurd (ne ended)
  ]

  -- Over a lawful gate, in no reachable state has the consumer found a value other than the one that it
  -- expects, whatever the array holds at the start.
  gates_never_broken :
      {threads : Bool} {content : ℕ → ℕ} {s : System g}
      → 0 < size
      → Reach g size last threads content s
      → s.consumer ≢ c_broken
  gates_never_broken {threads} {content} {s} pos r e = elim (Reach-Inv g law size last pos r) [
    | running run m ↦ rw e at run.before
    | over ended ↦ let x = sym e ∙ ended in cc
  ]
