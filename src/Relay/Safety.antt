-- ===== src/Relay/Safety.antt =====
-- What prog-solution.c (exam of 7-9-2018) keeps of its promise.
use sistemi_operativi.Prelude.{
  ℕ, ◌+◌, ◌<◌, ◌≡◌, refl, sym, ◌∙◌, subst, Bool, some, none, List, [], ◌∷◌, ◌++◌, arith, ◌⊎◌, inl,
  inr, sum_below, sum_below_zero,
}
use sistemi_operativi.Prelude.Count.{count}
use sistemi_operativi.Relay.{System, Actor, step, Reach, here, next}
use sistemi_operativi.Relay.Spec.{Move, held, total, Move-total}
use sistemi_operativi.Relay.Channels.{Ok}
use sistemi_operativi.Relay.Refine.{places, After}
use sistemi_operativi.Relay.Runs.{step-After, Reach-Inv}

-- Each step of the two processes from a reachable state is a step of the one-place channels, or leaves
-- them alone.
pub relay_refined :
    {n : ℕ} {input : List (List ℕ)} {s t : System} (a : Actor)
    → Reach n input s
    → step n a s ≡ some t
    → Move n (places s) (places t)
relay_refined {n} {input} {s} {t} a r e = (subst (After n s) e (step-After n s a (Reach-Inv r))).1

-- In every reachable state and for every test on strings, those that pass it among the lines of the file,
-- the strings between the processes and the strings not yet read are as many as in the input.
relay_conserves :
    {n : ℕ} {input : List (List ℕ)} {s : System}
    → Reach n input s
    → (p : List ℕ → Bool)
    → count p s.input + sum_below (held p) n (places s).places + count p s.file ≡ count p input
unfolding count total
relay_conserves {n} {input} here p =
    omega (arith, sum_below_zero (held p) n (λ i. none) (λ i l. refl))
relay_conserves {n} {input} (next {s} {t} a r e) p =
    sym (Move-total p (relay_refined a r e)) ∙ relay_conserves r p

-- In every reachable state each thread of B has written the strings that its thread of A has read, in
-- their order, all of them or all but the last.
relay_in_order :
    {n : ℕ} {input : List (List ℕ)} {s : System} (i : ℕ)
    → Reach n input s
    → i < n
    → ((s.channels i).written ≡ (s.channels i).sent)
      ⊎ ((s.channels i).written ++ ((s.channels i).segment ∷ []) ≡ (s.channels i).sent)
relay_in_order {n} {input} {s} i r l =
    let ok : Ok (s.channels i) = (Reach-Inv r).oks i l in
    elim ok.lags [ inl p ↦ inl p.1 | inr p ↦ inr p.1 ]
