-- ===== src/Relay/Runs.antt =====
-- All steps of prog-solution.c (exam of 7-9-2018), and its reachable states.
use sistemi_operativi.Prelude.{
  ℕ, zero, suc, ◌+◌, ◌<◌, ◌≡◌, refl, ap, subst, none, List, [], ◌∷◌, ◌++◌, arith, ltb, ltb→lt,
  Bool-cases, inl, inr,
}
use sistemi_operativi.Relay.{
  ParentPc, a_wait, a_scan, a_post, ChildPc, b_wait, b_write, b_post, System, Actor, parent_thread,
  child_thread, with_channel, wait_for, parent_step, child_step, at_work, step, Reach, here, next,
}
use sistemi_operativi.Relay.Spec.{deliver}
use sistemi_operativi.Relay.Channels.{
  parent_has, child_has, parent_full, child_full, full, Ok, some_if,
}
use sistemi_operativi.Relay.Refine.{Inv, After, update-oks, place-update}
use sistemi_operativi.Relay.Steps.{Lags-one, moved, scan-After, parent_full-le}

module _ (n : ℕ) (s : System) (me : ℕ) (l : me < n) (inv : Inv n s) where
  ok : Ok (s.channels me)
  ok = inv.oks me l

  wait_sd1 :
      (k : ℕ)
      → (s.channels me).sd1 ≡ k
      → (s.channels me).parent ≡ a_wait
      → After n s (
          wait_for k (λ j. with_channel me (record (s.channels me) { sd1 = j; parent = a_scan }) s))
  unfolding wait_for ok
  wait_sd1 zero q e = tt
  wait_sd1 (suc k) q e =
      moved n s me k (s.channels me).sd2 a_scan (s.channels me).child l inv
        (omega (arith, ok.token, q, ap parent_has e)) (omega (arith, ap parent_full e))

  wait_sd2 :
      (k : ℕ)
      → (s.channels me).sd2 ≡ k
      → (s.channels me).child ≡ b_wait
      → After n s (
          wait_for k (λ j. with_channel me (record (s.channels me) { sd2 = j; child = b_write }) s))
  unfolding wait_for ok
  wait_sd2 zero q e = tt
  wait_sd2 (suc k) q e =
      moved n s me (s.channels me).sd1 k (s.channels me).parent b_write l inv
        (omega (arith, ok.token, q, ap child_has e)) (omega (arith, q, ap child_full e))

  parent_After :
      (pc : ParentPc)
      → (s.channels me).parent ≡ pc
      → After n s (parent_step me pc (s.channels me) s)
  unfolding parent_step ok
  parent_After a_wait e = wait_sd1 (s.channels me).sd1 refl e
  parent_After a_scan e = scan-After n s me s.input l e refl inv
  parent_After a_post e =
      moved n s me (s.channels me).sd1 ((s.channels me).sd2 + 1) a_wait (s.channels me).child l inv
        (omega (arith, ok.token, ap parent_has e)) (omega (arith, ap parent_full e))

  child_After :
      (pc : ChildPc) → (s.channels me).child ≡ pc → After n s (child_step me pc (s.channels me) s)
  unfolding child_step ok
  child_After b_wait e = wait_sd2 (s.channels me).sd2 refl e
  child_After b_write e = (
    record {
      oks = update-oks n s.channels me _ inv.oks (record {
        token = omega (arith, ok.token, ap child_has e);
        lags = inl (empty, Lags-one (s.channels me).segment ok.lags one);
      });
    },
    deliver me (s.channels me).segment l (ap (λ k. some_if k (s.channels me).segment) one) (
        ap
          (λ g. record {
            input = s.input;
            places = g;
            file = s.file ++ ((s.channels me).segment ∷ []);
          })
          (place-update s.channels me _ none (ap (λ k. some_if k (s.channels me).segment) empty))),
  )
    where
      one : full (s.channels me) ≡ 1
      one =
          omega (
            arith,
            ok.token,
            ap child_has e,
            ap child_full e,
            parent_full-le (s.channels me).parent,
          )

      empty : parent_full (s.channels me).parent + (s.channels me).sd2 + 0 ≡ 0
      empty = omega (arith, ok.token, ap child_has e, parent_full-le (s.channels me).parent)
  child_After b_post e =
      moved n s me ((s.channels me).sd1 + 1) (s.channels me).sd2 (s.channels me).parent b_wait l inv
        (omega (arith, ok.token, ap child_has e)) (omega (arith, ap child_full e))

pub step-After : (n : ℕ) (s : System) (a : Actor) → Inv n s → After n s (step n a s)
unfolding step
step-After n s (parent_thread me) inv = elim (Bool-cases (ltb me n)) [
  | inr f ↦ rw f tt
  | inl f ↦ elim (Bool-cases (at_work s.status)) [
    | inl w ↦ rw (f, w) (parent_After n s me (ltb→lt me n f) inv (s.channels me).parent refl)
    | inr w ↦ rw (f, w) tt
  ]
]
step-After n s (child_thread me) inv = elim (Bool-cases (ltb me n)) [
  | inr f ↦ rw f tt
  | inl f ↦ rw f (child_After n s me (ltb→lt me n f) inv (s.channels me).child refl)
]

pub Reach-Inv : {n : ℕ} {input : List (List ℕ)} {s : System} → Reach n input s → Inv n s
Reach-Inv here = record {
  oks = λ i l. record { token = omega arith; lags = inl (omega arith, refl) };
}
Reach-Inv {n} (next {s} a r e) = (subst (After n s) e (step-After n s a (Reach-Inv r))).0
