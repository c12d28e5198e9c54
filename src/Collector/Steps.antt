-- ===== src/Collector/Steps.antt =====
-- The steps of `run` of prog-B-solution.c (exam of 26-6-2018) in sound states.
use sistemi_operativi.Prelude.{
  if◌then◌else◌, ℕ, zero, suc, ◌+◌, ◌≤◌, ◌<◌, ◌≡◌, ◌≢◌, refl, ap, some, List, [], ◌∷◌, ◌++◌, arith,
  inl, inr, update, sum_below, sum_below-update, le-sum_below, ltb, Bool-cases, subst,
}
use sistemi_operativi.Collector.{
  Item, number, junk, ChildPc, c_scan, c_wait, c_store, c_post, c_exited, ParentPc, p_wait, p_print,
  p_post, Child, System, exit, scan, take_one, child_step,
}
use sistemi_operativi.Collector.Tokens.{
  stores, posts, has, prints, child_stores, child_posts, full, Lags, Good, Keeps, exit-Keeps,
  alive-update,
}

-- Nothing that is stored is not yet in the file.
Lags-zero : (k : ℕ) (s : System) → Lags k s → k ≡ 0 → s.printed ≡ s.sent
Lags-zero k s (inl p) e = p.1
Lags-zero k s (inr p) e = absurd (omega (arith, p.0, e))

prints-has : (m : ParentPc) → prints m ≤ has m
prints-has p_wait = omega arith
prints-has p_print = omega arith
prints-has p_post = omega arith

module _ (limit n : ℕ) (s : System) where
  module _ (me : ℕ) (mine : me < n) where
    -- A child moves with the token, and the number stays.
    moved-Good :
        (c : Child) (sem0 sem1 : ℕ)
        → Good n s
        → sem1 + sem0 + stores c.pc + posts c.pc
          ≡ s.sem1 + s.sem0 + stores (s.children me).pc + posts (s.children me).pc
        → sem0 + posts c.pc ≡ s.sem0 + posts (s.children me).pc
        → Good n (record s { sem0 = sem0; sem1 = sem1; children = update s.children me c })
    moved-Good c sem0 sem1 good token same = record {
      token = omega (arith, good.token, token, w, p);
      lags = subst (λ k. Lags k s) (omega (arith, same, p)) good.lags;
      undone = good.undone;
    }
      where
        w :
            sum_below child_stores n (update s.children me c) + stores (s.children me).pc
            ≡ sum_below child_stores n s.children + stores c.pc
        w = sum_below-update child_stores n s.children me c mine

        p :
            sum_below child_posts n (update s.children me c) + posts (s.children me).pc
            ≡ sum_below child_posts n s.children + posts c.pc
        p = sum_below-update child_posts n s.children me c mine

    -- The step of a child that does not exit, as far as the other children are concerned.
    moved :
        (c : Child) (sem0 sem1 : ℕ)
        → (s.children me).pc ≢ c_exited
        → sem1 + sem0 + stores c.pc + posts c.pc
          ≡ s.sem1 + s.sem0 + stores (s.children me).pc + posts (s.children me).pc
        → sem0 + posts c.pc ≡ s.sem0 + posts (s.children me).pc
        → Keeps limit n s
            (some (record s { sem0 = sem0; sem1 = sem1; children = update s.children me c }))
    moved c sem0 sem1 a token same sound = (
      record { alive = alive-update limit n s me c a sound.alive; below = sound.below },
      (λ good. moved-Good c sem0 sem1 good token same),
    )

    scan-Keeps :
        (input : List Item)
        → (s.children me).pc ≡ c_scan
        → Keeps limit n s (some (scan me input (s.children me) s))
    unfolding scan
    scan-Keeps [] e =
        moved _ s.sem0 s.sem1 (λ q. absurd (cc)) (omega (arith, ap stores e, ap posts e))
          (omega (arith, ap posts e))
    scan-Keeps (number v ∷ later) e =
        moved _ s.sem0 s.sem1 (λ q. absurd (cc)) (omega (arith, ap stores e, ap posts e))
          (omega (arith, ap posts e))
    scan-Keeps (junk ∷ later) e = exit-Keeps limit n me s (s.children me) mine

    wait-Keeps :
        (k : ℕ)
        → (s.children me).pc ≡ c_wait
        → s.sem1 ≡ k
        → Keeps limit n s (
            take_one k (λ k.
              if ltb (s.children me).undo1 limit
              then record s {
                sem1 = k;
                children =
                    update s.children me
                      (record (s.children me) { pc = c_store; undo1 = (s.children me).undo1 + 1 });
              }
              else exit me (s.children me) s))
    unfolding take_one
    wait-Keeps zero e z = tt
    wait-Keeps (suc k) e z = elim (Bool-cases (ltb (s.children me).undo1 limit)) [
      | inl f ↦ rw (f) (
          moved _ s.sem0 k (λ q. absurd (cc)) (omega (arith, z, ap stores e, ap posts e))
            (omega (arith, ap posts e)))
      | inr f ↦ rw (f) (exit-Keeps limit n me s (s.children me) mine)
    ]

    store-Good :
        (c : Child)
        → (s.children me).pc ≡ c_store
        → c.pc ≡ c_post
        → Good n s
        → Good n (record s {
          value = c.val;
          children = update s.children me c;
          sent = s.sent ++ (c.val ∷ []);
        })
    store-Good c e e' good = record {
      token = omega (arith, good.token, w, p, ap stores e, ap posts e, ap stores e', ap posts e');
      lags = inr (
        omega (arith, good.token, le, p, ap stores e, ap posts e, ap posts e', empty),
        ap (λ l. l ++ (c.val ∷ [])) (Lags-zero (full n s) s good.lags empty),
      );
      undone = good.undone;
    }
      where
        w :
            sum_below child_stores n (update s.children me c) + stores (s.children me).pc
            ≡ sum_below child_stores n s.children + stores c.pc
        w = sum_below-update child_stores n s.children me c mine

        p :
            sum_below child_posts n (update s.children me c) + posts (s.children me).pc
            ≡ sum_below child_posts n s.children + posts c.pc
        p = sum_below-update child_posts n s.children me c mine

        le : stores (s.children me).pc ≤ sum_below child_stores n s.children
        le = le-sum_below child_stores n s.children me mine

        empty : full n s ≡ 0
        empty = omega (arith, good.token, le, ap stores e, prints-has s.parent)

    pub child_Keeps :
        (pc : ChildPc)
        → (s.children me).pc ≡ pc
        → Keeps limit n s (child_step limit me pc (s.children me) s)
    unfolding child_step
    child_Keeps c_scan e = scan-Keeps (s.children me).input e
    child_Keeps c_wait e = wait-Keeps s.sem1 e refl
    child_Keeps c_store e = λ sound. (
      record {
        alive = alive-update limit n s me _ (λ q. absurd (cc)) sound.alive;
        below = sound.below;
      },
      store-Good (record (s.children me) { pc = c_post }) e refl,
    )
    child_Keeps c_post e = elim (Bool-cases (ltb (s.children me).undo0 limit)) [
      | inl f ↦ rw (f) (
          moved _ (s.sem0 + 1) s.sem1 (λ q. absurd (cc)) (omega (arith, ap stores e, ap posts e))
            (omega (arith, ap posts e)))
      | inr f ↦ rw (f) (exit-Keeps limit n me s (s.children me) mine)
    ]
    child_Keeps c_exited e = tt
