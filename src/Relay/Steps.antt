-- ===== src/Relay/Steps.antt =====
-- The steps of `parent_worker` and `child_worker` of prog-solution.c (exam of 7-9-2018), one by one.
use sistemi_operativi.Prelude.{
  ℕ, ◌+◌, ◌≤◌, ◌<◌, ◌≡◌, refl, sym, ap, subst, some, List, [], ◌∷◌, ◌++◌, arith, length, ltb,
  Bool-cases, inl, inr,
}
use sistemi_operativi.Relay.{
  segment_size, ParentPc, a_wait, a_scan, a_post, ChildPc, b_wait, b_write, b_post, System,
  with_channel, scan,
}
use sistemi_operativi.Relay.Spec.{stay, accept}
use sistemi_operativi.Relay.Channels.{
  parent_has, child_has, parent_full, child_full, full, Lags, Ok, some_if,
}
use sistemi_operativi.Relay.Refine.{Inv, After, update-oks, place-update, kept}

child_full-le : (pc : ChildPc) → child_full pc ≤ child_has pc
child_full-le b_wait = omega arith
child_full-le b_write = omega arith
child_full-le b_post = omega arith

pub parent_full-le : (pc : ParentPc) → parent_full pc ≤ parent_has pc
parent_full-le a_wait = omega arith
parent_full-le a_scan = omega arith
parent_full-le a_post = omega arith

-- The file of a channel that is not full has all strings, and of one that is full all but one.
pub Lags-zero :
    {late : ℕ} {written sent : List (List ℕ)} (segment : List ℕ)
    → Lags late written segment sent
    → late ≡ 0
    → written ≡ sent
Lags-zero segment (inl p) z = p.1
Lags-zero segment (inr p) z = absurd (omega (arith, p.0, z))

pub Lags-one :
    {late : ℕ} {written sent : List (List ℕ)} (segment : List ℕ)
    → Lags late written segment sent
    → late ≡ 1
    → written ++ (segment ∷ []) ≡ sent
Lags-one segment (inl p) z = absurd (omega (arith, p.0, z))
Lags-one segment (inr p) z = p.1

-- A channel in which the token moves and the strings stay.
pub moved :
    (n : ℕ) (s : System) (me : ℕ) (sd1 sd2 : ℕ) (parent : ParentPc) (child : ChildPc)
    → me < n
    → Inv n s
    → sd1 + parent_has parent + sd2 + child_has child ≡ 1
    → parent_full parent + sd2 + child_full child ≡ full (s.channels me)
    → After n s (
        some (
          with_channel me
            (record (s.channels me) { sd1 = sd1; sd2 = sd2; parent = parent; child = child })
            s))
moved n s me sd1 sd2 parent child l inv token same =
    kept n s me (record (s.channels me) { sd1 = sd1; sd2 = sd2; parent = parent; child = child })
      inv
      (record {
        token = token;
        lags =
            subst (λ k. Lags k (s.channels me).written (s.channels me).segment (s.channels me).sent)
              (sym same) (inv.oks me l).lags;
      })
      (ap (λ k. some_if k (s.channels me).segment) same)

pub scan-After :
    (n : ℕ) (s : System) (me : ℕ) (input : List (List ℕ))
    → me < n
    → (s.channels me).parent ≡ a_scan
    → s.input ≡ input
    → Inv n s
    → After n s (some (scan me (s.channels me) input s))
unfolding scan
scan-After n s me [] l e i inv = (record { oks = inv.oks }, stay refl)
scan-After n s me (word ∷ later) l e i inv = elim (Bool-cases (ltb (length word) segment_size)) [
  | inr f ↦ rw f (record { oks = inv.oks }, stay refl)
  | inl f ↦ rw f (
    record {
      oks = update-oks n s.channels me _ inv.oks (record {
        token = omega (arith, ok.token, ap parent_has e);
        lags =
            inr (one, ap (λ w. w ++ (word ∷ [])) (Lags-zero (s.channels me).segment ok.lags empty));
      });
    },
    accept me word later l (ap (λ k. some_if k (s.channels me).segment) empty) i (
        ap (λ g. record { input = later; places = g; file = s.file })
          (place-update s.channels me _ (some word) (ap (λ k. some_if k word) one))),
  )
]
  where
    ok : Ok (s.channels me)
    ok = inv.oks me l

    empty : full (s.channels me) ≡ 0
    empty =
        omega
          (arith, ok.token, ap parent_has e, ap parent_full e, child_full-le (s.channels me).child)

    one : 1 + (s.channels me).sd2 + child_full (s.channels me).child ≡ 1
    one = omega (arith, ok.token, ap parent_has e, child_full-le (s.channels me).child)
