-- ===== src/Relay/Refine.antt =====
-- The steps of prog-solution.c (exam of 7-9-2018) as moves of one-place channels.
use sistemi_operativi.Prelude.{
  ℕ, ◌<◌, ◌≡◌, sym, ap, ◌∙◌, subst, fun_ext, Option, none, some, List, update, update_self,
  update_ne, update_same, ℕ_discrete,
}
use sistemi_operativi.Relay.{Channel, System, with_channel}
use sistemi_operativi.Relay.Spec.{Place, Move, stay}
use sistemi_operativi.Relay.Channels.{Ok, place}

-- What a state stands for.
abbrev pub places : System → Place
places s = record { input = s.input; places = λ i. place (s.channels i); file = s.file }

pub record Inv (n : ℕ) (s : System) : Type 0 where
  pub oks : (i : ℕ) → i < n → Ok (s.channels i)

-- The state behind a step keeps the invariant, and the step is a move.
abbrev pub After : ℕ → System → Option System → Type 0
After n s none = Unit
After n s (some t) = Inv n t × Move n (places s) (places t)

pub update-oks :
    (n : ℕ) (channels : ℕ → Channel) (me : ℕ) (c : Channel)
    → ((i : ℕ) → i < n → Ok (channels i))
    → Ok c
    → (i : ℕ) → i < n
    → Ok (update channels me c i)
update-oks n channels me c oks ok i l = elim (ℕ_discrete me i) [
  | yes e ↦
      subst (λ j. Ok (update channels me c j)) e (subst Ok (sym (update_self channels me c)) ok)
  | no ne ↦ subst Ok (sym (update_ne channels me i c ne)) (oks i l)
]

pub place-update :
    (channels : ℕ → Channel) (me : ℕ) (c : Channel) (o : Option (List ℕ))
    → place c ≡ o
    → (λ i. place (update channels me c i)) ≡ update (λ i. place (channels i)) me o
place-update channels me c o e = fun_ext (λ i. at i)
  where
    at : (i : ℕ) → place (update channels me c i) ≡ update (λ j. place (channels j)) me o i
    at i = elim (ℕ_discrete me i) [
      | yes q ↦
          subst (λ j. place (update channels me c j) ≡ update (λ k. place (channels k)) me o j) q
            (ap place (update_self channels me c)
              ∙ e
              ∙ sym (update_self (λ k. place (channels k)) me o))
      | no ne ↦
          ap place (update_ne channels me i c ne)
          ∙ sym (update_ne (λ k. place (channels k)) me i o ne)
    ]

-- A change of one channel that leaves its place alone.
pub kept :
    (n : ℕ) (s : System) (me : ℕ) (c : Channel)
    → Inv n s
    → Ok c
    → place c ≡ place (s.channels me)
    → After n s (some (with_channel me c s))
kept n s me c inv ok e = (
  record { oks = update-oks n s.channels me c inv.oks ok },
  stay (
      ap (λ f. record { input = s.input; places = f; file = s.file })
        (sym (
          place-update s.channels me c (place (s.channels me)) e
          ∙ update_same (λ i. place (s.channels i)) me))),
)
