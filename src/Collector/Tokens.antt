-- ===== src/Collector/Tokens.antt =====
-- The one token of the processes of prog-B-solution.c (exam of 26-6-2018), as long as no child has exited
-- and the kernel can keep what there is to undo.
use sistemi_operativi.Prelude.{
  ℕ, ◌+◌, ◌≤◌, ◌<◌, ◌≡◌, ◌≢◌, ap, ◌∙◌, Option, none, some, [], ◌∷◌, ◌++◌, ◌⊎◌, update, update_self,
  update_ne, sum_below, ℕ_discrete,
}
use sistemi_operativi.Collector.{
  ChildPc, c_scan, c_wait, c_store, c_post, c_exited, ParentPc, p_wait, p_print, p_post, Child,
  System, exit,
}

-- The child may store its number.
abbrev pub stores : ChildPc → ℕ
stores c_scan = 0
stores c_wait = 0
stores c_store = 1
stores c_post = 0
stores c_exited = 0

-- It has stored it.
abbrev pub posts : ChildPc → ℕ
posts c_scan = 0
posts c_wait = 0
posts c_store = 0
posts c_post = 1
posts c_exited = 0

-- The parent has taken semaphore 0 and not posted semaphore 1.
abbrev pub has : ParentPc → ℕ
has p_wait = 0
has p_print = 1
has p_post = 1

abbrev pub prints : ParentPc → ℕ
prints p_wait = 0
prints p_print = 1
prints p_post = 0

abbrev pub child_stores : Child → ℕ
child_stores c = stores c.pc

abbrev pub child_posts : Child → ℕ
child_posts c = posts c.pc

-- The numbers stored and not yet in the file.
abbrev pub full : ℕ → System → ℕ
full n s = sum_below child_posts n s.children + s.sem0 + prints s.parent

abbrev pub Lags : ℕ → System → Type 0
Lags k s = ((k ≡ 0) × (s.printed ≡ s.sent)) ⊎ ((k ≡ 1) × (s.printed ++ (s.value ∷ []) ≡ s.sent))

-- No child has exited, and the parent can take semaphore 0 once more.
pub record Sound (limit n : ℕ) (s : System) : Type 0 where
  pub alive : (i : ℕ) → i < n → (s.children i).pc ≢ c_exited
  pub below : s.undo0 < limit

pub record Good (n : ℕ) (s : System) : Type 0 where
  pub token :
      s.sem1
        + s.sem0
        + has s.parent
        + sum_below child_stores n s.children
        + sum_below child_posts n s.children
      ≡ 1
  pub lags : Lags (full n s) s
  pub undone : s.undo1 + has s.parent ≤ s.undo0

-- After a step of a sound state: the state before it was sound, and what holds in it holds again.
abbrev pub Keeps : ℕ → ℕ → System → Option System → Type 0
Keeps limit n s none = Unit
Keeps limit n s (some t) = Sound limit n t → Sound limit n s × (Good n s → Good n t)

pub exit-Keeps :
    (limit n : ℕ) (me : ℕ) (s : System) (c : Child) → me < n → Keeps limit n s (some (exit me c s))
unfolding exit
exit-Keeps limit n me s c h sound =
    absurd (sound.alive me h (ap (λ c. c.pc) (update_self s.children me _)))

-- A child that goes on has not exited.
pub alive-update :
    (limit n : ℕ) (s : System) (me : ℕ) (c : Child)
    → ((s.children me).pc ≢ c_exited)
    → ((i : ℕ) → i < n → (update s.children me c i).pc ≢ c_exited)
    → (i : ℕ) → i < n
    → (s.children i).pc ≢ c_exited
alive-update limit n s me c a all i h e = elim (ℕ_discrete me i) [
  | yes q ↦ a (ap (λ k. (s.children k).pc) q ∙ e)
  | no ne ↦ all i h (ap (λ c. c.pc) (update_ne s.children me i c ne) ∙ e)
]
