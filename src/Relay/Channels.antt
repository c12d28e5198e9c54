-- ===== src/Relay/Channels.antt =====
-- The state of one pair of threads of prog-solution.c (exam of 7-9-2018).
use sistemi_operativi.Prelude.{ℕ, zero, suc, ◌+◌, ◌≡◌, Option, none, some, List, [], ◌∷◌, ◌++◌, ◌⊎◌}
use sistemi_operativi.Relay.{
  ParentPc, a_wait, a_scan, a_post, ChildPc, b_wait, b_write, b_post, Channel,
}

-- Who has the segment: `parent_worker` (with a string in it at the end), or `child_worker` (with a string
-- in it at the start).
abbrev pub parent_has : ParentPc → ℕ
parent_has a_wait = 0
parent_has a_scan = 1
parent_has a_post = 1

abbrev pub child_has : ChildPc → ℕ
child_has b_wait = 0
child_has b_write = 1
child_has b_post = 1

abbrev pub parent_full : ParentPc → ℕ
parent_full a_post = 1
parent_full _ = 0

abbrev pub child_full : ChildPc → ℕ
child_full b_write = 1
child_full _ = 0

-- Whether the segment holds a string that is not yet in the file.
abbrev pub full : Channel → ℕ
full c = parent_full c.parent + c.sd2 + child_full c.child

abbrev pub Lags : ℕ → List (List ℕ) → List ℕ → List (List ℕ) → Type 0
Lags late written segment sent =
    ((late ≡ 0) × (written ≡ sent)) ⊎ ((late ≡ 1) × (written ++ (segment ∷ []) ≡ sent))

-- One token goes round, and the file lacks at most the string in the segment.
pub record Ok (c : Channel) : Type 0 where
  pub token : c.sd1 + parent_has c.parent + c.sd2 + child_has c.child ≡ 1
  pub lags : Lags (full c) c.written c.segment c.sent

abbrev pub some_if : ℕ → List ℕ → Option (List ℕ)
some_if zero segment = none
some_if (suc k) segment = some segment

-- The place that a pair of threads stands for.
abbrev pub place : Channel → Option (List ℕ)
place c = some_if (full c) c.segment
