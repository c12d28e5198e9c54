-- ===== src/Stripe/Grown.antt =====
-- The files of prog.c (exam of 19-9-2018) from one state to a later one: no step shortens them.
use sistemi_operativi.Prelude.{
  ℕ, zero, suc, ◌+◌, ◌%◌, ◌≡◌, refl, sym, ap, ap₂, ◌∙◌, none, some, List, [], ◌∷◌, ◌++◌,
  append_assoc, append-nil, arith, All, length, length-append, take, drop, take-append, drop-append,
  ◌⊎◌, inl, inr, update_self, update_ne, ℕ_discrete, ltb, Bool, true, false, ==_self, Option,
  if◌then◌else◌, ◌==◌,
}
use sistemi_operativi.Stripe.{
  num_chars, MainPc, waiting, filling, filled, ThreadPc, idle, writing, wrote, System, Actor,
  main_thread, thread, release, main_step, thread_step, step,
}
use sistemi_operativi.Stripe.Layout.{IsChunk, stripe}
use sistemi_operativi.Stripe.Moves.{acquire-none, acquire-some}

-- A file begins with that list.
abbrev pub Begins : List ℕ → List ℕ → Type 0
Begins p f = (r : List ℕ) × (f ≡ p ++ r)

pub Begins-trans : (a b c : List ℕ) → Begins a b → Begins b c → Begins a c
Begins-trans a b c (r, e) (q, f) = (r ++ q, f ∙ ap (λ l. l ++ q) e ∙ append_assoc a r q)

-- No step shortens a file.
abbrev pub Longer : System → System → Type 0
Longer s t = (j : ℕ) → Begins (s.files j) (t.files j)

abbrev pub Grown : System → Option System → Type 0
Grown s none = Unit
Grown s (some t) = Longer s t

same_files : (s : System) → Longer s s
same_files s j = ([], sym (append-nil (s.files j)))

if-Grown :
    (s : System) (b : Bool) (t u : Option System)
    → Grown s t
    → Grown s u
    → Grown s (if b then t else u)
if-Grown s true t u p q = p
if-Grown s false t u p q = q

zero-or : (k : ℕ) → (k ≡ 0) ⊎ ((m : ℕ) × (k ≡ suc m))
zero-or zero = inl refl
zero-or (suc k) = inr (k, refl)

main_step-Grown : (n : ℕ) (m : MainPc) (s : System) → Grown s (main_step n m s)
unfolding main_step release
main_step-Grown n waiting s = elim (zero-or (s.semaphores 0)) [
  | inl e ↦ rw (acquire-none 0 s e, Grown) tt
  | inr (k, e) ↦ rw (acquire-some 0 k s e, Grown) (same_files s)
]
main_step-Grown n (filling i) s = if-Grown s (ltb i num_chars) _ _ (same_files s) (same_files s)
main_step-Grown n filled s = same_files s

thread_step-Grown : (me : ℕ) (p : ThreadPc) (s : System) → Grown s (thread_step me p s)
unfolding thread_step release
thread_step-Grown me idle s = elim (zero-or (s.semaphores me)) [
  | inl e ↦ rw (acquire-none me s e, Grown) tt
  | inr (k, e) ↦ rw (acquire-some me k s e, Grown) (same_files s)
]
thread_step-Grown me writing s = λ j. elim (ℕ_discrete j me) [
  | yes e ↦ (s.the_buffer, rw (e, update_self s.files me (s.files me ++ s.the_buffer)) refl)
  | no ne ↦ ([], update_ne s.files me j _ (λ e. ne (sym e)) ∙ sym (append-nil (s.files j)))
]
thread_step-Grown me wrote s = same_files s

pub step-Grown : (n : ℕ) (a : Actor) (s : System) → Grown s (step n a s)
unfolding step
step-Grown n main_thread s = main_step-Grown n s.main s
step-Grown n (thread me) s =
    if-Grown s (ltb 0 me) _ _ (if-Grown s (ltb n me) _ _ tt (thread_step-Grown me (s.threads me) s))
      tt

pub All-behind : (cs ds : List (List ℕ)) → All IsChunk (cs ++ ds) → All IsChunk ds
All-behind [] ds a = a
All-behind (c ∷ cs) ds a = All-behind cs ds a.1

-- What is behind a chunk of equal length goes on where the whole goes on.
behind-chunk :
    (b : Bool) (c d x y r : List ℕ)
    → IsChunk c
    → IsChunk d
    → (if b then d else []) ++ y ≡ ((if b then c else []) ++ x) ++ r
    → y ≡ x ++ r
behind-chunk true c d x y r f g e =
    sym (drop-append num_chars d y g)
    ∙ ap (drop num_chars) (e ∙ append_assoc c x r)
    ∙ drop-append num_chars c (x ++ r) f
behind-chunk false c d x y r f g e = e

module _ (n : ℕ) where
  pub head-stripe :
      (turn : ℕ) (c : List ℕ) (cs : List (List ℕ))
      → stripe n turn (c ∷ cs) (turn + 1) ≡ c ++ stripe n ((turn + 1) % n) cs (turn + 1)
  head-stripe turn c cs = rw (==_self) refl

  -- The chunks that the handler has read are the first ones of those in the files.
  pub chunks-Begins :
      (cs chunks : List (List ℕ)) (turn : ℕ)
      → All IsChunk cs
      → All IsChunk chunks
      → ((j : ℕ) → Begins (stripe n turn cs j) (stripe n turn chunks j))
      → (ds : List (List ℕ)) × (chunks ≡ cs ++ ds)
  chunks-Begins [] chunks turn a b h = (chunks, refl)
  chunks-Begins (c ∷ cs) [] turn a b h =
      let (r, e) = h (turn + 1) in
      let e' = e ∙ ap (λ l. l ++ r) (head-stripe turn c cs) in
      let l = ap length e' in
      let l1 = length-append (c ++ stripe n ((turn + 1) % n) cs (turn + 1)) r in
      let l2 = length-append c (stripe n ((turn + 1) % n) cs (turn + 1)) in
      absurd (omega (arith, l, l1, l2, a.0))
  chunks-Begins (c ∷ cs) (d ∷ chunks) turn a b h =
      let (r, e) = h (turn + 1) in
      let e' =
        sym (head-stripe turn d chunks)
        ∙ e
        ∙ ap (λ l. l ++ r) (head-stripe turn c cs)
        ∙ append_assoc c _ r in
      let same : d ≡ c =
        sym (take-append num_chars d _ b.0)
        ∙ ap (take num_chars) e'
        ∙ take-append num_chars c _ a.0 in
      let (ds, q) =
        chunks-Begins cs chunks ((turn + 1) % n) a.1 b.1
          (λ j. let (r, e) = h j in (r, behind-chunk (turn + 1 == j) c d _ _ r a.0 b.0 e)) in
      (ds, ap₂ (λ x l. x ∷ l) same q)
