-- ===== src/Echo/Receive.antt =====
-- The loop of `Readline` of helper.c (eServ1T_TCP) and the buffer it fills.
use sistemi_operativi.Prelude.{
  ℕ, zero, suc, ◌+◌, ◌-◌, ◌≤◌, ◌<◌, ◌≡◌, refl, sym, ap, ap₂, ◌≢◌, ◌∙◌, ◌⊎◌, inl, inr, Bool-cases,
  List, [], ◌∷◌, ◌++◌, length, take, drop, drop-append_add, subst, append_assoc, append-nil, arith,
  length-append, length-drop, if◌then◌else◌, ◌==◌, All, ==_ne,
}
use sistemi_operativi.Echo.{
  Read, byte, read_interrupted, read_failed, Line, closed, failed, line, read_loop, readline,
  buffer_after,
}

-- `read` does not fail.
abbrev pub Goes : Read → Type 0
Goes (byte c) = Unit
Goes read_interrupted = Unit
Goes read_failed = ⊥

-- The answers up to the first newline, which belongs to them.
abbrev pub until_newline : List Read → List Read
until_newline [] = []
until_newline (byte c ∷ reads) =
    let rest = until_newline reads in byte c ∷ (if c == 10 then [] else rest)
until_newline (read_interrupted ∷ reads) = read_interrupted ∷ until_newline reads
until_newline (read_failed ∷ reads) = read_failed ∷ until_newline reads

abbrev pub bytes_of : List Read → List ℕ
bytes_of [] = []
bytes_of (byte c ∷ reads) = c ∷ bytes_of reads
bytes_of (read_interrupted ∷ reads) = bytes_of reads
bytes_of (read_failed ∷ reads) = bytes_of reads

-- What `Readline` returns for the answers that it takes: one more than they are, unless a newline ends
-- them.
abbrev pub returned : List Read → ℕ
returned [] = 1
returned (byte c ∷ reads) = let rest = returned reads in if c == 10 then 1 else suc rest
returned (read_interrupted ∷ reads) = suc (returned reads)
returned (read_failed ∷ reads) = suc (returned reads)

read_loop-until_newline :
    (left n : ℕ) (reads : List Read) (stored : List ℕ)
    → All Goes (take left reads)
    → 0 < n
    → (1 < n) ⊎ (0 < length reads)
    → read_loop left n reads stored
      ≡ line
          (n + returned (until_newline (take left reads)) - 1)
          (stored ++ bytes_of (until_newline (take left reads)))
          (drop (length (until_newline (take left reads))) reads)
unfolding read_loop
read_loop-until_newline zero n reads stored g p h =
    ap₂ (λ m l. line m l reads) (omega arith) (sym (append-nil stored))
read_loop-until_newline (suc left) n [] stored g p h =
    let later : n ≢ 1 = λ e. absurd (omega (arith, h, e)) in
    rw (==_ne n 1 later) (ap₂ (λ m l. line m l []) (omega arith) (sym (append-nil stored)))
read_loop-until_newline (suc left) n (byte c ∷ reads) stored g p h = elim (Bool-cases (c == 10)) [
  | inl e ↦ rw (e) (ap (λ m. line m (stored ++ (c ∷ [])) reads) (omega arith))
  | inr e ↦
      rw
        (
          e,
          read_loop-until_newline left (n + 1) reads (stored ++ (c ∷ [])) g.1 (omega arith)
              (inl (omega arith)),
          append_assoc,
        )
        (ap
          (λ m.
            line m (stored ++ (c ∷ bytes_of (until_newline (take left reads))))
              (drop (length (until_newline (take left reads))) reads))
          (omega arith))
]
read_loop-until_newline (suc left) n (read_interrupted ∷ reads) stored g p h =
    rw (read_loop-until_newline left (n + 1) reads stored g.1 (omega arith) (inl (omega arith))) (
      ap
        (λ m.
          line m (stored ++ bytes_of (until_newline (take left reads)))
            (drop (length (until_newline (take left reads))) reads))
        (omega arith))
read_loop-until_newline (suc left) n (read_failed ∷ reads) stored g p h = absurd g.0

-- When `read` does not fail in the first `maxlen - 1` calls and something comes before the end of the
-- connection, `Readline` stores the bytes up to the first newline among the first `maxlen - 1` answers,
-- takes the answers up to it and leaves the others; it returns the number of answers taken when the last
-- of them is a newline, and otherwise one more, the interrupted reads counted in both cases.
pub readline_exact :
    (maxlen : ℕ) (reads : List Read)
    → All Goes (take (maxlen - 1) reads)
    → 0 < length reads
    → readline maxlen reads
      ≡ line
          (returned (until_newline (take (maxlen - 1) reads)))
          (bytes_of (until_newline (take (maxlen - 1) reads)))
          (drop (length (until_newline (take (maxlen - 1) reads))) reads)
unfolding readline
readline_exact maxlen reads g h =
    read_loop-until_newline (maxlen - 1) 1 reads [] g (omega arith) (inr h)
    ∙ ap
        (λ m.
          line m (bytes_of (until_newline (take (maxlen - 1) reads)))
            (drop (length (until_newline (take (maxlen - 1) reads))) reads))
        (omega arith)

abbrev stored_of : Line → List ℕ
stored_of (closed reads) = []
stored_of (failed stored reads) = stored
stored_of (line n stored reads) = stored

read_loop_bound :
    (left n : ℕ) (reads : List Read) (stored : List ℕ)
    → length (stored_of (read_loop left n reads stored)) ≤ length stored + left
unfolding read_loop
read_loop_bound zero n reads stored = omega arith
read_loop_bound (suc left) n [] stored = elim (Bool-cases (n == 1)) [
  | inl e ↦ rw (e) (omega arith)
  | inr e ↦ rw (e) (omega arith)
]
read_loop_bound (suc left) n (byte c ∷ reads) stored =
    let longer : length (stored ++ (c ∷ [])) ≡ length stored + 1 = length-append stored (c ∷ []) in
    elim (Bool-cases (c == 10)) [
      | inl e ↦ rw (e) (omega (arith, longer))
      | inr e ↦
          rw (e) (omega (arith, longer, read_loop_bound left (n + 1) reads (stored ++ (c ∷ []))))
    ]
read_loop_bound (suc left) n (read_interrupted ∷ reads) stored =
    omega (arith, read_loop_bound left (n + 1) reads stored)
read_loop_bound (suc left) n (read_failed ∷ reads) stored = omega arith

drop-nil : (n : ℕ) → drop {A = ℕ} n [] ≡ []
drop-nil zero = refl
drop-nil (suc n) = refl

drop-drop : (k m : ℕ) (b : List ℕ) → drop m (drop k b) ≡ drop (k + m) b
drop-drop zero m b = ap (λ n. drop n b) (omega arith)
drop-drop (suc k) m [] = drop-nil m ∙ sym (drop-nil (suc k + m))
drop-drop (suc k) m (x ∷ b) =
    let e : suc (k + m) ≡ suc k + m = omega arith in drop-drop k m b ∙ ap (λ n. drop n (x ∷ b)) e

-- The first bytes of a buffer written over.
overwritten :
    (p b : List ℕ) (n : ℕ)
    → length p ≤ n
    → n ≤ length b
    → (length (p ++ drop (length p) b) ≡ length b) × (drop n (p ++ drop (length p) b) ≡ drop n b)
overwritten p b n l l' =
    let e : length p + (n - length p) ≡ n = omega arith in
    (
      omega (arith, length-append p (drop (length p) b), length-drop (length p) b),
      subst (λ k. drop k (p ++ drop (length p) b) ≡ drop k b) e
          (drop-append_add p (drop (length p) b) (n - length p)
            ∙ drop-drop (length p) (n - length p) b),
    )

buffer_after-stored_of :
    (l : Line) (b : List ℕ) (n : ℕ)
    → length (stored_of l) < n
    → n ≤ length b
    → (length (buffer_after l b) ≡ length b) × (drop n (buffer_after l b) ≡ drop n b)
unfolding buffer_after
buffer_after-stored_of (closed reads) b n h h' = (refl, refl)
buffer_after-stored_of (failed stored reads) b n h h' = overwritten stored b n (omega arith) h'
buffer_after-stored_of (line m stored reads) b n h h' =
    let e : length (stored ++ (0 ∷ [])) ≡ length stored + 1 = length-append stored (0 ∷ []) in
    rw (sym (append_assoc stored (0 ∷ []) (drop (length stored + 1) b)), sym e)
      (overwritten (stored ++ (0 ∷ [])) b n (omega (arith, e)) h')

-- Whatever `read` answers, `Readline` with a `maxlen` that is positive and at most the size of the
-- buffer writes nothing behind the first `maxlen` bytes: the size and the bytes behind are the same.
pub readline_fits :
    (maxlen : ℕ) (reads : List Read) (buffer : List ℕ)
    → 0 < maxlen
    → maxlen ≤ length buffer
    → (length (buffer_after (readline maxlen reads) buffer) ≡ length buffer)
      × (drop maxlen (buffer_after (readline maxlen reads) buffer) ≡ drop maxlen buffer)
unfolding readline
readline_fits maxlen reads buffer p l =
    let bound : length (stored_of (read_loop (maxlen - 1) 1 reads [])) ≤ 0 + (maxlen - 1) =
      read_loop_bound (maxlen - 1) 1 reads [] in
    buffer_after-stored_of (readline maxlen reads) buffer maxlen (omega (arith, bound)) l
