-- ===== src/Segments/Replay.antt =====
-- The walk of `handler` of prog-A-solution.c (exam of 18-7-2018) over the segments.
use sistemi_operativi.Prelude.{
  ℕ, zero, suc, ◌+◌, ◌-◌, ◌≤◌, ◌<◌, ◌≡◌, refl, sym, ap, ◌∙◌, subst, some, List, [], ◌∷◌, ◌++◌,
  append_assoc, All, arith, length, drop, length-append, drop-append, Option-cases, inl, inr,
}
use sistemi_operativi.Prelude.Text.{c_string, c_string-append}
use sistemi_operativi.Segments.{
  fscanf, Run, child_function, segment, segment_size, lines, print_before, show, handler,
}
use sistemi_operativi.Segments.Scan.{words, IsText, IsWord, Scanned, fscanf-Scanned}
use sistemi_operativi.Segments.Store.{encode, zeros, Stored, child_loop-Stored}

words-All : (k : ℕ) (bytes : List ℕ) → IsText bytes → All IsWord (words k bytes)
unfolding words
words-All zero bytes t = tt
words-All (suc k) bytes t = elim (Option-cases (fscanf bytes)) [
  | inl e ↦ rw (e, words) tt
  | inr ((w, rest), e) ↦
      let s : Scanned bytes w rest = fscanf-Scanned bytes t e in
      subst (All IsWord) (sym (taken e)) (s.word, words-All k rest s.text)
]
  where
    taken :
        {w rest : List ℕ} → fscanf bytes ≡ some (w, rest) → words (suc k) bytes ≡ w ∷ words k rest
    taken e = rw (e, words) refl

length-le-encode : (ws : List (List ℕ)) → length ws ≤ length (encode ws)
length-le-encode [] = omega arith
length-le-encode (w ∷ ws) = omega (arith, length-append w (0 ∷ encode ws), length-le-encode ws)

show-suc_nil :
    (fuel : ℕ) (memory : List ℕ) → c_string memory ≡ some [] → show (suc fuel) memory ≡ lines []
unfolding show
show-suc_nil fuel memory e = rw (e, show) refl

show-suc :
    (fuel : ℕ) (memory rest : List ℕ) (b : ℕ) (s : List ℕ)
    → c_string memory ≡ some (b ∷ s)
    → drop (length (b ∷ s) + 1) memory ≡ rest
    → show (suc fuel) memory ≡ print_before ((b ∷ s) ∷ []) (show fuel rest)
unfolding show
show-suc fuel memory rest b s e d =
    rw (e, show) (ap (λ m. print_before ((b ∷ s) ∷ []) (show fuel m)) d)

-- The walk over stored words ends at the first zero behind them.
show-encode :
    (fuel : ℕ) (ws : List (List ℕ)) (n : ℕ)
    → All IsWord ws
    → length ws < fuel
    → 0 < n
    → show fuel (encode ws ++ zeros n) ≡ lines ws
show-encode zero ws n a l p = absurd (omega arith)
show-encode (suc fuel) [] zero a l p = absurd (omega arith)
show-encode (suc fuel) [] (suc n) a l p =
    show-suc_nil fuel (zeros (suc n)) (c_string-append [] (zeros n) tt)
show-encode (suc fuel) ([] ∷ ws) n a l p = absurd a.0
show-encode (suc fuel) ((b ∷ w) ∷ ws) n a l p =
    show-suc fuel (encode ((b ∷ w) ∷ ws) ++ zeros n) (encode ws ++ zeros n) b w read skipped
    ∙ ap (print_before ((b ∷ w) ∷ [])) (show-encode fuel ws n a.1 (omega arith) p)
  where
    read : c_string (encode ((b ∷ w) ∷ ws) ++ zeros n) ≡ some (b ∷ w)
    read =
        ap c_string (append_assoc (b ∷ w) (0 ∷ encode ws) (zeros n)) ∙ c_string-append (b ∷ w) _ a.0

    skipped : drop (length (b ∷ w) + 1) (encode ((b ∷ w) ∷ ws) ++ zeros n) ≡ encode ws ++ zeros n
    skipped =
        ap (drop (length (b ∷ w) + 1)) (
          append_assoc (b ∷ w) (0 ∷ encode ws) (zeros n)
          ∙ sym (append_assoc (b ∷ w) (0 ∷ []) (encode ws ++ zeros n)))
        ∙ drop-append (length (b ∷ w) + 1) ((b ∷ w) ++ (0 ∷ [])) (encode ws ++ zeros n)
            (length-append (b ∷ w) (0 ∷ []))

-- The words of a file, each with its NUL, leave a byte of the segment.
abbrev pub Fits : ℕ → List ℕ → Type 0
Fits k bytes = IsText bytes × (length (encode (words k bytes)) < segment_size)

pub child_function-Stored :
    (k : ℕ) (bytes : List ℕ)
    → Fits k bytes
    → Stored
        (child_function k (some bytes))
        (words k bytes)
        (segment_size - length (encode (words k bytes)))
        (length bytes < k)
unfolding child_function
child_function-Stored k bytes f =
    child_loop-Stored k (record { unread = bytes; memory = zeros segment_size; offset = 0 }) []
      segment_size f.0 refl refl (omega (arith, f.1))

segment-Stored :
    {r : Run} {ws : List (List ℕ)} {n : ℕ} {P : Type 0}
    → Stored r ws n P
    → segment r ≡ encode ws ++ zeros n
segment-Stored s = elim s.at [ inl e ↦ ap segment e ∙ s.memory | inr e ↦ ap segment e ∙ s.memory ]

child_show :
    (k : ℕ) (bytes : List ℕ)
    → Fits k bytes
    → show segment_size (segment (child_function k (some bytes))) ≡ lines (words k bytes)
child_show k bytes f =
    ap (show segment_size) (segment-Stored (child_function-Stored k bytes f))
    ∙ show-encode segment_size (words k bytes) _ (words-All k bytes f.0)
        (omega (arith, f.1, length-le-encode (words k bytes))) (omega (arith, f.1))

-- Children at some rounds, each with its file.
abbrev pub segments : List (ℕ × List ℕ) → List (List ℕ)
segments [] = []
segments ((k, bytes) ∷ children) = segment (child_function k (some bytes)) ∷ segments children

abbrev pub words_of : List (ℕ × List ℕ) → List (List ℕ)
words_of [] = []
words_of ((k, bytes) ∷ children) = words k bytes ++ words_of children

abbrev pub AllFit : List (ℕ × List ℕ) → Type 0
AllFit [] = Unit
AllFit ((k, bytes) ∷ children) = Fits k bytes × AllFit children

-- Whatever number of rounds each child has done, if the files have no NUL byte and the words that a
-- child has delivered, each with its NUL, are less than 4096 bytes, the handler ends and prints the
-- words delivered, child by child and in the order of the files.
pub handler_prints_words :
    (children : List (ℕ × List ℕ))
    → AllFit children
    → handler (segments children) ≡ lines (words_of children)
unfolding handler
handler_prints_words [] f = refl
handler_prints_words ((k, bytes) ∷ children) f =
    rw (child_show k bytes f.0, handler)
      (ap (print_before (words k bytes)) (handler_prints_words children f.1))
