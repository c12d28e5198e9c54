-- ===== src/Shell/Glued.antt =====
-- A bar without spaces around it in a line of Tutoraggio 8/esempio2(shell-pipe)(UNIX).c: it is no token of
-- its own, but the loop that looks for a bar stops at it.
use sistemi_operativi.Prelude.{
  ℕ, suc, ◌+◌, ◌≡◌, ◌≢◌, refl, sym, ap, ap₂, ◌∙◌, true, false, none, some, List, [], ◌∷◌, ◌++◌,
  append_assoc, append-nil, length, take, drop, drop-append_add, All, All-append, arith,
}
use sistemi_operativi.Prelude.Text.{str_eq}
use sistemi_operativi.Shell.{
  bar, Bytes, string_at, split, tokens, cut, first_bar, counted, no_command, to_bar, next_command,
  count_tokens, count_args, Stage, stage, stages,
}
use sistemi_operativi.Shell.Words.{
  IsLetter, IsWord, tokens-word, tokens_whole, cut-word, string_at-append, first_bar-append,
}
use sistemi_operativi.Shell.Lines.{IsArg, IsCommand, line, line-no_nul, word-All}
use sistemi_operativi.Shell.Parse.{
  tokens-bar, line-tokens, stages-none, stages-last, stages-more, next_command-cons,
}

bar-IsLetter : IsLetter bar
bar-IsLetter = (
  λ e. absurd (omega (arith, e)),
  (λ e. absurd (omega (arith, e)), λ e. absurd (omega (arith, e))),
)

word-letters : (w : Bytes) → IsWord w → All IsLetter w
word-letters [] a = absurd a
word-letters (c ∷ w) a = a

glued-IsWord : (w v : Bytes) → IsWord w → IsWord v → IsWord (w ++ (bar ∷ v))
glued-IsWord [] v a b = absurd a
glued-IsWord (c ∷ w) v a b =
    (a.0, All-append IsLetter w (bar ∷ v) a.1 (bar-IsLetter, word-letters v b))

-- The line: the glued word, a bar between spaces, and a line of commands.
abbrev pub glued_line : Bytes → Bytes → List (List Bytes) → Bytes
glued_line w v cs = (w ++ (bar ∷ v)) ++ (32 ∷ bar ∷ 32 ∷ line cs)

-- What is run of the line behind the glued word.
abbrev pub remainder : Bytes → List Stage
remainder [] = []
remainder (c ∷ []) = []
remainder (c ∷ d ∷ v) = stage ((d ∷ v) ∷ []) false ∷ []

word_tail : (v s : Bytes) → IsWord v → drop 1 (v ++ s) ≡ drop 1 v ++ s
word_tail [] s a = absurd a
word_tail (c ∷ v) s a = refl

nul_string : (s : Bytes) → string_at (0 ∷ s) ≡ []
unfolding string_at
nul_string s = refl

nil_string : string_at [] ≡ []
unfolding string_at
nil_string = refl

nul_count : count_args [] ≡ no_command
unfolding count_args count_tokens split
nul_count = refl

word_count : (w : Bytes) → IsWord w → count_args w ≡ counted 1 none
unfolding count_args count_tokens to_bar next_command
word_count w a = ap (count_tokens w) (tokens_whole w a)

-- The loop at the second byte of the second word, with the NUL behind that word.
remainder-stages :
    (fuel : ℕ) (v s : Bytes) → IsWord v → stages (suc fuel) (drop 1 v ++ (0 ∷ s)) ≡ remainder v
remainder-stages fuel [] s a = absurd a
remainder-stages fuel (c ∷ []) s a = stages-none fuel (0 ∷ s) [] (nul_string s) nul_count
remainder-stages fuel (c ∷ d ∷ v) s a =
    stages-last fuel ((d ∷ v) ++ (0 ∷ s)) (d ∷ v) 1
      (string_at-append (d ∷ v) (0 ∷ s) (word-All (λ k. k ≢ 0) (d ∷ v) (λ k l. l.1.1) a.1)
        ∙ ap (λ l. (d ∷ v) ++ l) (nul_string s)
        ∙ append-nil (d ∷ v))
      (word_count (d ∷ v) a.1)
    ∙ ap (λ l. stage (take 1 l) false ∷ []) (tokens_whole (d ∷ v) a.1)

module _ (w v : Bytes) (c : List Bytes) (cs : List (List Bytes)) (a : IsArg w) (b : IsArg v)
    (d : All IsCommand (c ∷ cs)) where
  glued_tokens :
      tokens (glued_line w v (c ∷ cs)) ≡ (w ++ (bar ∷ v)) ∷ (bar ∷ []) ∷ tokens (line (c ∷ cs))
  glued_tokens =
      tokens-word (w ++ (bar ∷ v)) 32 (bar ∷ 32 ∷ line (c ∷ cs)) (glued-IsWord w v a.0 b.0) refl
      ∙ ap (λ l. (w ++ (bar ∷ v)) ∷ l) (tokens-bar (line (c ∷ cs)))

  glued_bar : first_bar (glued_line w v (c ∷ cs)) ≡ length w
  glued_bar =
      ap first_bar (append_assoc w (bar ∷ v) (32 ∷ bar ∷ 32 ∷ line (c ∷ cs)))
      ∙ first_bar-append w (v ++ (32 ∷ bar ∷ 32 ∷ line (c ∷ cs))) a.1

  glued_string : string_at (glued_line w v (c ∷ cs)) ≡ glued_line w v (c ∷ cs)
  glued_string =
      let whole : All (λ k. k ≢ 0) (glued_line w v (c ∷ cs)) =
        All-append (λ k. k ≢ 0) (w ++ (bar ∷ v)) (32 ∷ bar ∷ 32 ∷ line (c ∷ cs))
          (word-All (λ k. k ≢ 0) (w ++ (bar ∷ v)) (λ k l. l.1.1) (glued-IsWord w v a.0 b.0))
          (
            (λ e. absurd (omega (arith, e))),
            (
              (λ e. absurd (omega (arith, e))),
              ((λ e. absurd (omega (arith, e))), line-no_nul (c ∷ cs) d),
            ),
          ) in
      ap string_at (sym (append-nil (glued_line w v (c ∷ cs))))
      ∙ string_at-append (glued_line w v (c ∷ cs)) [] whole
      ∙ ap (λ l. glued_line w v (c ∷ cs) ++ l) nil_string
      ∙ append-nil (glued_line w v (c ∷ cs))

  glued_count : count_args (glued_line w v (c ∷ cs)) ≡ counted 1 (some (length w + 2))
  unfolding count_args count_tokens to_bar str_eq
  glued_count =
      let (x, (xs, e)) = line-tokens c cs d.0 in
      ap (count_tokens (glued_line w v (c ∷ cs))) glued_tokens
      ∙ ap (λ k. counted 1 k)
          (next_command-cons (glued_line w v (c ∷ cs)) (tokens (line (c ∷ cs))) x xs e)
      ∙ ap (λ k. counted 1 (some (k + 2))) glued_bar

  glued_cut :
      drop (length w + 2) (cut 1 false (glued_line w v (c ∷ cs)))
      ≡ drop 1 v ++ (0 ∷ bar ∷ 32 ∷ line (c ∷ cs))
  unfolding cut
  glued_cut =
      let s = bar ∷ 32 ∷ line (c ∷ cs) in
      ap (drop (length w + 2)) (
        cut-word 0 (w ++ (bar ∷ v)) 32 s (glued-IsWord w v a.0 b.0) refl
          (λ e. absurd (omega (arith, e)))
        ∙ append_assoc w (bar ∷ v) (0 ∷ s))
      ∙ drop-append_add w (bar ∷ v ++ (0 ∷ s)) 2
      ∙ word_tail v (0 ∷ s) b.0

  -- A line that begins with two words glued by a bar runs the glued word as its first command, then what
  -- is left of the second word behind its first byte, if anything is, and never the commands behind the
  -- next bar.
  pub stages_glued :
      (fuel : ℕ)
      → stages (suc (suc fuel)) (glued_line w v (c ∷ cs))
        ≡ stage ((w ++ (bar ∷ v)) ∷ []) true ∷ remainder v
  stages_glued fuel =
      stages-more (suc fuel) (glued_line w v (c ∷ cs)) (glued_line w v (c ∷ cs)) 1 (length w + 2)
        glued_string glued_count
      ∙ ap₂ (λ x y. stage (take 1 x) true ∷ stages (suc fuel) y) glued_tokens glued_cut
      ∙ ap (λ l. stage ((w ++ (bar ∷ v)) ∷ []) true ∷ l)
          (remainder-stages fuel v (bar ∷ 32 ∷ line (c ∷ cs)) b.0)
