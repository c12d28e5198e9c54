-- ===== src/Shell/Parse.antt =====
-- The commands of a line: the loop of `main` of Tutoraggio 8/esempio2(shell-pipe)(UNIX).c around
-- `count_args` and `build_arg_vector`.
use sistemi_operativi.Prelude.{
  ℕ, zero, suc, ◌+◌, ◌≤◌, ◌≡◌, ◌≢◌, refl, sym, ap, ap₂, ◌∙◌, true, false, none, some, List, [], ◌∷◌,
  ◌++◌, append_assoc, append-nil, length, length-append, All-append, take, take-append, take-length,
  drop, drop-append_add, All, arith, ==_ne,
}
use sistemi_operativi.Prelude.Text.{str_eq}
use sistemi_operativi.Shell.{
  bar, Bytes, string_at, split, tokens, cut, first_bar, counted, no_command, to_bar, next_command,
  count_tokens, count_args, Stage, stage, stages,
}
use sistemi_operativi.Shell.Words.{tokens-word, string_at-append, first_bar-append}
use sistemi_operativi.Shell.Lines.{
  IsArg, IsCommand, phrase, line, tokens-phrase, cut-phrase, phrase-All, args-no_bar, command-args,
  line-no_nul,
}

pub arg-no_bar : (w : Bytes) → IsArg w → str_eq w (bar ∷ []) ≡ false
unfolding str_eq
arg-no_bar [] a = absurd a.0
arg-no_bar (c ∷ w) a = rw (==_ne c bar a.1.0) refl

pub to_bar-args : (ws : List Bytes) → All IsArg ws → to_bar ws ≡ (length ws, none)
unfolding to_bar
to_bar-args [] a = refl
to_bar-args (w ∷ ws) a = rw (arg-no_bar w a.0, to_bar-args ws a.1) refl

pub to_bar-append :
    (ws r : List Bytes) → All IsArg ws → to_bar (ws ++ ((bar ∷ []) ∷ r)) ≡ (length ws, some r)
unfolding to_bar str_eq
to_bar-append [] r a = refl
to_bar-append (w ∷ ws) r a = rw (arg-no_bar w a.0, to_bar-append ws r a.1) refl

-- `*next_command` behind a bar with arguments behind it.
pub next_command-cons :
    (s : Bytes) (vs : List Bytes) (v : Bytes) (us : List Bytes)
    → vs ≡ v ∷ us
    → next_command s (some vs) ≡ some (first_bar s + 2)
unfolding next_command
next_command-cons s vs v us e = rw (e, next_command) refl

pub tokens-bar : (s : Bytes) → tokens (bar ∷ 32 ∷ s) ≡ (bar ∷ []) ∷ tokens s
tokens-bar s = tokens-word (bar ∷ []) 32 s (omega arith) refl

pub line-tokens :
    (c : List Bytes) (cs : List (List Bytes))
    → IsCommand c
    → (v : Bytes) × ((us : List Bytes) × (tokens (line (c ∷ cs)) ≡ v ∷ us))
line-tokens [] cs a = absurd a
line-tokens (w ∷ ws) [] a = (w, (ws ++ tokens [], tokens-phrase (w ∷ ws) 10 [] a refl))
line-tokens (w ∷ ws) (d ∷ cs) a = (
  w,
  (
    ws ++ tokens (bar ∷ 32 ∷ line (d ∷ cs)),
    tokens-phrase (w ∷ ws) 32 (bar ∷ 32 ∷ line (d ∷ cs)) a refl,
  ),
)

pub string_at-line : (cs : List (List Bytes)) → All IsCommand cs → string_at (line cs) ≡ line cs
unfolding string_at
string_at-line cs a =
    ap string_at (sym (append-nil (line cs)))
    ∙ string_at-append (line cs) [] (line-no_nul cs a)
    ∙ append-nil (line cs)

count_last : (s : Bytes) (c : List Bytes) → IsCommand c → count_tokens s c ≡ counted (length c) none
unfolding count_tokens next_command
count_last s [] a = absurd a
count_last s (w ∷ ws) a = rw (to_bar-args ws a.1) refl

count_more :
    (s : Bytes) (c r : List Bytes) (v : Bytes) (us : List Bytes)
    → IsCommand c
    → r ≡ v ∷ us
    → count_tokens s (c ++ ((bar ∷ []) ∷ r)) ≡ counted (length c) (some (first_bar s + 2))
unfolding count_tokens
count_more s [] r v us a e = absurd a
count_more s (w ∷ ws) r v us a e =
    rw (to_bar-append ws r a.1) (ap (counted (length (w ∷ ws))) (next_command-cons s r v us e))

-- What the program should make of a line: its commands, all but the last with a pipe behind them.
abbrev pub plan : List (List Bytes) → List Stage
plan [] = []
plan (c ∷ []) = stage c false ∷ []
plan (c ∷ d ∷ cs) = stage c true ∷ plan (d ∷ cs)

-- A command with another one behind it.
module _ (c d : List Bytes) (cs : List (List Bytes)) (a : IsCommand c)
    (a' : All IsCommand (d ∷ cs)) where
  line_tokens : tokens (line (c ∷ d ∷ cs)) ≡ c ++ ((bar ∷ []) ∷ tokens (line (d ∷ cs)))
  line_tokens =
      tokens-phrase c 32 (bar ∷ 32 ∷ line (d ∷ cs)) a refl
      ∙ ap (λ l. c ++ l) (tokens-bar (line (d ∷ cs)))

  line_bar : first_bar (line (c ∷ d ∷ cs)) ≡ length (phrase c) + 1
  line_bar =
      ap first_bar (sym (append_assoc (phrase c) (32 ∷ []) (bar ∷ 32 ∷ line (d ∷ cs))))
      ∙ first_bar-append (phrase c ++ (32 ∷ [])) (32 ∷ line (d ∷ cs)) (
          All-append (λ k. k ≢ bar) (phrase c) (32 ∷ [])
            (phrase-All (λ k. k ≢ bar) c (λ e. absurd (omega (arith, e)))
              (args-no_bar c (command-args c a)))
            ((λ e. absurd (omega (arith, e))), tt))
      ∙ length-append (phrase c) (32 ∷ [])

  line_count : count_args (line (c ∷ d ∷ cs)) ≡ counted (length c) (some (length (phrase c) + 3))
  unfolding count_args
  line_count =
      let (v, (us, e)) = line-tokens d cs a'.0 in
      ap (count_tokens (line (c ∷ d ∷ cs))) line_tokens
      ∙ count_more (line (c ∷ d ∷ cs)) c (tokens (line (d ∷ cs))) v us a e
      ∙ ap (λ k. counted (length c) (some k)) (omega (arith, line_bar))

  line-cut : drop (length (phrase c) + 3) (cut (length c) false (line (c ∷ d ∷ cs))) ≡ line (d ∷ cs)
  line-cut =
      let (x, (l, q)) =
        cut-phrase c 32 (bar ∷ 32 ∷ line (d ∷ cs)) a refl (λ e. absurd (omega (arith, e))) in
      ap (drop (length (phrase c) + 3)) q
      ∙ ap (λ k. drop (k + 3) (x ++ (0 ∷ bar ∷ 32 ∷ line (d ∷ cs)))) (sym l)
      ∙ drop-append_add x (0 ∷ bar ∷ 32 ∷ line (d ∷ cs)) 3

empty_line : count_args (10 ∷ []) ≡ no_command
unfolding count_args count_tokens split
empty_line = refl

tokens-nil : tokens [] ≡ []
unfolding split
tokens-nil = refl

last_tokens : (c : List Bytes) → IsCommand c → tokens (line (c ∷ [])) ≡ c
last_tokens c a = tokens-phrase c 10 [] a refl ∙ ap (λ l. c ++ l) tokens-nil ∙ append-nil c

last_count : (c : List Bytes) → IsCommand c → count_args (line (c ∷ [])) ≡ counted (length c) none
unfolding count_args
last_count c a =
    ap (count_tokens (line (c ∷ []))) (last_tokens c a) ∙ count_last (line (c ∷ [])) c a

stages-zero : (s : Bytes) → stages zero s ≡ []
unfolding stages
stages-zero s = refl

-- One round of the loop, by what `count_args` returns.
pub stages-none :
    (fuel : ℕ) (s t : Bytes)
    → string_at s ≡ t
    → count_args t ≡ no_command
    → stages (suc fuel) s ≡ []
unfolding stages
stages-none fuel s t e q = rw (e, q, stages) refl

pub stages-last :
    (fuel : ℕ) (s t : Bytes) (n : ℕ)
    → string_at s ≡ t
    → count_args t ≡ counted n none
    → stages (suc fuel) s ≡ stage (take n (tokens t)) false ∷ []
unfolding stages
stages-last fuel s t n e q = rw (e, q, stages) (ap (λ k. stage (take n (tokens k)) false ∷ []) e)

pub stages-more :
    (fuel : ℕ) (s t : Bytes) (n next : ℕ)
    → string_at s ≡ t
    → count_args t ≡ counted n (some next)
    → stages (suc fuel) s ≡ stage (take n (tokens t)) true ∷ stages fuel (drop next (cut n false s))
unfolding stages
stages-more fuel s t n next e q =
    rw (e, q, stages)
      (ap (λ k. stage (take n (tokens k)) true ∷ stages fuel (drop next (cut n false s))) e)

-- The loop takes the commands of a line of arguments, each with its arguments in their order: it has no
-- other stages, a pipe behind every command but the last, and fuel for as many commands is enough.
pub stages-line :
    (fuel : ℕ) (cs : List (List Bytes))
    → All IsCommand cs
    → length cs ≤ fuel
    → stages fuel (line cs) ≡ plan cs
stages-line zero [] a l = stages-zero (line [])
stages-line zero (c ∷ cs) a l = absurd (omega (arith, l))
stages-line (suc fuel) [] a l =
    stages-none fuel (line []) (line []) (string_at-line [] tt) empty_line
stages-line (suc fuel) (c ∷ []) a l =
    stages-last fuel (line (c ∷ [])) (line (c ∷ [])) (length c) (string_at-line (c ∷ []) a)
      (last_count c a.0)
    ∙ ap (λ w. stage w false ∷ [])
        (ap (take (length c)) (last_tokens c a.0) ∙ take-length (length c) c refl)
stages-line (suc fuel) (c ∷ d ∷ cs) a l =
    let s = line (c ∷ d ∷ cs) in
    stages-more fuel s s (length c) (length (phrase c) + 3) (string_at-line (c ∷ d ∷ cs) a)
      (line_count c d cs a.0 a.1)
    ∙ ap₂ (λ w b. stage w true ∷ stages fuel b)
        (ap (take (length c)) (line_tokens c d cs a.0 a.1)
          ∙ take-append (length c) c ((bar ∷ []) ∷ tokens (line (d ∷ cs))) refl)
        (line-cut c d cs a.0 a.1)
    ∙ ap (λ r. stage c true ∷ r) (stages-line fuel (d ∷ cs) a.1 (omega (arith, l)))
