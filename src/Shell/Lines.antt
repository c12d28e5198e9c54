-- ===== src/Shell/Lines.antt =====
-- Lines as a user writes them for Tutoraggio 8/esempio2(shell-pipe)(UNIX).c: the arguments of a command
-- with a space between them, the commands with a bar between spaces, and a newline.
use sistemi_operativi.Prelude.{
  ℕ, zero, ◌≡◌, ◌≢◌, refl, sym, ap, ◌∙◌, true, false, List, [], ◌∷◌, ◌++◌, append_assoc, length,
  length-append, All, All-append, arith,
}
use sistemi_operativi.Shell.{bar, is_delimiter, Bytes, tokens, cut}
use sistemi_operativi.Shell.Words.{IsLetter, IsWord, tokens-word, cut-word}

-- An argument: a word without a bar.
abbrev pub IsArg : Bytes → Type 0
IsArg w = IsWord w × All (λ c. c ≢ bar) w

-- A command: one argument or more.
abbrev pub IsCommand : List Bytes → Type 0
IsCommand [] = ⊥
IsCommand (w ∷ ws) = All IsArg (w ∷ ws)

abbrev pub phrase : List Bytes → Bytes
phrase [] = []
phrase (w ∷ []) = w
phrase (w ∷ v ∷ ws) = w ++ (32 ∷ phrase (v ∷ ws))

abbrev pub line : List (List Bytes) → Bytes
line [] = 10 ∷ []
line (c ∷ []) = phrase c ++ (10 ∷ [])
line (c ∷ d ∷ cs) = phrase c ++ (32 ∷ bar ∷ 32 ∷ line (d ∷ cs))

-- The arguments of a command are its tokens.
pub tokens-phrase :
    (c : List Bytes) (d : ℕ) (s : Bytes)
    → IsCommand c
    → is_delimiter d ≡ true
    → tokens (phrase c ++ (d ∷ s)) ≡ c ++ tokens s
tokens-phrase [] d s a e = absurd a
tokens-phrase (w ∷ []) d s a e = tokens-word w d s a.0.0 e
tokens-phrase (w ∷ v ∷ ws) d s a e =
    ap tokens (append_assoc w (32 ∷ phrase (v ∷ ws)) (d ∷ s))
    ∙ tokens-word w 32 (phrase (v ∷ ws) ++ (d ∷ s)) a.0.0 refl
    ∙ ap (λ l. w ∷ l) (tokens-phrase (v ∷ ws) d s a.1 e)

-- Behind its last argument there is a NUL, and the bytes behind are as before.
pub cut-phrase :
    (c : List Bytes) (d : ℕ) (s : Bytes)
    → IsCommand c
    → is_delimiter d ≡ true
    → d ≢ 0
    → (x : Bytes) × ((length x ≡ length (phrase c))
        × (cut (length c) false (phrase c ++ (d ∷ s)) ≡ x ++ (0 ∷ s)))
unfolding cut
cut-phrase [] d s a e z = absurd a
cut-phrase (w ∷ []) d s a e z = (w, (refl, cut-word zero w d s a.0.0 e z))
cut-phrase (w ∷ v ∷ ws) d s a e z =
    let (x, (l, q)) = cut-phrase (v ∷ ws) d s a.1 e z in
    (
      w ++ (0 ∷ x),
      (
        omega (arith, l, length-append w (0 ∷ x), length-append w (32 ∷ phrase (v ∷ ws))),
        ap (cut (length (w ∷ v ∷ ws)) false) (append_assoc w (32 ∷ phrase (v ∷ ws)) (d ∷ s))
            ∙ cut-word (length (v ∷ ws)) w 32 (phrase (v ∷ ws) ++ (d ∷ s)) a.0.0 refl
                (λ k. absurd (omega (arith, k)))
            ∙ ap (λ l. w ++ (0 ∷ l)) q
            ∙ sym (append_assoc w (0 ∷ x) (0 ∷ s)),
      ),
    )

pub word-All : (P : ℕ → Type 0) (w : Bytes) → ((k : ℕ) → IsLetter k → P k) → IsWord w → All P w
word-All P [] f a = absurd a
word-All P (c ∷ w) f a = letters (c ∷ w) a
  where
    letters : (w : Bytes) → All IsLetter w → All P w
    letters [] a = tt
    letters (c ∷ w) a = (f c a.0, letters w a.1)

-- A predicate of spaces and of the bytes of arguments holds of the bytes of a command.
pub phrase-All : (P : ℕ → Type 0) (c : List Bytes) → P 32 → All (All P) c → All P (phrase c)
phrase-All P [] p a = tt
phrase-All P (w ∷ []) p a = a.0
phrase-All P (w ∷ v ∷ ws) p a =
    All-append P w (32 ∷ phrase (v ∷ ws)) a.0 (p, phrase-All P (v ∷ ws) p a.1)

args-no_nul : (c : List Bytes) → All IsArg c → All (All (λ k. k ≢ 0)) c
args-no_nul [] a = tt
args-no_nul (w ∷ ws) a = (word-All (λ k. k ≢ 0) w (λ k l. l.1.1) a.0.0, args-no_nul ws a.1)

pub args-no_bar : (c : List Bytes) → All IsArg c → All (All (λ k. k ≢ bar)) c
args-no_bar [] a = tt
args-no_bar (w ∷ ws) a = (a.0.1, args-no_bar ws a.1)

pub command-args : (c : List Bytes) → IsCommand c → All IsArg c
command-args [] a = absurd a
command-args (w ∷ ws) a = a

pub line-no_nul : (cs : List (List Bytes)) → All IsCommand cs → All (λ k. k ≢ 0) (line cs)
line-no_nul [] a = ((λ e. absurd (omega (arith, e))), tt)
line-no_nul (c ∷ []) a =
    All-append (λ k. k ≢ 0) (phrase c) (10 ∷ [])
      (phrase-All (λ k. k ≢ 0) c (λ e. absurd (omega (arith, e)))
        (args-no_nul c (command-args c a.0)))
      ((λ e. absurd (omega (arith, e))), tt)
line-no_nul (c ∷ d ∷ cs) a =
    All-append (λ k. k ≢ 0) (phrase c) (32 ∷ bar ∷ 32 ∷ line (d ∷ cs))
      (phrase-All (λ k. k ≢ 0) c (λ e. absurd (omega (arith, e)))
        (args-no_nul c (command-args c a.0)))
      (
        (λ e. absurd (omega (arith, e))),
        (
          (λ e. absurd (omega (arith, e))),
          ((λ e. absurd (omega (arith, e))), line-no_nul (d ∷ cs) a.1),
        ),
      )
