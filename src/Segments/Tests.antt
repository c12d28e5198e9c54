-- ===== src/Segments/Tests.antt =====
-- Two files, and the theorems at states of their children.
use sistemi_operativi.Prelude.{ℕ, ◌≡◌, refl, true, false, none, some, List, [], ◌∷◌, ◌++◌, arith}
use sistemi_operativi.Segments.{
  is_space, skip_space, take_word, word_at, fscanf, lines, handler, parent_passes,
}
use sistemi_operativi.Segments.Scan.{words, IsText}
use sistemi_operativi.Segments.Replay.{segments, words_of, handler_prints_words}
use sistemi_operativi.Segments.Barrier.{runs, parent_released, parent_stuck}

-- `ab c`, a newline, and ` d`.
abbrev first_file : List ℕ
first_file = 97 ∷ 98 ∷ 32 ∷ 99 ∷ 10 ∷ []

abbrev second_file : List ℕ
second_file = 32 ∷ 100 ∷ []

first_file-IsText : IsText first_file
first_file-IsText = (omega arith, (omega arith, (omega arith, (omega arith, (omega arith, tt)))))

second_file-IsText : IsText second_file
second_file-IsText = (omega arith, (omega arith, tt))

handler_prints_words_example :
    handler (segments ((9, first_file) ∷ (1, second_file) ∷ []))
    ≡ lines (words_of ((9, first_file) ∷ (1, second_file) ∷ []))
unfolding words fscanf word_at skip_space take_word is_space
handler_prints_words_example =
    handler_prints_words ((9, first_file) ∷ (1, second_file) ∷ [])
      ((first_file-IsText, omega arith), ((second_file-IsText, omega arith), tt))

parent_released_example :
    parent_passes (runs ((9, some first_file) ∷ (3, some second_file) ∷ [])) ≡ true
unfolding words fscanf word_at skip_space take_word is_space
parent_released_example = parent_released ((9, some first_file) ∷ (3, some second_file) ∷ []) (
  ((first_file-IsText, omega arith), omega arith),
  (((second_file-IsText, omega arith), omega arith), tt),
)

parent_stuck_example :
    parent_passes (runs (((9, some first_file) ∷ []) ++ ((7, none) ∷ []))) ≡ false
parent_stuck_example = parent_stuck ((9, some first_file) ∷ []) 7 []

first_words : words 9 first_file ≡ (97 ∷ 98 ∷ []) ∷ (99 ∷ []) ∷ []
unfolding words fscanf word_at skip_space take_word is_space
first_words = refl
