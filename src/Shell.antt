-- ===== src/Shell.antt =====
-- Tutoraggio SO/Tutoraggio 8/esempio2(shell-pipe)(UNIX).c: a shell with pipes. `count_args` and
-- `build_arg_vector` cut a line into commands, and `main` starts a process for each of them.
pub mod Words
pub mod Lines
pub mod Parse
pub mod Glued
pub mod Stale
pub mod Wires
pub mod Pipeline
pub mod Session
pub mod Leaks
mod Tests
mod Copy
pub mod Windows
pub mod Joined
use sistemi_operativi.Prelude.{
  ℕ, zero, suc, ◌+◌, Bool, true, false, ◌||◌, Option, none, some, List, [], ◌∷◌, ◌++◌, take, drop,
  ◌==◌, if◌then◌else◌,
}
use sistemi_operativi.Prelude.Text.{str_eq}

abbrev pub bar : ℕ
bar = 124

-- The delimiters " \n".
abbrev pub is_delimiter : ℕ → Bool
is_delimiter c = c == 32 || c == 10

-- A string is the list of its bytes; a line is the bytes of the array, with a NUL where `strtok` has
-- written one.
abbrev pub Bytes : Type 0
Bytes = List ℕ

-- The bytes up to the first NUL.
unfoldable pub string_at : Bytes → Bytes
string_at [] = []
string_at (c ∷ s) = let rest = string_at s in if c == 0 then [] else c ∷ rest

-- The tokens that repeated calls of `strtok` give, behind the first bytes of one.
abbrev pub flush : Bytes → List Bytes
flush [] = []
flush (c ∷ w) = (c ∷ w) ∷ []

unfoldable pub split : Bytes → Bytes → List Bytes
split begun [] = flush begun
split begun (c ∷ s) =
    (if is_delimiter c then flush begun else [])
    ++ split (if is_delimiter c then [] else begun ++ (c ∷ [])) s

abbrev pub tokens : Bytes → List Bytes
tokens = split []

-- The bytes when `strtok` has given that many tokens more: a NUL is written behind each of them. The flag
-- says whether a token has begun.
unfoldable pub cut : ℕ → Bool → Bytes → Bytes
cut zero begun s = s
cut (suc n) begun [] = []
cut (suc n) true (c ∷ s) =
    let rest = cut (suc n) true s in
    let behind = cut n false s in
    if c == 0 then c ∷ s else if is_delimiter c then 0 ∷ behind else c ∷ rest
cut (suc n) false (c ∷ s) =
    let rest = cut (suc n) true s in
    let later = cut (suc n) false s in
    if c == 0 then c ∷ s else if is_delimiter c then c ∷ later else c ∷ rest

-- The loop that looks for the first bar.
unfoldable pub first_bar : Bytes → ℕ
first_bar [] = 0
first_bar (c ∷ s) = let rest = first_bar s in if c == bar then 0 else suc rest

-- `count_args`: -1, or the number of arguments, and where the next command begins if there is one.
pub data Count : Type 0 where
  no_command : Count
  counted : ℕ → Option ℕ → Count

-- The tokens up to one that is a bar, and those behind it.
unfoldable pub to_bar : List Bytes → ℕ × Option (List Bytes)
to_bar [] = (0, none)
to_bar (w ∷ ws) =
    let (n, behind) = to_bar ws in if str_eq w (bar ∷ []) then (0, some ws) else (suc n, behind)

-- Where the next command begins.
unfoldable pub next_command : Bytes → Option (List Bytes) → Option ℕ
next_command s none = none
next_command s (some []) = none
next_command s (some (v ∷ vs)) = some (first_bar s + 2)

unfoldable pub count_tokens : Bytes → List Bytes → Count
count_tokens s [] = no_command
count_tokens s (w ∷ ws) = let (n, behind) = to_bar ws in counted (suc n) (next_command s behind)

unfoldable pub count_args : Bytes → Count
count_args s = count_tokens s (tokens s)

-- A command with its arguments, and `pipe_present`.
pub record Stage : Type 0 where
  pub args : List Bytes
  pub pipe_present : Bool

abbrev pub stage : List Bytes → Bool → Stage
stage args pipe_present = record { args = args; pipe_present = pipe_present }

-- `build_arg_vector`: the arguments, and the bytes with the NULs that `strtok` has written.
abbrev pub build_arg_vector : Bytes → ℕ → List Bytes × Bytes
build_arg_vector command arg_num =
    (take arg_num (tokens (string_at command)), cut arg_num false command)

-- The loop over the commands of a line, with fuel, from the bytes at `command_pointer` on.
unfoldable pub stages : ℕ → Bytes → List Stage
stages zero s = []
stages (suc fuel) s = elim (count_args (string_at s)) [
  | no_command ↦ []
  | counted n none ↦ let (arg, rest) = build_arg_vector s n in stage arg false ∷ []
  | counted n (some next) ↦
      let (arg, rest) = build_arg_vector s n in stage arg true ∷ stages fuel (drop next rest)
]
