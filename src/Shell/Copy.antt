-- ===== src/Shell/Copy.antt =====
-- SO esempi/5_PIPES-MESSAGES/UNIX/shell-with-pipes/shellpipe-unix.c: the same shell, where
-- `build_arg_vector` has a third parameter that it does not use.
use sistemi_operativi.Prelude.{ℕ, Bool, Option, List}
use sistemi_operativi.Shell.{Bytes, Count, Stage}
use sistemi_operativi.Shell
use sistemi_operativi.Shell.Wires.{Shell, Ending}
use sistemi_operativi.Shell.Wires

abbrev count_args : Bytes → Count
count_args = Shell.count_args

abbrev build_arg_vector : Bytes → ℕ → Bool → List Bytes × Bytes
build_arg_vector command arg_num pipe_present = Shell.build_arg_vector command arg_num

abbrev stages : ℕ → Bytes → List Stage
stages = Shell.stages

abbrev command : Bool → Stage → Shell → Option Shell
command = Wires.command

abbrev run_line : (ℕ → Bool) → Bytes → Shell → Option Shell
run_line = Wires.run_line

abbrev session : ℕ → (ℕ → ℕ → Bool) → Bytes → Shell → Ending
session = Wires.session
