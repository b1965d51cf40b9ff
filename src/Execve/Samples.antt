-- ===== src/Execve/Samples.antt =====
-- Tests of the execution of scripts, of proot/src/execve, and the witnesses of the theorems on it:
-- the script /s for /bin/sh with an argument, and /l, which is its own interpreter.
use doki_proot.Prelude.{
  ℕ, zero, suc, ◌-◌, ◌≡◌, refl, true, none, some, List, [], ◌∷◌, Bytes, codes, str_eq,
  if◌then◌else◌, Result, ok, fail, Ensures, e_loop, e_noent, arith,
}
use doki_proot.Execve.Shebang.{
  Script, is_blank, is_newline, skip_leading, slurp_path, slurp_argument, at_end, trim, last_is_nul,
  extract_shebang,
}
use doki_proot.Execve.Shebang.Line.{IsInterpreter, IsArgument, first_line, extract_shebang-argument}
use doki_proot.Execve.Shebang.Bounds.{IsShortScript, extract_shebang-IsShort}
use doki_proot.Execve.Pointers.{XPointer, null, Memory, count_cached, push_array_of_xpointers}
use doki_proot.Execve.Pointers.Written.{IsPushed, push_array_of_xpointers-IsPushed}
use doki_proot.Execve.Expand.{Machine, translate_and_check_exec, inspect, expand_shebang}
use doki_proot.Execve.Expand.Argv.{string, pointer, script_args}
use doki_proot.Execve.Expand.Runs.{
  Runs, program, script, Nests, any, deeper, IsRunPushed, expand_shebang-IsRun, expand_shebang-deep,
}

abbrev sh : Bytes
sh = codes "/bin/sh"

abbrev option : Bytes
option = codes "-x y"

sh-IsInterpreter : IsInterpreter sh
unfolding is_blank is_newline
sh-IsInterpreter = ground arith

option-IsArgument : IsArgument option
unfolding is_blank is_newline
option-IsArgument = ground arith

abbrev line : Script
line = record {
  bytes = first_line (codes " ") sh (codes " ") (codes "-x y \nexit");
  read_error = none;
}

extract_shebang-argument_example : extract_shebang 128 line ≡ ok (some (sh, option))
unfolding is_blank is_newline
extract_shebang-argument_example =
    extract_shebang-argument 128 none (codes " ") sh (codes " ") option (codes " ") 10
      (codes "exit") (refl, tt) sh-IsInterpreter (refl, tt) (omega arith) option-IsArgument
      (refl, tt) refl (omega arith)

extract_shebang-IsShort_example : Ensures (IsShortScript 128) (extract_shebang 128 line)
extract_shebang-IsShort_example = extract_shebang-IsShort 128 line (omega arith)

-- A path that ends with the file loses its last byte.
cut_short :
    extract_shebang 128 (record { bytes = codes "#!/bin/sh"; read_error = none })
    ≡ ok (some (codes "/bin/s", []))
unfolding extract_shebang skip_leading slurp_path is_blank is_newline at_end last_is_nul
cut_short = refl

abbrev argv : List XPointer
argv = record { remote = 4096; cached = none } ∷ null ∷ []

push_array_of_xpointers-IsPushed_example :
    IsPushed
      (λ size. 65536 - size)
      (λ block. none)
      (record { remote = 0; cached = some sh } ∷ argv)
      (push_array_of_xpointers
        (λ size. 65536 - size)
        (λ block. none)
        (record { remote = 0; cached = some sh } ∷ argv))
unfolding count_cached
push_array_of_xpointers-IsPushed_example =
    push_array_of_xpointers-IsPushed (λ size. 65536 - size) (λ block. none)
      (record { remote = 0; cached = some sh } ∷ argv) (ground arith) (omega arith) (omega arith)

abbrev memory : Memory
memory = record { peek_word = λ address. ok 0; read_string = λ address. ok (codes "s") }

abbrev contents : Bytes → Result Script
contents path =
    if str_eq path (codes "/s")
    then ok line
    else if str_eq path (codes "/l")
    then ok (record { bytes = codes "#!/l\n"; read_error = none })
    else if str_eq path sh
    then ok (record { bytes = codes "ELF"; read_error = none })
    else fail e_noent

abbrev machine : Machine
machine = record {
  translate = λ path. ok path;
  is_there = λ path. true;
  is_executable = λ path. true;
  has_status = λ path. true;
  open_script = contents;
}

s-Runs :
    Runs 128 machine 1
      (codes "/s")
      (pointer 4096 ∷ pointer 0 ∷ [])
      sh
      sh
      (string sh ∷ string option ∷ string (codes "/s") ∷ pointer 0 ∷ [])
unfolding inspect translate_and_check_exec extract_shebang skip_leading slurp_path slurp_argument
    is_blank is_newline at_end last_is_nul trim str_eq
s-Runs =
    script 0 (codes "/s") (codes "/s") sh option sh sh sh _ _ refl refl
      (program sh sh (script_args sh option (codes "/s") (pointer 4096 ∷ pointer 0 ∷ [])) refl)

expand_shebang-IsRun_example :
    IsRunPushed 128 machine
      (ok argv)
      sh
      sh
      (string sh ∷ string option ∷ string (codes "/s") ∷ pointer 0 ∷ [])
      true
      (λ size. 65536 - size)
      (λ block. none)
      (expand_shebang 128 machine (ok argv) (λ size. 65536 - size) (λ block. none) 20 (codes "/s"))
expand_shebang-IsRun_example =
    expand_shebang-IsRun 128 machine (ok argv) (λ size. 65536 - size) (λ block. none) 20 1
      (codes "/s") (pointer 4096 ∷ pointer 0 ∷ []) sh sh
      (string sh ∷ string option ∷ string (codes "/s") ∷ pointer 0 ∷ []) s-Runs (refl, omega arith)
      (omega arith)

l-Nests : (n : ℕ) → Nests 128 machine n (codes "/l")
unfolding inspect translate_and_check_exec extract_shebang skip_leading slurp_path slurp_argument
    is_blank is_newline at_end last_is_nul trim str_eq
l-Nests zero = any (codes "/l")
l-Nests (suc n) =
    deeper n (codes "/l") (codes "/l") (codes "/l") [] (codes "/l") refl refl (l-Nests n)

expand_shebang-deep_example :
    expand_shebang 128 machine (ok argv) (λ size. 65536 - size) (λ block. none) 20 (codes "/l")
    ≡ fail e_loop
expand_shebang-deep_example =
    expand_shebang-deep 128 machine (ok argv) (λ size. 65536 - size) (λ block. none) 20 (codes "/l")
      (pointer 4096 ∷ pointer 0 ∷ []) (l-Nests 20) (refl, omega arith)
