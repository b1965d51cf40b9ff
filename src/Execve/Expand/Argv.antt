-- ===== src/Execve/Expand/Argv.antt =====
-- The arguments that an argv[] stands for, as the manual of execve(2) has them for a script, and
-- what expand_shebang of proot/src/execve/shebang.c makes of them.
use doki_proot.Prelude.{
  ℕ, suc, ◌<◌, ◌≡◌, refl, subst, true, false, none, some, List, [], ◌∷◌, map, Bytes, length, ltb,
  ◌==◌, Result, ok, fail, arith,
}
use doki_proot.Execve.Pointers.{
  XPointer, write_xpointees, write_xpointee_as_string, resize_array_of_xpointers, nulls,
}
use doki_proot.Execve.Expand.{write_interpreter}

-- An entry of argv[]: a string of the tracer's, or a pointer of the tracee's.
pub data Argument : Type 0 where
  string : Bytes → Argument
  pointer : ℕ → Argument

abbrev pub shown : XPointer → Argument
shown p = elim p.cached [ none ↦ pointer p.remote | some s ↦ string s ]

-- The arguments behind the program's name, with the null pointer that ends them.
abbrev pub operands : List Argument → List Argument
operands [] = []
operands (a ∷ []) = a ∷ []
operands (a ∷ b ∷ args) = b ∷ args

-- interpreter [optional-arg] filename arg...
abbrev pub script_args : Bytes → Bytes → Bytes → List Argument → List Argument
script_args interpreter [] file args = string interpreter ∷ string file ∷ operands args
script_args interpreter (c ∷ argument) file args =
    string interpreter ∷ string (c ∷ argument) ∷ string file ∷ operands args

abbrev pub IsShown : List Argument → Result (List XPointer) → Type 0
IsShown args (ok argv) = (map shown argv ≡ args) × (0 < length argv)
IsShown args (fail code) = ⊥

several : (n : ℕ) → (suc (suc n) == 1) ≡ false
several n = ground arith

some_entry : (n : ℕ) → ltb 0 (suc (suc n)) ≡ true
some_entry n = ground arith

write_interpreter-IsShown :
    (argv : List XPointer) (interpreter argument file : Bytes)
    → 0 < length argv
    → IsShown
        (script_args interpreter argument file (map shown argv))
        (write_interpreter argv interpreter argument file)
unfolding write_interpreter write_xpointees write_xpointee_as_string resize_array_of_xpointers nulls
write_interpreter-IsShown [] interpreter argument file h = absurd (omega arith)
write_interpreter-IsShown (p ∷ []) interpreter [] file h = (refl, omega arith)
write_interpreter-IsShown (p ∷ []) interpreter (c ∷ argument) file h = (refl, omega arith)
write_interpreter-IsShown (p ∷ q ∷ argv) interpreter [] file h =
    rw (several (length argv), some_entry (length argv)) (refl, omega arith)
write_interpreter-IsShown (p ∷ q ∷ argv) interpreter (c ∷ argument) file h =
    rw (several (length argv), some_entry (length argv)) (refl, omega arith)

pub written :
    (interpreter argument file : Bytes) (argv : List XPointer) (args : List Argument)
    → IsShown args (ok argv)
    → (argv' : List XPointer) × (write_interpreter argv interpreter argument file ≡ ok argv')
      × IsShown (script_args interpreter argument file args) (ok argv')
written interpreter argument file argv args h =
    go (write_interpreter argv interpreter argument file) refl (
      subst
        (λ l.
          IsShown (script_args interpreter argument file l)
            (write_interpreter argv interpreter argument file))
        h.0 (write_interpreter-IsShown argv interpreter argument file h.1))
  where
    go :
        (r : Result (List XPointer))
        → write_interpreter argv interpreter argument file ≡ r
        → IsShown (script_args interpreter argument file args) r
        → (argv' : List XPointer) × (write_interpreter argv interpreter argument file ≡ ok argv')
          × IsShown (script_args interpreter argument file args) (ok argv')
    go (ok argv') e k = (argv', e, k)
    go (fail code) e k = absurd k
