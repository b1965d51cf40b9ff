-- ===== src/Execve/Pointers/Find.antt =====
-- What find_xpointee of proot/src/execve/aoxp.c finds.
use doki_proot.Prelude.{
  ℕ, suc, ◌≡◌, refl, ap, Option, List, [], ◌∷◌, Bytes, Bool-cases, inl, inr, if◌then◌else◌, Result,
  ok, fail, ◌>>=◌, arith,
}
use doki_proot.Execve.Pointers.{
  XPointer, Memory, read_xpointee_as_string, is_same, compare_xpointee_generic, find_xpointee,
}

module _ (arg_max : ℕ) (memory : Memory) where
  -- The entries can be read, and these are their strings.
  abbrev pub ReadsAll : List XPointer → List (Option Bytes) → Type 0
  ReadsAll [] [] = Unit
  ReadsAll [] (s ∷ strings) = ⊥
  ReadsAll (p ∷ array) [] = ⊥
  ReadsAll (p ∷ array) (s ∷ strings) =
      ((p' : XPointer) × (read_xpointee_as_string arg_max memory p ≡ ok (p', s)))
      × ReadsAll array strings

  read_again :
      (p p' : XPointer) (s : Option Bytes)
      → read_xpointee_as_string arg_max memory p ≡ ok (p', s)
      → read_xpointee_as_string arg_max memory p' ≡ ok (p', s)
  unfolding read_xpointee_as_string
  read_again p p' s h = ground arith

  -- The first place of a string, or the length.
  abbrev pub first_index : List (Option Bytes) → Option Bytes → ℕ
  first_index [] reference = 0
  first_index (s ∷ strings) reference =
      if is_same s reference then 0 else suc (first_index strings reference)

  -- An array with the strings, and an index.
  abbrev pub IsFoundAt : List (Option Bytes) → ℕ → Result (List XPointer × ℕ) → Type 0
  IsFoundAt strings index (fail code) = ⊥
  IsFoundAt strings index (ok (array, n)) = ReadsAll array strings × (n ≡ index)

  -- Where the strings of an array's entries can be read, find_xpointee returns the first index of
  -- the one that is looked for, or the array's length, and leaves an array with the same strings.
  pub find_xpointee-IsFoundAt :
      (array : List XPointer) (strings : List (Option Bytes)) (reference : Option Bytes)
      → ReadsAll array strings
      → IsFoundAt strings
          (first_index strings reference)
          (find_xpointee arg_max memory array reference)
  unfolding find_xpointee compare_xpointee_generic
  find_xpointee-IsFoundAt [] [] reference h = (tt, refl)
  find_xpointee-IsFoundAt [] (s ∷ strings) reference h = absurd h
  find_xpointee-IsFoundAt (p ∷ array) [] reference h = absurd h
  find_xpointee-IsFoundAt (p ∷ array) (s ∷ strings) reference ((p', h), hs) =
      elim (Bool-cases (is_same s reference)) [
        | inl e ↦ rw (h, e) (((p', read_again p p' s h), hs), refl)
        | inr e ↦
            rw (h, e)
              (go (find_xpointee arg_max memory array reference)
                (find_xpointee-IsFoundAt array strings reference hs))
      ]
    where
      go :
          (found : Result (List XPointer × ℕ))
          → IsFoundAt strings (first_index strings reference) found
          → IsFoundAt
              (s ∷ strings)
              (suc (first_index strings reference))
              (found >>= λ f. ok (p' ∷ f.0, suc f.1))
      go (ok (array', n)) k = (((p', read_again p p' s h), k.0), ap suc k.1)
      go (fail code) k = k
