-- ===== src/Execve/Pointers.antt =====
-- Arrays of pointers into a tracee's memory, with the strings that replace them, of
-- proot/src/execve/aoxp.c, as they are used for argv[] and envp[]: pointees are strings. What is
-- read from the tracee's memory and whether it can be written are parameters; the tracer's memory
-- does not run out.
pub mod Written
pub mod Find
use doki_proot.Prelude.{
  ℕ, Errno, zero, suc, ◌+◌, ◌-◌, ◌*◌, ◌%◌, Bool, true, false, not, ◌&&◌, ◌||◌, Option, none, some,
  List, [], ◌∷◌, ◌++◌, map, Bytes, length, take, drop, leb, ltb, ◌==◌, str_eq, if◌then◌else◌,
  Result, ok, fail, ◌>>=◌, e_2big, e_nomem, out_of_fuel, assertion_failed,
}
use doki_proot.Sysvipc.{ℤ, pos, negsuc}

-- struct mixed_pointer
pub record XPointer : Type 0 where
  pub remote : ℕ
  pub cached : Option Bytes

abbrev pub null : XPointer
null = record { remote = 0; cached = none }

-- What aoxp.c reads of a tracee: a word, and a string, by their addresses.
pub record Memory : Type 0 where
  pub peek_word : ℕ → Result ℕ
  pub read_string : ℕ → Result Bytes

abbrev pub is_same : Option Bytes → Option Bytes → Bool
is_same none none = true
is_same none (some reference) = false
is_same (some object) none = false
is_same (some object) (some reference) = str_eq object reference

module _ (arg_max : ℕ) (memory : Memory) where
  -- The string that an entry points to, and the entry with it cached; a null pointer has none.
  unfoldable pub read_xpointee_as_string : XPointer → Result (XPointer × Option Bytes)
  read_xpointee_as_string p = elim p.cached [
    | some s ↦ ok (p, some s)
    | none ↦
        if p.remote == 0
        then ok (p, none)
        else (memory.read_string p.remote >>= λ s.
            if leb arg_max (suc (length s))
            then fail e_nomem
            else ok (record p { cached = some s }, some s))
  ]

  unfoldable pub sizeof_xpointee_as_string : XPointer → Result (XPointer × ℕ)
  unfolding read_xpointee_as_string
  sizeof_xpointee_as_string p = read_xpointee_as_string p >>= λ found.
      ok (found.0, elim found.1 [ none ↦ 0 | some s ↦ suc (length s) ])

  unfoldable pub compare_xpointee_generic : XPointer → Option Bytes → Result (XPointer × Bool)
  unfolding read_xpointee_as_string
  compare_xpointee_generic p local_reference =
      read_xpointee_as_string p >>= λ found. ok (found.0, is_same found.1 local_reference)

  -- The array with what has been cached, and the index: the array's length if there is none.
  unfoldable pub find_xpointee : List XPointer → Option Bytes → Result (List XPointer × ℕ)
  unfolding compare_xpointee_generic
  find_xpointee [] local_reference = ok ([], 0)
  find_xpointee (p ∷ array) local_reference =
      let again = find_xpointee array local_reference in
      compare_xpointee_generic p local_reference >>= λ compared.
      if compared.1
      then ok (compared.0 ∷ array, 0)
      else (again >>= λ found. ok (compared.0 ∷ found.0, suc found.1))

  -- The entries up to the null pointer, from an address on; `fuel` bounds their number.
  unfoldable pub fetch_from : ℕ → ℕ → Result (List XPointer)
  fetch_from zero address = fail out_of_fuel
  fetch_from (suc fuel) address =
      let again = fetch_from fuel (address + 8) in
      memory.peek_word address >>= λ pointer.
      if pointer == 0
      then ok (null ∷ [])
      else (again >>= λ array. ok (record { remote = pointer; cached = none } ∷ array))

unfoldable pub write_xpointee_as_string : List XPointer → ℕ → Bytes → Result (List XPointer)
write_xpointee_as_string [] index string = fail assertion_failed
write_xpointee_as_string (p ∷ array) zero string = ok (record p { cached = some string } ∷ array)
write_xpointee_as_string (p ∷ array) (suc index) string =
    let again = write_xpointee_as_string array index string in again >>= λ array'. ok (p ∷ array')

unfoldable pub write_xpointees : List XPointer → ℕ → List Bytes → Result (List XPointer)
unfolding write_xpointee_as_string
write_xpointees array index [] = ok array
write_xpointees array index (object ∷ objects) =
    write_xpointee_as_string array index object >>= λ array'.
    write_xpointees array' (suc index) objects

unfoldable pub nulls : ℕ → List XPointer
nulls zero = []
nulls (suc n) = null ∷ nulls n

-- Entries are inserted at the index, or those before it are removed.
unfoldable pub resize_array_of_xpointers : List XPointer → ℕ → ℤ → Result (List XPointer)
unfolding nulls
resize_array_of_xpointers array index (pos n) =
    if not (ltb index (length array))
    then fail assertion_failed
    else ok (take index array ++ (nulls n ++ drop index array))
resize_array_of_xpointers array index (negsuc n) =
    if not (ltb index (length array)) || ltb index (suc n)
    then fail assertion_failed
    else ok (take (index - suc n) array ++ drop index array)

-- Each string is put behind those before it: the entries with the offsets of their strings, and
-- the strings with their NUL bytes.
unfoldable pub layout : ℕ → List XPointer → List XPointer × Bytes
layout total_size [] = ([], [])
layout total_size (p ∷ array) = elim p.cached [
  | none ↦ let (laid, strings) = layout total_size array in (p ∷ laid, strings)
  | some s ↦
      let (laid, strings) = layout (total_size + suc (length s)) array in
      (record p { remote = total_size } ∷ laid, s ++ 0 ∷ strings)
]

unfoldable pub count_cached : List XPointer → ℕ
count_cached [] = 0
count_cached (p ∷ array) =
    let rest = count_cached array in elim p.cached [ none ↦ rest | some s ↦ suc rest ]

-- What is written into the tracee's memory: words, and then bytes.
pub record Block : Type 0 where
  pub tracee_ptr : ℕ
  pub pod_array : List ℕ
  pub strings : Bytes

abbrev pub to_remote : ℕ → XPointer → ℕ
to_remote tracee_ptr p = elim p.cached [
  | none ↦ p.remote
  | some s ↦ (p.remote + tracee_ptr) % 18446744073709551616
]

-- `writev_data` with a block, and its error if it fails.
unfoldable pub write_block : (Block → Option Errno) → Block → Result (Option Block)
write_block writev_data block = elim (writev_data block) [
  | none ↦ ok (some block)
  | some code ↦ fail code
]

-- The block that is written, if anything has changed. `alloc_mem` gives the address of a size, or
-- 0, and `writev_data` the error of writing a block, if there is one.
unfoldable pub push_array_of_xpointers :
    (ℕ → ℕ) → (Block → Option Errno) → List XPointer → Result (Option Block)
unfolding layout count_cached write_block
push_array_of_xpointers alloc_mem writev_data array =
    let words_size = length array * 8 in
    let (laid, strings) = layout words_size array in
    let tracee_ptr = alloc_mem (words_size + length strings) in
    if count_cached array == 0
    then ok none
    else if not (ltb (count_cached array) (length array))
    then fail assertion_failed
    else if tracee_ptr == 0
    then fail e_2big
    else write_block writev_data (record {
      tracee_ptr = tracee_ptr;
      pod_array = map (to_remote tracee_ptr) laid;
      strings = strings;
    })
