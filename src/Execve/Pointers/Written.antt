-- ===== src/Execve/Pointers/Written.antt =====
-- What push_array_of_xpointers of proot/src/execve/aoxp.c writes shows the array's strings.
use doki_proot.Prelude.{
  ℕ, Errno, suc, ◌+◌, ◌-◌, ◌*◌, ◌%◌, ◌≤◌, ◌<◌, ◌≡◌, ◌⊎◌, ◌≢◌, refl, ◌∙◌, ap, subst, Option, none,
  some, List, [], ◌∷◌, ◌++◌, append_assoc, map, Bytes, c_string, c_string-ended, length,
  length-append, drop, drop-length-append, All, Option-cases, inl, inr, Result, ok, fail, e_2big,
  arith,
}
use doki_proot.Execve.Pointers.{
  XPointer, layout, count_cached, Block, write_block, to_remote, push_array_of_xpointers,
}

-- The string of an entry can stand in memory.
abbrev pub IsProper : XPointer → Type 0
IsProper p = elim p.cached [ none ↦ Unit | some s ↦ All (λ c. c ≢ 0) s ]

-- A word stands for an entry: it is the address, behind `start`, of the entry's string in the
-- written strings, or the tracee's own pointer.
abbrev pub Shows : ℕ → Bytes → XPointer → ℕ → Type 0
Shows start strings p word = elim p.cached [
  | none ↦ word ≡ p.remote
  | some s ↦
      (start ≤ word)
      × (word < start + length strings)
      × (c_string (drop (word - start) strings) ≡ s)
]

abbrev pub ShowsAll : ℕ → Bytes → List XPointer → List ℕ → Type 0
ShowsAll start strings [] [] = Unit
ShowsAll start strings [] (word ∷ words) = ⊥
ShowsAll start strings (p ∷ array) [] = ⊥
ShowsAll start strings (p ∷ array) (word ∷ words) =
    Shows start strings p word × ShowsAll start strings array words

abbrev pub size_of : List XPointer → ℕ
size_of [] = 0
size_of (p ∷ array) = elim p.cached [
  | none ↦ size_of array
  | some s ↦ suc (length s) + size_of array
]

layout-length : (total : ℕ) (array : List XPointer) → length (layout total array).1 ≡ size_of array
unfolding layout
layout-length total [] = refl
layout-length total (p ∷ array) = elim (Option-cases p.cached) [
  | inl e ↦ rw (e, layout-length total array) refl
  | inr (s, e) ↦
      let strings = (layout (total + suc (length s)) array).1 in
      rw e (
        length-append s (0 ∷ strings) ∙ omega (arith, layout-length (total + suc (length s)) array))
]

shows_written :
    (tracee_ptr base total : ℕ) (before s rest : Bytes)
    → total ≡ base + length before
    → tracee_ptr + total + suc (length s) < 18446744073709551616
    → All (λ c. c ≢ 0) s
    → let word = (total + tracee_ptr) % 18446744073709551616 in
      let strings = before ++ (s ++ 0 ∷ rest) in
      (tracee_ptr + base ≤ word)
      × (word < tracee_ptr + base + length strings)
      × (c_string (drop (word - (tracee_ptr + base)) strings) ≡ s)
shows_written tracee_ptr base total before s rest e room proper =
    let word : (total + tracee_ptr) % 18446744073709551616 - (tracee_ptr + base) ≡ length before =
      omega arith in
    (
      omega arith,
      omega (arith, length-append before (s ++ 0 ∷ rest), length-append s (0 ∷ rest)),
      rw (word, drop-length-append before (s ++ 0 ∷ rest)) (c_string-ended s rest proper),
    )

-- With `before` the strings that stand before those of the rest of an array.
layout-shown :
    (tracee_ptr base : ℕ) (before : Bytes) (array : List XPointer) (total : ℕ)
    → total ≡ base + length before
    → tracee_ptr + total + size_of array < 18446744073709551616
    → All IsProper array
    → ShowsAll
        (tracee_ptr + base)
        (before ++ (layout total array).1)
        array
        (map (to_remote tracee_ptr) (layout total array).0)
unfolding layout
layout-shown tracee_ptr base before [] total same room proper = tt
layout-shown tracee_ptr base before (p ∷ array) total same room proper =
    elim (Option-cases p.cached) [
      | inl e ↦ rw e (
        refl,
        layout-shown tracee_ptr base before array total same (ground (arith, e, room)) proper.1,
      )
      | inr (s, e) ↦
          let (laid, rest) = layout (total + suc (length s)) array in
          let room' : tracee_ptr + total + (suc (length s) + size_of array) < 18446744073709551616 =
            rw e at room in
          let later =
            layout-shown tracee_ptr base (before ++ (s ++ 0 ∷ [])) array (total + suc (length s))
              (omega (arith, length-append before (s ++ 0 ∷ []), length-append s (0 ∷ [])))
              (omega arith) proper.1 in
          let joined : (before ++ (s ++ 0 ∷ [])) ++ rest ≡ before ++ (s ++ 0 ∷ rest) =
            append_assoc before (s ++ 0 ∷ []) rest
            ∙ ap (λ l. before ++ l) (append_assoc s (0 ∷ []) rest) in
          rw e (
            shows_written tracee_ptr base total before s rest same (omega arith) (rw e at proper.0),
            subst (λ l. ShowsAll (tracee_ptr + base) l array (map (to_remote tracee_ptr) laid))
                joined later,
          )
    ]

-- A block that an array has been written to: its words show the entries of the array.
abbrev pub IsWritten : List XPointer → Option Block → Type 0
IsWritten array none = count_cached array ≡ 0
IsWritten array (some block) =
    ShowsAll (block.tracee_ptr + length array * 8) block.strings array block.pod_array

abbrev pub block_size : List XPointer → ℕ
block_size array = length array * 8 + size_of array

-- What writing a block does not fail at.
abbrev pub IsStored : (Block → Option Errno) → Option Block → Type 0
IsStored writev_data none = Unit
IsStored writev_data (some block) = writev_data block ≡ none

-- The outcome of pushing an array. It fails only where no memory is given, or where a block that
-- shows the array cannot be written.
abbrev pub IsPushed :
    (ℕ → ℕ) → (Block → Option Errno) → List XPointer → Result (Option Block) → Type 0
IsPushed alloc_mem writev_data array (ok written) =
    IsWritten array written × IsStored writev_data written
IsPushed alloc_mem writev_data array (fail code) =
    ((code ≡ e_2big) × (alloc_mem (block_size array) ≡ 0))
    ⊎ ((block : Block) × (writev_data block ≡ some code) × IsWritten array (some block))

write_block-IsPushed :
    (alloc_mem : ℕ → ℕ) (writev_data : Block → Option Errno) (array : List XPointer) (block : Block)
    → IsWritten array (some block)
    → IsPushed alloc_mem writev_data array (write_block writev_data block)
unfolding write_block
write_block-IsPushed alloc_mem writev_data array block w = go (writev_data block) refl
  where
    go :
        (o : Option Errno)
        → writev_data block ≡ o
        → IsPushed alloc_mem writev_data array
            (elim o [ none ↦ ok (some block) | some code ↦ fail code ])
    go none e = (w, e)
    go (some code) e = inr (block, e, w)

-- An array whose strings have no NUL bytes, not all entries of which are strings, and memory that
-- is allocated below 2^64: pushing the array fails only by -E2BIG where no memory is given, or by
-- the error of writev_data for a block as below. Else the array has no strings and nothing is
-- written, or the words of the block that is written are, entry by entry, the tracee's own
-- pointers, and for each string the address of a copy of it, with its NUL byte, among the bytes
-- that are written behind the words.
pub push_array_of_xpointers-IsPushed :
    (alloc_mem : ℕ → ℕ) (writev_data : Block → Option Errno) (array : List XPointer)
    → All IsProper array
    → count_cached array < length array
    → alloc_mem (block_size array) + block_size array < 18446744073709551616
    → IsPushed alloc_mem writev_data array (push_array_of_xpointers alloc_mem writev_data array)
unfolding push_array_of_xpointers
push_array_of_xpointers-IsPushed alloc_mem writev_data array proper some_pointer room =
    let n = length array * 8 in
    let shown =
      layout-shown (alloc_mem (block_size array)) n [] array n (omega arith) (omega arith) proper in
    let block : Block = record {
      tracee_ptr = alloc_mem (block_size array);
      pod_array = map (to_remote (alloc_mem (block_size array))) (layout n array).0;
      strings = (layout n array).1;
    } in
    rw (layout-length n array)
      (ground (arith, write_block-IsPushed alloc_mem writev_data array block shown, some_pointer))
