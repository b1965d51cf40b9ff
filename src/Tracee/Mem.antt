-- ===== src/Tracee/Mem.antt =====
-- Copying to and from a tracee's memory: `write_data`,
-- `writev_data` and `read_data` of proot/src/tracee/mem.c,
-- by process_vm_writev(2) and process_vm_readv(2), and word by word by ptrace(2) where these do not
-- copy everything. Words have 8 bytes; a word is the list of its bytes in the order of memory. The
-- workaround for a broken PTRACE_POKEDATA is not modelled.
pub mod Words
pub mod Reads
pub mod Copies
pub mod Stack
use doki_proot.Prelude.{
  ℕ, zero, suc, ◌+◌, ◌-◌, ◌*◌, ◌/◌, ◌%◌, Bool, not, ◌&&◌, Option, none, some, List, [], ◌∷◌, ◌++◌,
  Bytes, char_at, length, take, drop, ltb, leb, ◌==◌, if◌then◌else◌, Result, ok, fail, ◌>>=◌,
  e_fault,
}

-- The byte at an address, where there is memory.
abbrev pub Mem : Type 0
Mem = ℕ → Option ℕ

-- Bytes that follow each other from an address on.
unfoldable pub bytes_at : Mem → ℕ → ℕ → Option Bytes
bytes_at mem address zero = some []
bytes_at mem address (suc n) = elim (mem address) [
  | none ↦ none
  | some c ↦ elim (bytes_at mem (address + 1) n) [ none ↦ none | some s ↦ some (c ∷ s) ]
]

-- Memory with bytes written from an address on.
unfoldable pub overwrite : Mem → ℕ → Bytes → Mem
overwrite mem address s x =
    if leb address x && ltb x (address + length s) then some (char_at s (x - address)) else mem x

-- ptrace(PTRACE_POKEDATA); ptrace(PTRACE_PEEKDATA) is `bytes_at` with eight bytes.
unfoldable pub poke_data : Mem → ℕ → Bytes → Result Mem
unfolding overwrite bytes_at
poke_data mem address word = elim (bytes_at mem address 8) [
  | none ↦ fail e_fault
  | some old ↦ ok (overwrite mem address word)
]

abbrev pub to_word : ℕ → ℕ
to_word n = n % 18446744073709551616

-- The full words, `src` being what is left to copy.
unfoldable pub write_words : ℕ → Mem → ℕ → Bytes → Result Mem
write_words zero mem dest src = ok mem
write_words (suc n) mem dest src =
    poke_data mem dest (take 8 src) >>= λ mem'. write_words n mem' (to_word (dest + 8)) (drop 8 src)

-- The last word, of which only the first bytes are overwritten.
unfoldable pub write_trailing : Mem → ℕ → Bytes → Result Mem
write_trailing mem dest src = if length src == 0 then ok mem else elim (bytes_at mem dest 8) [
  | none ↦ fail e_fault
  | some word ↦ poke_data mem dest (src ++ drop (length src) word)
]

-- `vm_written` is the number of bytes that process_vm_writev writes.
unfoldable pub write_data : (Mem → ℕ → Bytes → ℕ) → Mem → ℕ → Bytes → Result Mem
write_data vm_written mem dest src =
    let written = vm_written mem dest src in
    let full = length src / 8 in
    let mem' = overwrite mem dest (take written src) in
    if written == length src
    then ok mem'
    else (write_words full mem' dest src >>= λ mem''.
        write_trailing mem'' (to_word (dest + full * 8)) (drop (full * 8) src))

abbrev pub gathered : List Bytes → Bytes
gathered [] = []
gathered (buffer ∷ buffers) = buffer ++ gathered buffers

-- The buffers one after another.
unfoldable pub write_each : (Mem → ℕ → Bytes → ℕ) → Mem → ℕ → List Bytes → Result Mem
write_each vm_written mem dest [] = ok mem
write_each vm_written mem dest (buffer ∷ buffers) =
    write_data vm_written mem dest buffer >>= λ mem'.
    write_each vm_written mem' (to_word (dest + length buffer)) buffers

unfoldable pub writev_data : (Mem → ℕ → Bytes → ℕ) → Mem → ℕ → List Bytes → Result Mem
writev_data vm_written mem dest buffers =
    let written = vm_written mem dest (gathered buffers) in
    let mem' = overwrite mem dest (take written (gathered buffers)) in
    if written == length (gathered buffers)
    then ok mem'
    else write_each vm_written mem' dest buffers

unfoldable pub read_words : ℕ → Mem → ℕ → Result Bytes
read_words zero mem src = ok []
read_words (suc n) mem src =
    let again = read_words n mem (to_word (src + 8)) in
    elim (bytes_at mem src 8) [
      | none ↦ fail e_fault
      | some word ↦ again >>= λ rest. ok (word ++ rest)
    ]

unfoldable pub read_trailing : Mem → ℕ → ℕ → Result Bytes
read_trailing mem src n =
    if n == 0
    then ok []
    else elim (bytes_at mem src 8) [ none ↦ fail e_fault | some word ↦ ok (take n word) ]

-- `vm_read` is what process_vm_readv reads.
unfoldable pub read_data : (Mem → ℕ → ℕ → Bytes) → Mem → ℕ → ℕ → Result Bytes
read_data vm_read mem src size =
    let full = size / 8 in
    if length (vm_read mem src size) == size
    then ok (vm_read mem src size)
    else (read_words full mem src >>= λ words.
        read_trailing mem (to_word (src + full * 8)) (size % 8) >>= λ trailing.
        ok (words ++ trailing))

-- The stack pointer's new value, or 0: `size` bytes, and the red zone if the stack pointer has not
-- been moved, are taken from the stack. Sizes are not negative.
unfoldable pub alloc_mem : ℕ → ℕ → ℕ → ℕ → ℕ
alloc_mem red_zone_size original_stack_pointer stack_pointer size =
    let all = if stack_pointer == original_stack_pointer then size + red_zone_size else size in
    if not (all == 0) && leb stack_pointer all then 0 else stack_pointer - all
