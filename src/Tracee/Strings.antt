-- ===== src/Tracee/Strings.antt =====
-- `read_string` of proot/src/tracee/mem.c: a string is copied by process_vm_readv(2), by chunks that
-- do not cross a page, or else word by word by ptrace(2).
pub mod Parts
pub mod Whole
use doki_proot.Prelude.{
  ℕ, zero, suc, ◌+◌, ◌-◌, ◌/◌, ◌%◌, not, ◌&&◌, Option, none, some, [], ◌∷◌, ◌++◌, Bytes, length,
  take, ltb, ◌==◌, if◌then◌else◌, Result, ok, fail, ◌>>=◌, e_fault,
}
use doki_proot.Tracee.Mem.{Mem, bytes_at, to_word}

-- strnlen(3)
unfoldable pub nul_at : Bytes → ℕ
nul_at [] = 0
nul_at (c ∷ s) = let rest = nul_at s in if c == 0 then 0 else suc rest

-- The last word, of which only the first bytes are copied: what is copied, and the status.
unfoldable pub read_last : Mem → ℕ → ℕ → Result (Bytes × ℕ)
read_last mem n src = elim (bytes_at mem src 8) [
  | none ↦ fail e_fault
  | some word ↦ let first = take n word in ok (take (suc (nul_at first)) first, suc (nul_at first))
]

-- The full words, and then the trailing bytes.
unfoldable pub read_string_words : Mem → ℕ → ℕ → ℕ → Result (Bytes × ℕ)
read_string_words mem zero trailing src = read_last mem trailing src
read_string_words mem (suc n) trailing src =
    let again = read_string_words mem n trailing (to_word (src + 8)) in
    elim (bytes_at mem src 8) [
      | none ↦ fail e_fault
      | some word ↦
          if ltb (nul_at word) 8
          then ok (word, suc (nul_at word))
          else (again >>= λ (rest, status). ok (word ++ rest, 8 + status))
    ]

abbrev pub min : ℕ → ℕ → ℕ
min a b = if ltb a b then a else b

-- The chunks, behind what has been copied; `none` stands for `goto fallback`. `vm_read` is what
-- process_vm_readv reads. `fuel` is the number of chunks; each but the last copies a byte at least.
unfoldable pub read_chunks :
    (Mem → ℕ → ℕ → Bytes) → ℕ → Mem → ℕ → ℕ → ℕ → Bytes → Option (Bytes × ℕ)
read_chunks vm_read chunk_size mem src max_size zero before = none
read_chunks vm_read chunk_size mem src max_size (suc fuel) before =
    let offset = length before in
    let address = to_word (src + offset) in
    let size = min (chunk_size - address % chunk_size) (max_size - offset) in
    let got = vm_read mem address size in
    let again = read_chunks vm_read chunk_size mem src max_size fuel (before ++ got) in
    if ltb (nul_at got) (length got)
    then some (before ++ got, offset + nul_at got + 1)
    else if not (length got == size)
    then none
    else if ltb (offset + size) max_size
    then again
    else none

-- The bytes that are copied, and the status.
unfoldable pub read_string : (Mem → ℕ → ℕ → Bytes) → ℕ → Mem → ℕ → ℕ → Result (Bytes × ℕ)
read_string vm_read chunk_size mem src max_size =
    elim (read_chunks vm_read chunk_size mem src max_size (suc max_size) []) [
      | some found ↦ ok found
      | none ↦ read_string_words mem (max_size / 8) (max_size % 8) src
    ]
