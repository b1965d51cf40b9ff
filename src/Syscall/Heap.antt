-- ===== src/Syscall/Heap.antt =====
-- The emulation of brk(2) by mmap and mremap, of proot/src/syscall/heap.c. The registers are
-- arguments and results: `enter` chooses the system call that is made instead, and `exit` reads
-- the kernel's answer.
pub mod Break
mod Samples
use doki_proot.Prelude.{
  ℕ, ◌+◌, ◌-◌, ◌%◌, Bool, true, List, [], ◌∷◌, not, ◌||◌, ◌&&◌, ltb, ◌==◌, if◌then◌else◌,
}

-- tracee->heap
pub record Heap : Type 0 where
  pub base : ℕ
  pub size : ℕ
  pub disabled : Bool

-- heap_offset, on a system with pages of 4 KiB.
abbrev pub heap_offset : ℕ
heap_offset = 4096

abbrev pub word : ℕ → ℕ
word n = n % 18446744073709551616

-- Unsigned subtraction.
abbrev pub minus : ℕ → ℕ → ℕ
minus a b = word (a + 18446744073709551616 - b)

-- The system call that is made: that of the tracee, none, or one in its place.
pub data Request : Type 0 where
  brk : Request
  void : Request
  mmap : ℕ → ℕ → Request
  mremap : ℕ → ℕ → ℕ → Request

-- `bss_end` is the end of the last mapping of the program.
unfoldable pub translate_brk_enter : Heap → ℕ → ℕ → Request
translate_brk_enter heap bss_end new_brk_address =
    if heap.disabled
    then brk
    else if heap.base == 0
    then (if not (new_brk_address == 0) then brk else mmap bss_end heap_offset)
    else if ltb new_brk_address heap.base
    then void
    else mremap (minus heap.base heap_offset) (word (heap.size + heap_offset))
        (word (minus new_brk_address heap.base + heap_offset))

-- (int) result < 0 && (int) result > -4096
unfoldable pub is_errno : ℕ → Bool
is_errno result = ltb 4294963200 (result % 4294967296)

-- The heap, and the result that the tracee sees, by the system call that was made.
unfoldable pub by_request : Heap → ℕ → ℕ → Request → Heap × ℕ
unfolding is_errno
by_request heap original result void = (heap, word (heap.base + heap.size))
by_request heap original result (mmap address length) =
    if is_errno result
    then (heap, 0)
    else (record heap { base = word (result + heap_offset); size = 0 }, word (result + heap_offset))
by_request heap original result (mremap old_address old_size new_size) =
    if is_errno result || not (heap.base == word (result + heap_offset))
    then (heap, word (heap.base + heap.size))
    else (
      record heap { size = minus new_size heap_offset },
      word (heap.base + minus new_size heap_offset),
    )
by_request heap original result brk =
    ((if result == original then record heap { disabled = true } else heap), result)

-- `original` is the tracee's argument.
unfoldable pub translate_brk_exit : Heap → Request → ℕ → ℕ → Heap × ℕ
unfolding by_request
translate_brk_exit heap request original result =
    if heap.disabled then (heap, result) else by_request heap original result request

-- A whole call, in which the kernel answers by `result`.
unfoldable pub brk_call : Heap → ℕ → ℕ → ℕ → Heap × ℕ
unfolding translate_brk_enter translate_brk_exit
brk_call heap bss_end new_brk_address result =
    translate_brk_exit heap (translate_brk_enter heap bss_end new_brk_address) new_brk_address
      result

-- The results of calls in order, each an address and the kernel's answer.
unfoldable pub brk_results : Heap → ℕ → List (ℕ × ℕ) → List ℕ
unfolding brk_call
brk_results heap bss_end [] = []
brk_results heap bss_end ((address, answer) ∷ calls) =
    let (heap', result) = brk_call heap bss_end address answer in
    result ∷ brk_results heap' bss_end calls
