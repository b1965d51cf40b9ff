-- ===== src/Syscall/Heap/Break.antt =====
-- The emulated heap of proot/src/syscall/heap.c is a program break.
use doki_proot.Prelude.{
  ℕ, ◌+◌, ◌≤◌, ◌<◌, ◌≡◌, refl, ◌∙◌, Bool, false, not, ◌&&◌, List, [], ◌∷◌, All, ltb, ◌==◌,
  if◌then◌else◌, arith,
}
use mathlib.Core.Path.{ap₂}
use doki_proot.Syscall.Heap.{
  Heap, heap_offset, word, translate_brk_enter, is_errno, translate_brk_exit, brk_call, by_request,
  brk_results,
}

-- A heap that has been mapped: its first page lies below its base, and its end in the address space.
pub record IsMapped (heap : Heap) : Type 0 where
  pub enabled : heap.disabled ≡ false
  pub offset_below : heap_offset ≤ heap.base
  pub fits : heap.base + heap.size < 18446744073709551616

abbrev pub program_break : Heap → ℕ
program_break heap = heap.base + heap.size

-- Whether the kernel has resized the mapping in its place.
abbrev pub in_place : ℕ → ℕ → Bool
in_place base result = not (is_errno result) && base == word (result + heap_offset)

-- The specification: the break moves to the address that is asked for, if it does not lie below
-- the base and the kernel grants it, and stays otherwise; the call returns the break.
unfoldable pub spec_brk : ℕ → ℕ → Bool → ℕ → ℕ
spec_brk base old granted address =
    if ltb address base then old else if granted then address else old

unfoldable pub spec_results : ℕ → ℕ → List (ℕ × ℕ) → List ℕ
spec_results base old [] = []
spec_results base old ((address, answer) ∷ calls) =
    let now = spec_brk base old (in_place base answer) address in now ∷ spec_results base now calls

-- A call on a mapped heap.
brk_call-IsMapped :
    (heap : Heap) (bss_end address answer : ℕ)
    → IsMapped heap
    → address < 18446744073709551616
    → let (heap', result) = brk_call heap bss_end address answer in
      IsMapped heap'
      × (heap'.base ≡ heap.base)
      × (program_break heap'
          ≡ spec_brk heap.base (program_break heap) (in_place heap.base answer) address)
      × (result ≡ program_break heap')
unfolding brk_call translate_brk_enter translate_brk_exit by_request spec_brk
brk_call-IsMapped heap bss_end address answer m small = ground arith

brk_results-from :
    (heap : Heap) (bss_end : ℕ) (calls : List (ℕ × ℕ))
    → IsMapped heap
    → All (λ (c : ℕ × ℕ). c.0 < 18446744073709551616) calls
    → brk_results heap bss_end calls ≡ spec_results heap.base (program_break heap) calls
unfolding brk_results spec_results
brk_results-from heap bss_end [] m small = refl
brk_results-from heap bss_end ((address, answer) ∷ calls) m small =
    let (m', base, now, result) = brk_call-IsMapped heap bss_end address answer m small.0 in
    let later =
      brk_results-from (brk_call heap bss_end address answer).0 bss_end calls m' small.1 in
    ap₂ ◌∷◌ (result ∙ now) (later ∙ ap₂ (λ b n. spec_results b n calls) base now)

brk_call-first :
    (heap : Heap) (bss_end answer : ℕ)
    → heap.disabled ≡ false
    → heap.base ≡ 0
    → is_errno answer ≡ false
    → answer + heap_offset < 18446744073709551616
    → let (heap', result) = brk_call heap bss_end 0 answer in
      IsMapped heap'
      × (heap'.base ≡ answer + heap_offset)
      × (program_break heap' ≡ answer + heap_offset)
      × (result ≡ answer + heap_offset)
unfolding brk_call translate_brk_enter translate_brk_exit by_request
brk_call-first heap bss_end answer enabled unmapped e fits = ground arith

-- A tracee that calls brk(0) first, which the kernel answers by a mapping, and then brk with any
-- addresses, sees what a program break shows: it starts one page behind the mapping, moves to the
-- address that is asked for exactly where this does not lie below the start and the kernel resizes
-- the mapping in its place, and stays otherwise. Every call returns the break, and no sum wraps
-- around.
pub brk_results-by_spec :
    (heap : Heap) (bss_end answer : ℕ) (calls : List (ℕ × ℕ))
    → heap.disabled ≡ false
    → heap.base ≡ 0
    → is_errno answer ≡ false
    → answer + heap_offset < 18446744073709551616
    → All (λ (c : ℕ × ℕ). c.0 < 18446744073709551616) calls
    → brk_results heap bss_end ((0, answer) ∷ calls)
      ≡ (answer + heap_offset) ∷ spec_results (answer + heap_offset) (answer + heap_offset) calls
unfolding brk_results
brk_results-by_spec heap bss_end answer calls enabled unmapped e fits small =
    let (m, base, now, result) = brk_call-first heap bss_end answer enabled unmapped e fits in
    let later = brk_results-from (brk_call heap bss_end 0 answer).0 bss_end calls m small in
    ap₂ ◌∷◌ result (later ∙ ap₂ (λ b n. spec_results b n calls) base now)
