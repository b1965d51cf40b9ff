-- ===== src/Syscall/Heap/Samples.antt =====
-- A program break of proot/src/syscall/heap.c, as an instance of the theorem about it.
use doki_proot.Prelude.{◌≡◌, refl, false, [], ◌∷◌, arith}
use doki_proot.Syscall.Heap.{Heap, brk_results, is_errno}
use doki_proot.Syscall.Heap.Break.{spec_results, spec_brk, brk_results-by_spec}

abbrev unmapped : Heap
unmapped = record { base = 0; size = 0; disabled = false }

-- brk(0), then a growth that is granted, one that the kernel refuses (-ENOMEM), and an address
-- below the start.
brk_results-by_spec_example :
    brk_results unmapped 4194304
      ((0, 4194304) ∷ (4206592, 4194304) ∷ (4300800, 18446744073709551604) ∷ (5, 0) ∷ [])
    ≡ 4198400
      ∷ spec_results 4198400 4198400
          ((4206592, 4194304) ∷ (4300800, 18446744073709551604) ∷ (5, 0) ∷ [])
unfolding is_errno
brk_results-by_spec_example =
    brk_results-by_spec unmapped 4194304 4194304
      ((4206592, 4194304) ∷ (4300800, 18446744073709551604) ∷ (5, 0) ∷ []) refl refl refl
      (omega arith) (omega arith)

break_moves :
    spec_results 4198400 4198400
      ((4206592, 4194304) ∷ (4300800, 18446744073709551604) ∷ (5, 0) ∷ [])
    ≡ 4206592 ∷ 4206592 ∷ 4206592 ∷ []
unfolding spec_results spec_brk is_errno
break_moves = refl
