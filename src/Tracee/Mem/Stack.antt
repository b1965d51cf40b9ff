-- ===== src/Tracee/Mem/Stack.antt =====
-- What alloc_mem of proot/src/tracee/mem.c gives lies on the stack.
use doki_proot.Prelude.{ℕ, ◌+◌, ◌<◌, ◌≡◌, ◌≢◌, arith}
use doki_proot.Tracee.Mem.{alloc_mem}

-- Memory that alloc_mem gives, from the original stack pointer on, and then again, with sizes that
-- are not 0: the first piece ends below the red zone, where the tracee's own data may begin, and
-- the second ends where the first begins, so that the pieces are disjoint and below the stack.
pub alloc_mem-IsBelow :
    (red_zone_size stack_pointer size1 size2 first second : ℕ)
    → 0 < size1
    → 0 < size2
    → first ≡ alloc_mem red_zone_size stack_pointer stack_pointer size1
    → first ≢ 0
    → second ≡ alloc_mem red_zone_size stack_pointer first size2
    → second ≢ 0
    → (first + size1 + red_zone_size ≡ stack_pointer) × (second + size2 ≡ first)
unfolding alloc_mem
alloc_mem-IsBelow red_zone_size stack_pointer size1 size2 first second p q e a f b = ground arith
