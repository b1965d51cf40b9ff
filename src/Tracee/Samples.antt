-- ===== src/Tracee/Samples.antt =====
-- Witnesses of the theorems on proot/src/tracee: eleven bytes are copied to zeroed memory and read
-- back, where the system calls that copy stop after five bytes or copy nothing; a string in such
-- memory; and two pieces of the stack.
use doki_proot.Prelude.{
  ℕ, zero, suc, ◌+◌, ◌≡◌, refl, some, [], ◌∷◌, ◌++◌, Bytes, codes, ok, ◌>>=◌, arith,
}
use doki_proot.Tracee.Mem.{Mem, overwrite, write_data, read_data, writev_data}
use doki_proot.Tracee.Mem.Words.{IsMapped, Holds, Holds-overwrite}
use doki_proot.Tracee.Mem.Reads.{IsTruthful}
use doki_proot.Tracee.Mem.Copies.{writev_data-overwrite, read_data-write_data}
use doki_proot.Tracee.Strings.{read_string}
use doki_proot.Tracee.Strings.Whole.{IsWhole, read_string-IsWhole}

abbrev zeros : Mem
zeros = λ address. some 0

zeros-IsMapped : (n address : ℕ) → IsMapped zeros address n
zeros-IsMapped zero address = tt
zeros-IsMapped (suc n) address = ((0, refl), zeros-IsMapped n (address + 1))

abbrev five : Mem → ℕ → Bytes → ℕ
five mem dest src = 5

abbrev nothing : Mem → ℕ → ℕ → Bytes
nothing mem src size = []

nothing-IsTruthful : IsTruthful nothing
nothing-IsTruthful mem src size = tt

writev_data-overwrite_example :
    writev_data five zeros 4096 (codes "hello" ∷ codes " world" ∷ [])
    ≡ ok (overwrite zeros 4096 (codes "hello world"))
writev_data-overwrite_example =
    writev_data-overwrite five zeros 4096 (codes "hello" ∷ codes " world" ∷ []) (omega arith)
      (zeros-IsMapped 19 4096)

read_data-write_data_example :
    (write_data five zeros 4096 (codes "hello world") >>= λ mem. read_data nothing mem 4096 11)
    ≡ ok (codes "hello world")
read_data-write_data_example =
    read_data-write_data five nothing zeros 4096 (codes "hello world") nothing-IsTruthful
      (omega arith) (zeros-IsMapped 16 4096)

abbrev greeting : Mem
greeting = overwrite zeros 4096 (codes "hello, you" ++ (0 ∷ codes "never"))

greeting-Holds : Holds greeting 4096 (codes "hello, you" ++ (0 ∷ codes "never"))
greeting-Holds =
    Holds-overwrite zeros [] (codes "hello, you" ++ (0 ∷ codes "never")) 4096 4096 (omega arith)

read_string-IsWhole_example :
    IsWhole (codes "hello, you") (read_string nothing 1024 greeting 4096 100)
read_string-IsWhole_example =
    read_string-IsWhole nothing 1024 greeting 4096 100 (codes "hello, you") (codes "never")
      nothing-IsTruthful (omega arith) (omega arith) (omega arith) (omega arith) greeting-Holds
