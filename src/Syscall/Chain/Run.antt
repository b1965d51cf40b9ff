-- ===== src/Syscall/Chain/Run.antt =====
-- A chain of system calls of proot/src/syscall/chain.c runs to its end, in order.
use doki_proot.Prelude.{
  ℕ, suc, zero, ◌<◌, ◌≡◌, refl, ◌∙◌, ap, ◌-◌, ◌+◌, ◌%◌, true, false, Option, none, some, List, [],
  ◌∷◌, ◌++◌, append_assoc, append-nil, map, length, if◌then◌else◌, arith,
}
use mathlib.Core.Path.{ap₂}
use doki_proot.Syscall.Chain.{
  Args, Chained, Chain, Regs, register_chained_syscall, register_chained_syscall_internal,
  force_chain_final_result, chain_next_syscall, run_chain,
}

-- The calls that a list of registers makes.
abbrev pub made_calls : List Regs → List (ℕ × Args)
made_calls = map (λ (r : Regs). (r.systrap_num, r.args))

abbrev pub asked_calls : (ℕ → ℕ) → List Chained → List (ℕ × Args)
asked_calls detranslate_sysnum = map (λ (c : Chained). (detranslate_sysnum c.sysnum, c.sysargs))

-- A chain that has run makes the calls in order; then it is reset, and the result is forced.
abbrev pub IsDone : (ℕ → ℕ) → List Chained → Chain → Option (List Regs × Chain × Regs) → Type 0
IsDone detranslate_sysnum calls chain none = ⊥
IsDone detranslate_sysnum calls chain (some (made, chain', regs')) =
    (made_calls made ≡ asked_calls detranslate_sysnum calls)
    × (chain' ≡ record chain { syscalls = none; force_final_result = false; final_result = 0 })
    × (regs'.sysarg_result
        ≡ (if chain.force_final_result then chain.final_result else regs'.sysarg_result))

module _ (detranslate_sysnum : ℕ → ℕ) (systrap_size : ℕ) (kernel : Regs → Regs) where
  run_chain-IsDone :
      (fuel : ℕ) (calls : List Chained) (chain : Chain) (regs : Regs)
      → length calls < fuel
      → chain.syscalls ≡ some calls
      → IsDone detranslate_sysnum calls chain
          (run_chain detranslate_sysnum systrap_size kernel fuel chain regs)
  unfolding run_chain chain_next_syscall
  run_chain-IsDone zero calls chain regs n e = absurd (omega arith)
  run_chain-IsDone (suc fuel) [] chain regs n e = rw e (refl, refl, ground arith)
  run_chain-IsDone (suc fuel) (c ∷ calls) chain regs n e =
      let regs' = record regs {
        args = c.sysargs;
        systrap_num = detranslate_sysnum c.sysnum;
        instr_pointer =
            (regs.instr_pointer + 18446744073709551616 - systrap_size) % 18446744073709551616;
        restore_original_regs = false;
        restart_at_exit = true;
      } in
      let chain' = record chain { syscalls = some calls } in
      rw e (
        go regs' refl refl
          (run_chain detranslate_sysnum systrap_size kernel fuel chain' (kernel regs'))
          (run_chain-IsDone fuel calls chain' (kernel regs') (omega arith) refl))
    where
      go :
          (regs' : Regs)
          → regs'.systrap_num ≡ detranslate_sysnum c.sysnum
          → regs'.args ≡ c.sysargs
          → (o : Option (List Regs × Chain × Regs))
          → IsDone detranslate_sysnum calls (record chain { syscalls = some calls }) o
          → IsDone detranslate_sysnum
              (c ∷ calls)
              (record chain { syscalls = some (c ∷ calls) })
              (elim o [
                | none ↦ none
                | some (made, chain'', regs'') ↦ some (regs' ∷ made, chain'', regs'')
              ])
      go regs' num args none h = h
      go regs' num args (some (made, chain'', regs'')) (same, reset, result) =
          (ap₂ ◌∷◌ (ap₂ (λ n a. (n, a)) num args) same, reset, result)

-- Registering calls, in order.
unfoldable pub register_all : Chain → List Chained → Chain
register_all chain [] = chain
register_all chain (c ∷ calls) = register_all (register_chained_syscall chain c) calls

register_all-syscalls :
    (calls before : List Chained) (chain : Chain)
    → chain.syscalls ≡ some before
    → register_all chain calls ≡ record chain { syscalls = some (before ++ calls) }
unfolding register_all register_chained_syscall register_chained_syscall_internal
register_all-syscalls [] before chain e = rw (e, append-nil before) refl
register_all-syscalls (c ∷ calls) before chain e = rw e (
    register_all-syscalls calls (before ++ c ∷ [])
      (record chain { syscalls = some (before ++ c ∷ []) }) refl
    ∙ ap (λ l. record chain { syscalls = some l }) (append_assoc before (c ∷ []) calls))

register_all-fresh :
    (c : Chained) (calls : List Chained) (chain : Chain)
    → chain.syscalls ≡ none
    → (register_all chain (c ∷ calls)).syscalls ≡ some (c ∷ calls)
unfolding register_all register_chained_syscall register_chained_syscall_internal
register_all-fresh c calls chain e =
    ap (λ (r : Chain). r.syscalls)
      (register_all-syscalls calls (c ∷ []) (register_chained_syscall chain c) (first c chain e))
  where
    first :
        (c : Chained) (chain : Chain)
        → chain.syscalls ≡ none
        → (register_chained_syscall chain c).syscalls ≡ some (c ∷ [])
    first c chain e = rw e refl

-- Whatever the calls do to the registers: a first call and more that are registered while there is
-- no chain, and a forced result, lead to a run of the chain that makes these calls with their
-- numbers and arguments, in the order of their registration and each once, and then ends, with
-- the chain reset and the forced result in its register. Fuel for one more exit than there are
-- calls is enough.
pub run_chain-registered :
    (detranslate_sysnum : ℕ → ℕ) (systrap_size : ℕ) (kernel : Regs → Regs) (c : Chained)
    (calls : List Chained) (chain : Chain) (forced : ℕ) (regs : Regs)
    → chain.syscalls ≡ none
    → IsDone detranslate_sysnum
        (c ∷ calls)
        (force_chain_final_result (register_all chain (c ∷ calls)) forced)
        (run_chain detranslate_sysnum systrap_size kernel
          (suc (length (c ∷ calls)))
          (force_chain_final_result (register_all chain (c ∷ calls)) forced)
          regs)
unfolding force_chain_final_result
run_chain-registered detranslate_sysnum systrap_size kernel c calls chain forced regs e =
    run_chain-IsDone detranslate_sysnum systrap_size kernel (suc (length (c ∷ calls))) (c ∷ calls)
      (force_chain_final_result (register_all chain (c ∷ calls)) forced) regs (omega arith)
      (register_all-fresh c calls chain e)
