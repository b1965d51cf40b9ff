-- ===== src/Syscall/Chain/Samples.antt =====
-- A chain of two system calls of proot/src/syscall/chain.c, as an instance of the theorem about it.
use doki_proot.Prelude.{ℕ, suc, false, none, [], ◌∷◌, refl}
use doki_proot.Syscall.Chain.{
  Args, Chained, inactive, Chain, Regs, force_chain_final_result, run_chain,
}
use doki_proot.Syscall.Chain.Run.{IsDone, register_all, run_chain-registered}

abbrev args_of : ℕ → Args
args_of n = record {
  sysarg_1 = n;
  sysarg_2 = 0;
  sysarg_3 = 0;
  sysarg_4 = 0;
  sysarg_5 = 0;
  sysarg_6 = 0;
}

abbrev first_call : Chained
first_call = record { sysnum = 3; sysargs = args_of 7 }

abbrev second_call : Chained
second_call = record { sysnum = 4; sysargs = args_of 8 }

abbrev no_chain : Chain
no_chain = record {
  syscalls = none;
  force_final_result = false;
  final_result = 0;
  sysnum_workaround_state = inactive;
}

abbrev some_regs : Regs
some_regs = record {
  args = args_of 0;
  systrap_num = 1;
  sysarg_result = 5;
  instr_pointer = 1000;
  restore_original_regs = false;
  restart_at_exit = false;
}

run_chain-registered_example :
    IsDone suc
      (first_call ∷ second_call ∷ [])
      (force_chain_final_result (register_all no_chain (first_call ∷ second_call ∷ [])) 42)
      (run_chain suc 2
        (λ regs. record regs { sysarg_result = 0 })
        3
        (force_chain_final_result (register_all no_chain (first_call ∷ second_call ∷ [])) 42)
        some_regs)
run_chain-registered_example =
    run_chain-registered suc 2 (λ regs. record regs { sysarg_result = 0 }) first_call
      (second_call ∷ []) no_chain 42 some_regs refl
