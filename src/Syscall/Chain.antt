-- ===== src/Syscall/Chain.antt =====
-- Chains of system calls that the tracee has not asked for, of proot/src/syscall/chain.c. `none`
-- stands for an assertion that fails; memory does not run out.
pub mod Run
mod Samples
use doki_proot.Prelude.{
  ℕ, ◌-◌, ◌+◌, ◌%◌, suc, zero, Bool, true, false, Option, none, some, List, [], ◌∷◌, ◌++◌,
  if◌then◌else◌,
}

-- The arguments of a system call.
pub record Args : Type 0 where
  pub sysarg_1 : ℕ
  pub sysarg_2 : ℕ
  pub sysarg_3 : ℕ
  pub sysarg_4 : ℕ
  pub sysarg_5 : ℕ
  pub sysarg_6 : ℕ

-- struct chained_syscall
pub record Chained : Type 0 where
  pub sysnum : ℕ
  pub sysargs : Args

pub data WorkaroundState : Type 0 where
  inactive process_faulty_call process_replaced_call : WorkaroundState

-- tracee->chain
pub record Chain : Type 0 where
  pub syscalls : Option (List Chained)
  pub force_final_result : Bool
  pub final_result : ℕ
  pub sysnum_workaround_state : WorkaroundState

-- The registers that are used here, and two flags of the tracee.
pub record Regs : Type 0 where
  pub args : Args
  pub systrap_num : ℕ
  pub sysarg_result : ℕ
  pub instr_pointer : ℕ
  pub restore_original_regs : Bool
  pub restart_at_exit : Bool

abbrev registered : Option (List Chained) → List Chained
registered none = []
registered (some l) = l

-- The last argument is `at_front`.
unfoldable pub register_chained_syscall_internal : Chain → Chained → Bool → Chain
register_chained_syscall_internal chain syscall true = record chain {
  syscalls = some (syscall ∷ registered chain.syscalls);
}
register_chained_syscall_internal chain syscall false = record chain {
  syscalls = some (registered chain.syscalls ++ syscall ∷ []);
}

unfoldable pub register_chained_syscall : Chain → Chained → Chain
unfolding register_chained_syscall_internal
register_chained_syscall chain syscall = register_chained_syscall_internal chain syscall false

unfoldable pub force_chain_final_result : Chain → ℕ → Chain
force_chain_final_result chain forced_result = record chain {
  force_final_result = true;
  final_result = forced_result;
}

-- The original system call, again at the end of the chain.
unfoldable pub restart_original_syscall : Chain → Chained → Chain
unfolding register_chained_syscall
restart_original_syscall chain original = register_chained_syscall chain original

-- The current system call, next.
unfoldable pub restart_current_syscall_as_chained : Chain → Chained → Option Chain
unfolding register_chained_syscall_internal
restart_current_syscall_as_chained chain current = elim chain.sysnum_workaround_state [
  | inactive ↦ some (
      register_chained_syscall_internal
        (record chain { sysnum_workaround_state = process_faulty_call }) current true)
  | process_faulty_call ↦ none
  | process_replaced_call ↦ none
]

module _ (detranslate_sysnum : ℕ → ℕ) (systrap_size : ℕ) where
  unfoldable pub chain_next_syscall : Chain → Regs → Option (Chain × Regs)
  chain_next_syscall chain regs = elim chain.syscalls [
    | none ↦ none
    | some [] ↦ some (
      record chain { syscalls = none; force_final_result = false; final_result = 0 },
      (if chain.force_final_result
          then record regs { sysarg_result = chain.final_result }
          else regs),
    )
    | some (syscall ∷ rest) ↦ some (
      record chain { syscalls = some rest },
      record regs {
        args = syscall.sysargs;
        systrap_num = detranslate_sysnum syscall.sysnum;
        instr_pointer =
            (regs.instr_pointer + 18446744073709551616 - systrap_size) % 18446744073709551616;
        restore_original_regs = false;
        restart_at_exit = true;
      },
    )
  ]

  -- The exits of system calls, as long as there is a chain: the registers by which the kernel
  -- makes the calls of the chain, in order, and what is left at its end. `kernel` makes a call.
  unfoldable pub run_chain : (Regs → Regs) → ℕ → Chain → Regs → Option (List Regs × Chain × Regs)
  unfolding chain_next_syscall
  run_chain kernel zero chain regs = none
  run_chain kernel (suc fuel) chain regs = elim (chain_next_syscall chain regs) [
    | none ↦ none
    | some (chain', regs') ↦ elim chain'.syscalls [
      | none ↦ some ([], chain', regs')
      | some rest ↦ elim (run_chain kernel fuel chain' (kernel regs')) [
        | none ↦ none
        | some (made, chain'', regs'') ↦ some (regs' ∷ made, chain'', regs'')
      ]
    ]
  ]
