-- ===== src/Tracee/Event.antt =====
-- The loop on the stops of one tracee: handle_tracee_event and restart_tracee of
-- proot/src/tracee/event.c, and the stages of a system call in translate_syscall of
-- proot/src/syscall/syscall.c. The handlers of a system call, the extensions and the kernel are
-- seen by what they ask of this loop or answer (record Asks), which is any; `none` stands for an
-- assertion that fails or an exit of PRoot. The build is for x86_64; registers can be read and
-- written, the number of the system call included.
mod Answers
mod Handle
mod Kernel
mod Translated
mod Stops
mod Reach
mod Child
mod Born
mod Accelerate
mod Samples
use doki_proot.Prelude.{
  ℕ, Bool, true, false, not, ◌&&◌, ◌||◌, Option, none, some, List, [], ◌∷◌, if◌then◌else◌,
}
use doki_proot.Ptrace.{Seccomp, disabled, disabling, enabled, Sigstop}
use doki_proot.Syscall.Chain.{Chain, Chained, Regs, register_chained_syscall, chain_next_syscall}

pub data RestartHow : Type 0 where
  no_restart ptrace_cont ptrace_syscall ptrace_singlestep ptrace_singleblock : RestartHow

unfoldable pub is_unset : RestartHow → Bool
is_unset no_restart = true
is_unset ptrace_cont = false
is_unset ptrace_syscall = false
is_unset ptrace_singlestep = false
is_unset ptrace_singleblock = false

unfoldable pub is_cont : RestartHow → Bool
is_cont no_restart = false
is_cont ptrace_cont = true
is_cont ptrace_syscall = false
is_cont ptrace_singlestep = false
is_cont ptrace_singleblock = false

unfoldable pub is_syscall : RestartHow → Bool
is_syscall no_restart = false
is_syscall ptrace_cont = false
is_syscall ptrace_syscall = true
is_syscall ptrace_singlestep = false
is_syscall ptrace_singleblock = false

unfoldable pub is_enabled : Seccomp → Bool
is_enabled disabled = false
is_enabled disabling = false
is_enabled enabled = true

unfoldable pub is_disabling : Seccomp → Bool
is_disabling disabled = false
is_disabling disabling = true
is_disabling enabled = false

-- The static and global variables of event.c.
pub record Tracer : Type 0 where
  pub seccomp_detected : Bool
  pub seccomp_after_ptrace_enter : Bool
  pub seccomp_after_ptrace_enter_checked : Bool
  pub deliver_sigtrap : Bool

-- The tracee as this loop sees it: `has_exe` is exe != NULL, `in_sysexit` is status != 0,
-- `is_void` whether the current system call is PR_void, `is_waiting` as_ptracer.wait_pid != 0.
pub record Traced : Type 0 where
  pub has_exe : Bool
  pub running : Bool
  pub terminated : Bool
  pub in_sysexit : Bool
  pub is_void : Bool
  pub restart_how : RestartHow
  pub last_restart_how : RestartHow
  pub seccomp : Seccomp
  pub sigstop : Sigstop
  pub sysexit_pending : Bool
  pub seccomp_already_handled_enter : Bool
  pub skip_next_seccomp_signal : Bool
  pub restore_original_regs_after_seccomp_event : Bool
  pub suppressed_signal : ℕ
  pub chain : Chain
  pub regs : Regs
  pub is_waiting : Bool

-- What the kernel answers at a stop, and what the handlers of the stop ask: the options that it
-- takes, the flags of the filter, whether SIGSYS is of seccomp and for the void system call;
-- whether the translation fails or voids the call, asks for its exit (`wants_sysexit` for
-- sysexit_pending, `wants_syscall` without), ends seccomp, makes the tracee wait for its ptracees
-- (translate_wait_exit), or adds system calls; whether handle_seccomp_event restarts the call, and
-- the signal it returns.
pub record Asks : Type 0 where
  pub takes_seccomp_option : Bool
  pub takes_options : Bool
  pub filter_flags : Option ℕ
  pub is_seccomp_signal : Bool
  pub is_avoider : Bool
  pub fails : Bool
  pub voids : Bool
  pub wants_sysexit : Bool
  pub wants_syscall : Bool
  pub ends_seccomp : Bool
  pub starts_wait : Bool
  pub chained : List Chained
  pub restarts_syscall : Bool
  pub seccomp_signal : ℕ

unfoldable pub is_some {ℓ} : {A : Type ℓ} → Option A → Bool
is_some none = false
is_some (some x) = true

-- chain.syscalls != NULL
abbrev pub is_chaining : Traced → Bool
is_chaining t = is_some t.chain.syscalls

-- sysexit_necessary
abbrev pub is_sysexit_necessary : Traced → Bool
is_sysexit_necessary t =
    t.sysexit_pending || (is_chaining t || t.restore_original_regs_after_seccomp_event)

unfoldable pub register_all : List Chained → Chain → Chain
unfolding register_chained_syscall
register_all [] chain = chain
register_all (syscall ∷ rest) chain = register_all rest (register_chained_syscall chain syscall)

-- What a handler of a system call leaves in the tracee.
unfoldable pub apply_handler : Asks → Traced → Traced
unfolding register_all
apply_handler asks t = record t {
  sysexit_pending = asks.wants_sysexit || t.sysexit_pending;
  restart_how = if asks.wants_sysexit || asks.wants_syscall then ptrace_syscall else t.restart_how;
  chain = register_all asks.chained t.chain;
}

-- The flags that push_specific_regs reads and resets.
unfoldable pub push_specific_regs : Traced → Traced
push_specific_regs t = record t {
  restore_original_regs_after_seccomp_event =
      t.restore_original_regs_after_seccomp_event && not t.regs.restore_original_regs;
}

unfoldable pub set_stage : Bool → Traced → Traced
set_stage restores t = record t { regs = record t.regs { restore_original_regs = restores } }

-- The system call of the tracee is translated, one of a chain only told to the extensions.
unfoldable pub enter_call : Asks → Traced → Traced
unfolding apply_handler
enter_call asks t =
    if is_chaining t
    then record t { restart_how = ptrace_syscall; is_void = asks.fails }
    else record (apply_handler asks t) { is_void = asks.fails || asks.voids }

unfoldable pub translate_enter : Asks → Traced → Traced
unfolding push_specific_regs set_stage enter_call
translate_enter asks t =
    let t' = enter_call asks (set_stage false t) in
    push_specific_regs (record t' { in_sysexit = not (is_cont t'.restart_how) })

-- PTRACE_TRACEME ends seccomp, where it is enabled.
unfoldable pub end_seccomp : Asks → Seccomp → Seccomp
end_seccomp asks disabled = disabled
end_seccomp asks disabling = disabling
end_seccomp asks enabled = if asks.ends_seccomp then disabling else enabled

unfoldable pub apply_next : Traced → Option (Chain × Regs) → Option Traced
apply_next t none = none
apply_next t (some (chain', regs')) = some (record t {
  chain = chain';
  regs = regs';
  restart_how = if regs'.restart_at_exit then ptrace_syscall else t.restart_how;
})

module _ (detranslate_sysnum : ℕ → ℕ) (systrap_size : ℕ) where
  unfoldable pub chain_next : Traced → Option Traced
  unfolding chain_next_syscall apply_next
  chain_next t = apply_next t (
      chain_next_syscall detranslate_sysnum systrap_size t.chain
        (record t.regs { restart_at_exit = false }))

  unfoldable pub exit_call : Asks → Traced → Traced
  unfolding apply_handler set_stage end_seccomp
  exit_call asks t =
      let t' = apply_handler asks (set_stage true t) in
      record t' {
        in_sysexit = false;
        seccomp = end_seccomp asks t.seccomp;
        is_waiting = asks.starts_wait || t.is_waiting;
      }

  unfoldable pub translate_exit : Asks → Traced → Option Traced
  unfolding push_specific_regs exit_call chain_next
  translate_exit asks t =
      let t' = exit_call asks t in
      if is_chaining t'
      then elim (chain_next t') [ none ↦ none | some t'' ↦ some (push_specific_regs t'') ]
      else some (push_specific_regs t')

  unfoldable pub translate_syscall : Asks → Traced → Option Traced
  unfolding translate_enter translate_exit
  translate_syscall asks t =
      if not t.has_exe
      then none
      else if t.in_sysexit
      then translate_exit asks t
      else some (translate_enter asks t)
