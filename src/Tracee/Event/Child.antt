-- ===== src/Tracee/Event/Child.antt =====
-- A new tracee, of new_child in proot/src/tracee/tracee.c: its SIGSTOP and the event of its parent
-- come in any order. The child has no ptracer.
use doki_proot.Prelude.{ℕ, Bool, false, Option, none, some, if◌then◌else◌}
use doki_proot.Ptrace.{disabled, sigstop_ignored, sigstop_allowed, sigstop_pending, Sigstop}
use doki_proot.Syscall.Chain.{Regs, inactive}
use doki_proot.Tracee.Event.{Tracer, Traced, Asks, no_restart}
use doki_proot.Tracee.Event.Answers.{sigstop_signal, restart_traced}
use doki_proot.Tracee.Event.Kernel.{stop_status, run_stop}

-- A tracee that was only allocated.
abbrev pub new_tracee : Regs → Traced
new_tracee regs = record {
  has_exe = false;
  running = false;
  terminated = false;
  in_sysexit = false;
  is_void = false;
  restart_how = no_restart;
  last_restart_how = no_restart;
  seccomp = disabled;
  sigstop = sigstop_ignored;
  sysexit_pending = false;
  seccomp_already_handled_enter = false;
  skip_next_seccomp_signal = false;
  restore_original_regs_after_seccomp_event = false;
  suppressed_signal = 0;
  chain = record {
    syscalls = none;
    force_final_result = false;
    final_result = 0;
    sysnum_workaround_state = inactive;
  };
  regs = regs;
  is_waiting = false;
}

unfoldable pub inherit : Traced → Traced → Traced
inherit parent child = record child {
  has_exe = parent.has_exe;
  seccomp = parent.seccomp;
  sysexit_pending = parent.sysexit_pending;
}

-- The child is restarted if its SIGSTOP came before.
unfoldable pub release : Sigstop → Traced → Option Traced
release sigstop_ignored child = some child
release sigstop_allowed child = some child
release sigstop_pending child =
    elim (restart_traced (some 0) (record child { sigstop = sigstop_allowed })) [
      | none ↦ none
      | some (child', restarted) ↦ some child'
    ]

unfoldable pub new_child : Traced → Traced → Option Traced
unfolding inherit release
new_child parent child =
    if child.has_exe then none else release child.sigstop (inherit parent child)

module _ (detranslate_sysnum : ℕ → ℕ) (systrap_size : ℕ) (assume_new : Bool) where
  -- The child's SIGSTOP comes first.
  unfoldable pub stop_first : Tracer → Asks → Traced → Regs → Option (Tracer × Traced)
  unfolding run_stop new_child
  stop_first s asks parent regs =
      elim (run_stop detranslate_sysnum systrap_size assume_new s asks (stop_status sigstop_signal)
        (new_tracee regs)) [
          | none ↦ none
          | some (s', (child, restarted)) ↦ elim (new_child parent child) [
            | none ↦ none
            | some child' ↦ some (s', child')
          ]
        ]

  -- The event of the parent comes first.
  unfoldable pub event_first : Tracer → Asks → Traced → Regs → Option (Tracer × Traced)
  unfolding run_stop new_child
  event_first s asks parent regs = elim (new_child parent (new_tracee regs)) [
    | none ↦ none
    | some child ↦
        elim (run_stop detranslate_sysnum systrap_size assume_new s asks
          (stop_status sigstop_signal) child) [
            | none ↦ none
            | some (s', (child', restarted)) ↦ some (s', child')
          ]
  ]
