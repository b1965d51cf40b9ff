-- ===== src/Tracee/Event/Answers.antt =====
-- What handle_tracee_event does of a stop by itself, and restart_tracee, of
-- proot/src/tracee/event.c. The signal -1, which keeps the tracee stopped, is `none`.
use doki_proot.Prelude.{
  ℕ, Bool, true, false, not, ◌&&◌, ◌||◌, Option, none, some, ◌==◌, if◌then◌else◌,
}
use doki_proot.Ptrace.{
  disabled, enabled, sigstop_ignored, sigstop_allowed, sigstop_pending, Sigstop,
}
use doki_proot.Tracee.Event.{
  Tracer, Traced, Asks, no_restart, ptrace_cont, ptrace_syscall, is_unset, is_syscall, is_enabled,
  is_disabling, is_chaining, is_sysexit_necessary,
}

abbrev pub sigstop_signal : ℕ
sigstop_signal = 19

-- The state after a stop, and the signal to restart with.
abbrev pub StopOutcome : Type 0
StopOutcome = Option (Tracer × (Traced × Option ℕ))

unfoldable pub check_order : Bool → Tracer → Tracer
check_order assume_new s = if s.seccomp_after_ptrace_enter_checked then s else record s {
  seccomp_after_ptrace_enter = assume_new;
  seccomp_after_ptrace_enter_checked = true;
}

unfoldable pub default_restart : Traced → Traced
default_restart t =
    if is_unset t.restart_how
    then record t {
      restart_how =
          if is_enabled t.seccomp && not (is_sysexit_necessary t)
          then ptrace_cont
          else ptrace_syscall;
    }
    else t

-- The stages that the kernel is asked to report next, where seccomp is enabled.
unfoldable pub expect_stage : Traced → Traced
expect_stage t =
    if not (is_enabled t.seccomp)
    then t
    else if not t.in_sysexit
    then record t { restart_how = ptrace_syscall; sysexit_pending = true }
    else record t { restart_how = ptrace_cont; sysexit_pending = false }

unfoldable pub mark_void : Tracer → Bool → Traced → Traced
mark_void s was_sysenter t =
    if was_sysenter
    then record t { skip_next_seccomp_signal = s.seccomp_after_ptrace_enter && t.is_void }
    else t

-- Whether a signal was kept back that can be delivered now.
unfoldable pub is_redelivered : Traced → Bool
is_redelivered t =
    not (t.suppressed_signal == 0)
    && (not (is_chaining t) && not t.restore_original_regs_after_seccomp_event)

unfoldable pub redeliver : Traced → Traced × Option ℕ
unfolding is_redelivered
redeliver t =
    if is_redelivered t
    then (record t { suppressed_signal = 0 }, some t.suppressed_signal)
    else (t, some 0)

unfoldable pub finish_disabling : Traced → Traced
finish_disabling t =
    if is_disabling t.seccomp
    then record t { restart_how = ptrace_syscall; seccomp = disabled }
    else t

unfoldable pub skip_handled : Tracer → Traced → Option (Traced × Option ℕ)
skip_handled s t =
    if not t.in_sysexit || s.seccomp_after_ptrace_enter
    then none
    else some
        ((record t { seccomp_already_handled_enter = false; restart_how = ptrace_syscall }), some 0)

-- The first SIGSTOP only tells the tracer.
unfoldable pub take_stop : Sigstop → Traced → Traced × Option ℕ
take_stop sigstop_ignored t = (record t { sigstop = sigstop_allowed }, some 0)
take_stop sigstop_allowed t = (t, some sigstop_signal)
take_stop sigstop_pending t = (t, some sigstop_signal)

unfoldable pub handle_sigstop : Traced → Traced × Option ℕ
unfolding take_stop
handle_sigstop t =
    if t.has_exe then take_stop t.sigstop t else (record t { sigstop = sigstop_pending }, none)

unfoldable pub suppress : ℕ → Traced → Traced × Option ℕ
suppress signal t =
    if is_chaining t || t.restore_original_regs_after_seccomp_event
    then (record t { suppressed_signal = signal }, some 0)
    else (t, some signal)

-- An exec, an exit or the end of a vfork.
unfoldable pub keep_restart : Traced → Traced
keep_restart t =
    if is_unset t.last_restart_how then t else record t { restart_how = t.last_restart_how }

unfoldable pub detect : Tracer → Traced → Tracer × Traced
detect s t = if s.seccomp_detected then (s, t) else (
  (record s { seccomp_detected = true; seccomp_after_ptrace_enter = t.in_sysexit }),
  record t { seccomp = enabled },
)

-- What is left to do when the entry was handled at the stop by seccomp.
unfoldable pub after_seccomp_enter : Tracer → Traced → Traced
after_seccomp_enter s t =
    let how =
      if t.sysexit_pending || is_disabling t.seccomp then ptrace_syscall else t.restart_how in
    record t {
      restart_how = how;
      seccomp_already_handled_enter =
          (not s.seccomp_after_ptrace_enter && is_syscall how) || t.seccomp_already_handled_enter;
    }

-- What handle_seccomp_event changes: the system call is made again.
unfoldable pub restart_syscall_after_seccomp : Asks → Traced → Traced
restart_syscall_after_seccomp asks t =
    if asks.restarts_syscall
    then record t { restore_original_regs_after_seccomp_event = true; restart_how = ptrace_syscall }
    else t

unfoldable pub answer_sigsys : Tracer → Asks → Traced → StopOutcome
unfolding restart_syscall_after_seccomp
answer_sigsys s asks t =
    if t.skip_next_seccomp_signal || (s.seccomp_after_ptrace_enter && asks.is_avoider)
    then some (s, ((record t { skip_next_seccomp_signal = false }), some 0))
    else some (s, (restart_syscall_after_seccomp asks t, some asks.seccomp_signal))

unfoldable pub answer_stage : Tracer → Asks → Option Traced → StopOutcome
unfolding answer_sigsys
answer_stage s asks none = none
answer_stage s asks (some t) = answer_sigsys s asks t

unfoldable pub with_tracer : Tracer → Option (Traced × Option ℕ) → StopOutcome
with_tracer s none = none
with_tracer s (some (t, signal)) = some (s, (t, signal))

-- The kernel can restart the tracee.
unfoldable pub restart_traced : Option ℕ → Traced → Option (Traced × Bool)
restart_traced none t = some (t, false)
restart_traced (some signal) t =
    if t.is_waiting
    then some (t, false)
    else if is_unset t.restart_how
    then none
    else some (
      (record t { last_restart_how = t.restart_how; restart_how = no_restart; running = true }),
      true,
    )
