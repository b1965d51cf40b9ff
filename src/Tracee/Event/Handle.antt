-- ===== src/Tracee/Event/Handle.antt =====
-- handle_tracee_event of proot/src/tracee/event.c: one definition for each kind of stop. The flag
-- of an event that waits for a ptracer, which is cleared at the end, is no part of this state.
use doki_proot.Prelude.{
  ℕ, ◌%◌, Bool, true, false, not, ◌&&◌, ◌||◌, Option, none, some, ◌==◌, if◌then◌else◌,
}
use doki_proot.Ptrace.{disabled}
use doki_proot.Ptrace.Events.{
  is_exited, is_signaled, is_stopped, stop_code, sigtrap, sigsys, syscall_stop, event_stop,
}
use doki_proot.Tracee.Event.{
  Tracer, Traced, Asks, ptrace_cont, ptrace_syscall, is_cont, is_enabled, is_disabling,
  is_sysexit_necessary, translate_syscall,
}
use doki_proot.Tracee.Event.Answers.{
  sigstop_signal, StopOutcome, check_order, default_restart, expect_stage, mark_void, redeliver,
  finish_disabling, skip_handled, handle_sigstop, suppress, keep_restart, detect,
  after_seccomp_enter, answer_stage, with_tracer,
}

module _ (detranslate_sysnum : ℕ → ℕ) (systrap_size : ℕ) where
  unfoldable pub translate_stage : Tracer → Asks → Traced → Option (Traced × Option ℕ)
  unfolding translate_syscall mark_void redeliver
  translate_stage s asks t = elim (translate_syscall detranslate_sysnum systrap_size asks t) [
    | none ↦ none
    | some t' ↦ some (redeliver (mark_void s (not t.in_sysexit) t'))
  ]

  unfoldable pub pass_stage : Tracer → Asks → Traced → Option (Traced × Option ℕ)
  unfolding translate_stage skip_handled
  pass_stage s asks t =
      if t.seccomp_already_handled_enter then skip_handled s t else translate_stage s asks t

  -- A stop at the entry or the exit of a system call.
  unfoldable pub handle_syscall_stop : Tracer → Asks → Traced → Option (Traced × Option ℕ)
  unfolding pass_stage
  handle_syscall_stop s asks t =
      if not t.has_exe
      then some ((record t { restart_how = ptrace_cont }), some 0)
      else if is_disabling t.seccomp
      then some ((record t { seccomp = disabled; in_sysexit = true }), some 0)
      else elim (pass_stage s asks (expect_stage t)) [
        | none ↦ none
        | some (t', signal) ↦ some (finish_disabling t', signal)
      ]

  unfoldable pub seccomp_enter : Tracer → Bool → Asks → ℕ → Traced → Option Traced
  unfolding after_seccomp_enter
  seccomp_enter s necessary asks flags t =
      if flags % 2 == 1 || necessary
      then if s.seccomp_after_ptrace_enter
        then elim (translate_syscall detranslate_sysnum systrap_size asks
            (record t { restart_how = ptrace_syscall })) [
              | none ↦ none
              | some t' ↦ some (record t' { restart_how = ptrace_syscall })
            ]
        else some (record t { restart_how = ptrace_syscall })
      else elim (translate_syscall detranslate_sysnum systrap_size asks
          (record t { restart_how = ptrace_cont })) [
            | none ↦ none
            | some t' ↦ some (after_seccomp_enter s t')
          ]

  unfoldable pub after_detection : Tracer → Bool → Asks → Traced → Option Traced
  after_detection s necessary asks t =
      if s.seccomp_after_ptrace_enter && t.in_sysexit
      then if is_cont t.last_restart_how
        then none
        else some (record t { restart_how = t.last_restart_how })
      else if t.in_sysexit
      then none
      else if not (is_enabled t.seccomp)
      then some t
      else elim asks.filter_flags [
        | none ↦ some t
        | some flags ↦ seccomp_enter s necessary asks flags t
      ]

  unfoldable pub handle_seccomp_stop : Tracer → Bool → Asks → Traced → StopOutcome
  unfolding detect
  handle_seccomp_stop s necessary asks t =
      let s' = (detect s t).0 in
      elim (after_detection s' necessary asks
        (record ((detect s t).1) { skip_next_seccomp_signal = false })) [
          | none ↦ none
          | some t' ↦ some (s', (t', some 0))
        ]

  unfoldable pub handle_sigsys : Tracer → Asks → Traced → StopOutcome
  unfolding answer_stage
  handle_sigsys s asks t =
      if not asks.is_seccomp_signal
      then some (s, (t, some sigsys))
      else answer_stage s asks (
          if t.in_sysexit then translate_syscall detranslate_sysnum systrap_size asks t else some t)

  -- The first bare SIGTRAP sets the options.
  unfoldable pub handle_sigtrap : Tracer → Asks → Traced → StopOutcome
  unfolding handle_syscall_stop with_tracer
  handle_sigtrap s asks t =
      if s.deliver_sigtrap
      then some (s, (t, some sigtrap))
      else if asks.takes_seccomp_option || asks.takes_options
      then with_tracer (record s { deliver_sigtrap = true }) (handle_syscall_stop s asks t)
      else none

  -- The switch on a stop. The child of a fork, a vfork or a clone is left out: nothing of the
  -- parent changes.
  unfoldable pub handle_stop : Tracer → Bool → Asks → ℕ → Traced → StopOutcome
  unfolding handle_sigtrap handle_seccomp_stop handle_sigsys keep_restart handle_sigstop suppress
  handle_stop s necessary asks code t =
      if code == sigtrap
      then handle_sigtrap s asks t
      else if code == syscall_stop
      then with_tracer s (handle_syscall_stop s asks t)
      else if code == event_stop 8 || code == event_stop 7
      then handle_seccomp_stop s necessary asks t
      else if code == event_stop 2 || (code == event_stop 1 || code == event_stop 3)
      then some (s, (t, some 0))
      else if code == event_stop 5 || (code == event_stop 4 || code == event_stop 6)
      then some (s, (keep_restart t, some 0))
      else if code == sigstop_signal
      then some (s, handle_sigstop t)
      else if code == sigsys
      then handle_sigsys s asks t
      else some (s, suppress code t)

  unfoldable pub handle_tracee_event : Bool → Tracer → Asks → ℕ → Traced → StopOutcome
  unfolding check_order default_restart handle_stop
  handle_tracee_event assume_new s asks event t =
      let s' = check_order assume_new s in
      let t' = default_restart t in
      if is_exited event || is_signaled event
      then some (s', ((record t' { terminated = true }), some 0))
      else if is_stopped event
      then handle_stop s' (is_sysexit_necessary t) asks (stop_code event) t'
      else some (s', (t', some 0))
