-- ===== src/Ptrace/Events.antt =====
-- The statuses of waitpid(2), as <sys/wait.h> reads them, and what handle_ptracee_event makes of
-- one before it is reported, of proot/src/ptrace/wait.c.
use doki_proot.Prelude.{
  ℕ, ◌+◌, ◌-◌, ◌*◌, ◌/◌, ◌%◌, Bool, true, false, not, ◌&&◌, ◌||◌, Option, none, some, ◌==◌,
  if◌then◌else◌,
}
use doki_proot.Ptrace.{AsPtracee, has_flag}

unfoldable pub is_exited : ℕ → Bool
is_exited event = event % 128 == 0

unfoldable pub is_signaled : ℕ → Bool
is_signaled event = not (event % 128 == 0) && not (event % 128 == 127)

unfoldable pub is_stopped : ℕ → Bool
is_stopped event = event % 256 == 127

-- (event & 0xfff00) >> 8
abbrev pub stop_code : ℕ → ℕ
stop_code event = (event / 256) % 4096

abbrev pub sigtrap : ℕ
sigtrap = 5

abbrev pub sigsys : ℕ
sigsys = 31

-- SIGTRAP | 0x80
abbrev pub syscall_stop : ℕ
syscall_stop = 133

-- SIGTRAP | event << 8
abbrev pub event_stop : ℕ → ℕ
event_stop event = sigtrap + event * 256

abbrev pub tracesysgood : ℕ
tracesysgood = 1

-- The option PTRACE_O_TRACE* that a stop by PTRACE_EVENT_* needs: fork, vfork, vfork_done, clone,
-- exit and exec.
unfoldable pub needed_option : ℕ → Option ℕ
needed_option code =
    if code == event_stop 1
    then some 2
    else if code == event_stop 2
    then some 4
    else if code == event_stop 5
    then some 32
    else if code == event_stop 3
    then some 8
    else if code == event_stop 6
    then some 64
    else if code == event_stop 4
    then some 16
    else none

-- What becomes of an event: it is not for the ptracer, or it is reported as an event that may
-- differ.
pub record Report : Type 0 where
  pub event : ℕ
  pub tracing_started : Bool
  pub keep_stopped : Bool
  pub handled_by_proot_first : Bool
  pub may_suppress : Bool

unfoldable pub is_seccomp_stop : ℕ → Bool
is_seccomp_stop code = code == event_stop 8 || code == event_stop 7

unfoldable pub stopped_report : AsPtracee → Bool → ℕ → Option Report
unfolding needed_option is_seccomp_stop
stopped_report p in_sysexit event =
    if stop_code event == syscall_stop
    then if p.ignore_syscalls || p.ignore_loader_syscalls
      then none
      else some (record {
        event = if has_flag p.options tracesysgood then event else event - 32768;
        tracing_started = p.tracing_started;
        keep_stopped = true;
        handled_by_proot_first = in_sysexit;
        may_suppress = false;
      })
    else elim (needed_option (stop_code event)) [
      | some option ↦
          if not (has_flag p.options option)
          then none
          else some (record {
            event = event;
            tracing_started = true;
            keep_stopped = true;
            handled_by_proot_first = true;
            may_suppress = false;
          })
      | none ↦
          if is_seccomp_stop (stop_code event)
          then none
          else if stop_code event == sigsys
          then some (record {
            event = event;
            tracing_started = p.tracing_started;
            keep_stopped = true;
            handled_by_proot_first = true;
            may_suppress = true;
          })
          else some (record {
            event = event;
            tracing_started = true;
            keep_stopped = true;
            handled_by_proot_first = false;
            may_suppress = false;
          })
    ]

unfoldable pub report_of : AsPtracee → Bool → ℕ → Option Report
unfolding stopped_report is_stopped is_exited is_signaled
report_of p in_sysexit event =
    if is_stopped event
    then stopped_report p in_sysexit event
    else if is_exited event || is_signaled event
    then some (record {
      event = event;
      tracing_started = true;
      keep_stopped = false;
      handled_by_proot_first = false;
      may_suppress = false;
    })
    else some (record {
      event = event;
      tracing_started = p.tracing_started;
      keep_stopped = true;
      handled_by_proot_first = false;
      may_suppress = false;
    })
