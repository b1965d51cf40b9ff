-- ===== src/Sysvipc/Events.antt =====
-- The events of a tracee in the System V IPC emulation: `sysvipc_syscall_common` and
-- `sysvipc_callback` of proot/src/extension/sysvipc/sysvipc.c, on the tracee's Config. What a
-- handler of a system call, and a retried msgrcv, leave is an argument. An assertion that fails is
-- none. The chain of system calls of shmat is not modelled.
pub mod Reach
mod Samples
use doki_proot.Prelude.{
  ℕ, Bool, true, false, not, Option, none, some, Result, ok, fail, e_intr, if◌then◌else◌,
}
use doki_proot.Sysvipc.{
  Config, WaitState, state_not_waiting, restarted_into_ppoll_canceled, restarted_into_ppoll,
  entered_ppoll, signaled_ppoll, entered_getpid, not_waiting, is_waiting, is_wait_semop,
  finish_syscall, wake_tracee,
}
use doki_proot.Sysvipc.Semaphore.Operations.{semop_timedout}

-- The system call that the tracee is made to do: its own, or one in its place.
pub data Sysnum : Type 0 where
  as_is ppoll getpid pr_void : Sysnum

-- What a callback leaves: the state, the system call, the result that is written, if any, and what
-- it returns: an error, or whether it goes on (0), has handled the event (1) or the signal (2).
pub record Outcome : Type 0 where
  pub config : Config
  pub sysnum : Sysnum
  pub result : Option (Result ℕ)
  pub returned : Result ℕ

-- The status and the state that a handler leaves.
abbrev pub Handled : Type 0
Handled = Result ℕ × Config

abbrev pub is_not_waiting : WaitState → Bool
is_not_waiting state_not_waiting = true
is_not_waiting _ = false

-- `handled` is none for a system call of no concern.
unfoldable pub syscall_common : Bool → Option Handled → Config → Option Outcome
syscall_common from_sigsys handled config =
    if not (is_not_waiting config.wait_state) then none else elim handled [
      | none ↦ some (record { config = config; sysnum = as_is; result = none; returned = ok 0 })
      | some (status, config') ↦ some (record {
        config = finish_syscall from_sigsys status config';
        sysnum =
            if is_waiting config'.wait_reason then ppoll else if from_sigsys then as_is else getpid;
        result =
            if is_waiting config'.wait_reason
            then none
            else if from_sigsys
            then some status
            else none;
        returned = if from_sigsys then ok 2 else ok 1;
      })
    ]

-- The status that was left for the tracee, or that of a msgrcv that is tried again.
unfoldable pub status_of : Handled → Config → Handled
status_of retried config =
    if config.msgrcv_retry then retried else (config.status_after_wait, config)

-- SYSCALL_ENTER_START
unfoldable pub enter_start : Option Handled → Handled → Bool → Config → Option Outcome
unfolding syscall_common status_of
enter_start handled retried is_ppoll config = elim config.wait_state [
  | state_not_waiting ↦ syscall_common false handled config
  | restarted_into_ppoll ↦
      if not is_ppoll
      then none
      else some (record {
        config = record config { wait_state = entered_ppoll };
        sysnum = as_is;
        result = none;
        returned = ok 1;
      })
  | restarted_into_ppoll_canceled ↦
      let (status, config') = status_of retried config in
      some (record {
        config = record config' { wait_state = state_not_waiting };
        sysnum = pr_void;
        result = some status;
        returned = ok 1;
      })
  | entered_ppoll ↦ none
  | signaled_ppoll ↦ none
  | entered_getpid ↦ none
]

-- The result of a system call whose wait is over.
unfoldable pub leave_wait : Handled → Config → Option Outcome
unfolding status_of
leave_wait retried config =
    if is_waiting config.wait_reason
    then none
    else let (status, config') =
        status_of retried (record config { wait_state = state_not_waiting }) in
      some (record { config = config'; sysnum = as_is; result = some status; returned = ok 1 })

-- The end of a wait that nobody has ended.
unfoldable pub time_out : Config → Config
unfolding semop_timedout
time_out config =
    if is_wait_semop config.wait_reason
    then semop_timedout config
    else record config { wait_reason = not_waiting }

-- SYSCALL_EXIT_START; `keeps_status` tells that ppoll's result is -EFAULT or -EINTR.
unfoldable pub exit_start : Bool → Handled → Config → Option Outcome
unfolding leave_wait time_out
exit_start keeps_status retried config = elim config.wait_state [
  | state_not_waiting ↦
      some (record { config = config; sysnum = as_is; result = none; returned = ok 0 })
  | entered_ppoll ↦
      if not (is_waiting config.wait_reason)
      then none
      else some (record {
        config = time_out (record config { wait_state = state_not_waiting });
        sysnum = as_is;
        result = none;
        returned = if keeps_status then ok 1 else fail e_intr;
      })
  | signaled_ppoll ↦ leave_wait retried config
  | entered_getpid ↦ leave_wait retried config
  | restarted_into_ppoll ↦ none
  | restarted_into_ppoll_canceled ↦ none
]

-- What happens to a tracee: it enters a system call, is stopped by the SIGSYS of one that seccomp
-- refuses, leaves a system call, or is woken by another tracee.
pub data Event : Type 0 where
  enters : Option Handled → Handled → Bool → Event
  is_stopped : Option Handled → Event
  leaves : Bool → Handled → Event
  is_woken : Result ℕ → Event

-- `sysvipc_callback` on an event, and `sysvipc_wake_tracee`.
unfoldable pub callback : Event → Config → Option Outcome
unfolding enter_start syscall_common exit_start wake_tracee
callback (enters handled retried is_ppoll) config = enter_start handled retried is_ppoll config
callback (is_stopped handled) config = syscall_common true handled config
callback (leaves keeps_status retried) config = exit_start keeps_status retried config
callback (is_woken status) config = elim (wake_tracee config status) [
  | none ↦ none
  | some config' ↦
      some (record { config = config'; sysnum = as_is; result = none; returned = ok 0 })
]
