-- ===== src/Sysvipc/Events/Reach.antt =====
-- What a tracee of proot/src/extension/sysvipc can come to, by the events that it meets.
use doki_proot.Prelude.{◌≡◌, ℕ, Bool, true, false, not, Option, none, some, Result}
use doki_proot.Sysvipc.{
  Config, WaitState, state_not_waiting, restarted_into_ppoll_canceled, restarted_into_ppoll,
  entered_ppoll, signaled_ppoll, entered_getpid, is_waiting,
}
use doki_proot.Sysvipc.Events.{
  Outcome, Handled, Event, enters, is_stopped, leaves, is_woken, callback,
}

-- A tracee runs in user mode, or is in a system call.
pub data Phase : Type 0 where
  in_user in_call : Phase

abbrev pub is_restarted : WaitState → Bool
is_restarted restarted_into_ppoll = true
is_restarted _ = false

-- What a handler leaves of a tracee that does not wait: it may make it wait, but leaves wait_state.
abbrev pub IsHandled : Option Handled → Type 0
IsHandled none = Unit
IsHandled (some (status, config)) = config.wait_state ≡ state_not_waiting

-- What a retried msgrcv leaves: the tracee does not wait for anything.
abbrev pub IsRetried : Handled → Type 0
IsRetried (status, config) =
    (is_waiting config.wait_reason ≡ false) × (config.wait_state ≡ state_not_waiting)

-- What the kernel and the other tracees can do: system calls are entered from user mode and left
-- again, where a call that is restarted as ppoll is one; seccomp refuses no such ppoll; and only a
-- tracee that waits is woken, at any time.
pub data Happens : Phase → Config → Event → Phase → Type 0 where
  entering :
      (config : Config) (handled : Option Handled) (retried : Handled)
      → IsHandled handled
      → IsRetried retried
      → Happens in_user config (enters handled retried (is_restarted config.wait_state)) in_call
  stopping :
      (config : Config) (handled : Option Handled)
      → IsHandled handled
      → config.wait_state ≡ state_not_waiting
      → Happens in_user config (is_stopped handled) in_user
  leaving :
      (config : Config) (keeps_status : Bool) (retried : Handled)
      → IsRetried retried
      → Happens in_call config (leaves keeps_status retried) in_user
  waking :
      (config : Config) (phase : Phase) (status : Result ℕ)
      → is_waiting config.wait_reason ≡ true
      → Happens phase config (is_woken status) phase

-- The states that a tracee that starts in user mode, without waiting, comes to.
pub data Reaches : Phase → Config → Type 0 where
  start :
      (config : Config)
      → config.wait_state ≡ state_not_waiting
      → is_waiting config.wait_reason ≡ false
      → Reaches in_user config
  step :
      (phase phase' : Phase) (config : Config) (event : Event) (outcome : Outcome)
      → Reaches phase config
      → Happens phase config event phase'
      → callback event config ≡ some outcome
      → Reaches phase' outcome.config

-- The invariant, by whether the tracee waits for something.
abbrev pub fits : Phase → WaitState → Bool → Bool
fits in_user state_not_waiting waits = not waits
fits in_user restarted_into_ppoll waits = waits
fits in_user restarted_into_ppoll_canceled waits = not waits
fits in_user entered_ppoll waits = false
fits in_user signaled_ppoll waits = false
fits in_user entered_getpid waits = false
fits in_call state_not_waiting waits = not waits
fits in_call entered_ppoll waits = waits
fits in_call signaled_ppoll waits = not waits
fits in_call entered_getpid waits = not waits
fits in_call restarted_into_ppoll waits = false
fits in_call restarted_into_ppoll_canceled waits = false

abbrev pub Fits : Phase → Config → Type 0
Fits phase config = fits phase config.wait_state (is_waiting config.wait_reason) ≡ true

-- The callback has failed no assertion, and leaves a state that fits.
abbrev pub IsGood : Phase → Option Outcome → Type 0
IsGood phase none = ⊥
IsGood phase (some outcome) = Fits phase outcome.config
