-- ===== src/Tracee/Event/Kernel.antt =====
-- The stops that the kernel reports of one tracee, in both orders of seccomp and ptrace: what
-- ptrace(2) and seccomp(2) document, as phases of a system call. Forks are left out.
use doki_proot.Prelude.{
  ℕ, Bool, true, false, not, ◌&&◌, ◌||◌, Option, none, some, ◌≡◌, ◌<◌, ◌==◌, ◌+◌, ◌*◌,
  if◌then◌else◌,
}
use doki_proot.Ptrace.Events.{sigtrap, sigsys, syscall_stop, event_stop}
use doki_proot.Tracee.Event.{
  Tracer, Traced, Asks, RestartHow, is_cont, is_syscall, is_enabled, is_disabling, is_some,
}
use doki_proot.Tracee.Event.Answers.{restart_traced, sigstop_signal}
use doki_proot.Tracee.Event.Handle.{handle_tracee_event}

-- Where the tracee is when it runs: in its own code; after the stop at an entry; after the stop by
-- seccomp, where the entry is still to be reported; past the entry of a system call.
pub data Phase : Type 0 where
  in_user after_entry before_entry in_call : Phase

-- A stop that is a signal, and no signal that the loop looks at.
unfoldable pub is_other_signal : ℕ → Bool
is_other_signal code =
    not (code == sigtrap)
    && (not (code == syscall_stop) && (not (code == sigstop_signal) && not (code == sigsys)))

-- A stop that the kernel may report next, and the phase that follows. The order is `is_new` where
-- seccomp comes after the entry. A tracee that PTRACE_SYSCALL restarted stops at an entry or an
-- exit, and a filter stops it whatever restarted it. SIGSYS ends the system call that a filter
-- refuses. The handler of a call does not make the tracee wait for its ptracees at the exit: else
-- it is not restarted, and its next stop is not of this relation.
pub data Stops (is_new : Bool) (asks : Asks) (how : RestartHow) : Phase → ℕ → Phase → Type 0 where
  entry :
      is_new ≡ true → is_syscall how ≡ true → Stops is_new asks how in_user syscall_stop after_entry
  filter_after : is_new ≡ true → Stops is_new asks how after_entry (event_stop 7) in_call
  filter_only :
      is_new ≡ true
      → is_cont how ≡ true
      → is_some asks.filter_flags ≡ true
      → Stops is_new asks how in_user (event_stop 7) in_call
  filter_before : is_new ≡ false → Stops is_new asks how in_user (event_stop 7) before_entry
  entry_after :
      is_new ≡ false
      → is_syscall how ≡ true
      → Stops is_new asks how before_entry syscall_stop in_call
  entry_only :
      is_new ≡ false → is_syscall how ≡ true → Stops is_new asks how in_user syscall_stop in_call
  exit :
      asks.starts_wait ≡ false
      → is_syscall how ≡ true
      → Stops is_new asks how in_call syscall_stop in_user
  exec : (p : Phase) → Stops is_new asks how p (event_stop 4) p
  vfork_done : (p : Phase) → Stops is_new asks how p (event_stop 5) p
  stop : Stops is_new asks how in_user sigstop_signal in_user
  other_signal :
      (code : ℕ)
      → code < 128
      → is_other_signal code ≡ true
      → Stops is_new asks how in_user code in_user
  refused : asks.ends_seccomp ≡ false → Stops is_new asks how in_user sigsys in_user
  refused_after :
      is_new ≡ true
      → asks.ends_seccomp ≡ false
      → asks.starts_wait ≡ false
      → asks.is_seccomp_signal ≡ true
      → Stops is_new asks how after_entry sigsys in_user

-- What the kernel does without a stop: a system call that no filter looks at is made, and the exit
-- of a system call is not reported after PTRACE_CONT.
pub data Goes (is_new : Bool) (how : RestartHow) : Phase → Phase → Type 0 where
  unfiltered : Goes is_new how after_entry in_call
  leave_call : is_cont how ≡ true → Goes is_new how in_call in_user
  leave_filtered : is_cont how ≡ true → Goes is_new how before_entry in_user

-- The stage of the system call that PRoot believes in, by what restarted the tracee.
unfoldable pub is_stage : Phase → RestartHow → Bool → Bool → Bool → Bool
is_stage in_user how sysexit handled accelerated =
    (not sysexit && not handled) && (is_syscall how || (is_cont how && accelerated))
is_stage after_entry how sysexit handled accelerated = (sysexit && not handled) && is_syscall how
is_stage before_entry how sysexit handled accelerated =
    if sysexit
    then is_syscall how && (handled && accelerated)
    else not handled && (is_syscall how || (is_cont how && accelerated))
is_stage in_call how sysexit handled accelerated =
    not handled && (if sysexit then is_syscall how else is_cont how && accelerated)

-- The order of seccomp that is detected is the kernel's.
unfoldable pub is_order : Bool → Tracer → Bool
is_order is_new s =
    s.deliver_sigtrap
    && (if s.seccomp_detected
        then s.seccomp_after_ptrace_enter_checked
          && (if is_new then s.seccomp_after_ptrace_enter else not s.seccomp_after_ptrace_enter)
        else true)

-- Whether the tracee can be restarted by `how` in a phase.
unfoldable pub is_ready : Bool → Tracer → RestartHow → Phase → Traced → Bool
unfolding is_stage is_order
is_ready is_new s how p t =
    (t.has_exe && not t.is_waiting)
    && ((is_order is_new s && not (is_disabling t.seccomp))
        && ((not (is_enabled t.seccomp) || s.seccomp_detected)
            && is_stage p how t.in_sysexit t.seccomp_already_handled_enter (is_enabled t.seccomp)))

-- The status that waitpid(2) gives of a stop.
abbrev pub stop_status : ℕ → ℕ
stop_status code = code * 256 + 127

module _ (detranslate_sysnum : ℕ → ℕ) (systrap_size : ℕ) (assume_new : Bool) where
  -- A round of the loop: the stop is handled and the tracee restarted.
  unfoldable pub run_stop : Tracer → Asks → ℕ → Traced → Option (Tracer × (Traced × Bool))
  unfolding handle_tracee_event restart_traced
  run_stop s asks event t =
      elim (handle_tracee_event detranslate_sysnum systrap_size assume_new s asks event t) [
        | none ↦ none
        | some (s', (t', signal)) ↦ elim (restart_traced signal t') [
          | none ↦ none
          | some (t'', restarted) ↦ some (s', (t'', restarted))
        ]
      ]
