-- ===== src/Tracee/Event/Stops.antt =====
-- The stops of the loop, one by one: what each leaves of a tracee that was ready for it.
pub mod View
pub mod Syscalls
pub mod Passed
pub mod Settled
pub mod Detected
pub mod Entering
pub mod Filters
pub mod Signals
pub mod Begun
pub mod Rounds
use doki_proot.Prelude.{
  ℕ, Bool, true, false, not, ◌&&◌, ◌||◌, Option, none, some, ◌≡◌, refl, sym, ap, ◌∙◌, List, [], ◌∷◌,
  ◌⊎◌, inl, inr, arith, Bool-cases, if◌then◌else◌,
}
use doki_proot.Tracee.Event.{
  Tracer, Traced, Asks, RestartHow, is_cont, is_syscall, is_enabled, is_disabling,
  is_sysexit_necessary,
}
use doki_proot.Tracee.Event.Answers.{default_restart, check_order}
use doki_proot.Tracee.Event.Kernel.{Phase, is_ready, is_stage, is_order}

-- What the choice of PTRACE_CONT or PTRACE_SYSCALL at a stop means, before the stop is looked at.
pub record IsDefault (t : Traced) : Type 0 where
  pub how :
      (is_syscall t.restart_how ≡ true)
      ⊎ ((is_cont t.restart_how ≡ true)
          × (is_enabled t.seccomp ≡ true)
          × (is_sysexit_necessary t ≡ false))

-- A stop that was handled, and leaves the tracee ready for a phase.
pub record IsHandled (is_new : Bool) (p : Phase) (outcome : Option (Tracer × (Traced × Option ℕ)))
    : Type 0 where
  pub tracer : Tracer
  pub tracee : Traced
  pub signal : ℕ
  pub handled : outcome ≡ some (tracer, (tracee, some signal))
  pub ready : is_ready is_new tracer tracee.restart_how p tracee ≡ true
