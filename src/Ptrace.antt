-- ===== src/Ptrace.antt =====
-- The emulation of ptrace(2) and of wait(2) for a tracer that is itself a tracee, of
-- proot/src/ptrace/ and proot/src/tracee/: a tracee is an address, the table says what stands
-- there, and what PRoot asks of the kernel is a list of effects, the last one first.
mod Search
pub mod Events
mod Wait
mod Child
mod Requests
mod Count
mod Found
mod Order
mod Told
mod Samples
use doki_proot.Prelude.{
  ℕ, ◌+◌, ◌-◌, ◌/◌, ◌%◌, Bool, true, false, not, ◌&&◌, ◌||◌, Option, none, some, List, [], ◌∷◌,
  ◌==◌, if◌then◌else◌, Errno,
}

pub data WaitsIn : Type 0 where
  doesnt_wait : WaitsIn
  waits_in_kernel : WaitsIn
  waits_in_proot : WaitsIn

pub data Seccomp : Type 0 where
  disabled : Seccomp
  disabling : Seccomp
  enabled : Seccomp

pub data Sigstop : Type 0 where
  sigstop_ignored : Sigstop
  sigstop_allowed : Sigstop
  sigstop_pending : Sigstop

-- tracee->as_ptracer
pub record AsPtracer : Type 0 where
  pub nb_ptracees : ℕ
  pub zombies : List ℕ
  pub wait_pid : ℕ
  pub wait_options : ℕ
  pub waits_in : WaitsIn

pub record PendingEvent : Type 0 where
  pub value : ℕ
  pub pending : Bool

-- tracee->as_ptracee
pub record AsPtracee : Type 0 where
  pub ptracer : Option ℕ
  pub proot_event : PendingEvent
  pub ptracer_event : PendingEvent
  pub tracing_started : Bool
  pub ignore_loader_syscalls : Bool
  pub ignore_syscalls : Bool
  pub options : ℕ
  pub is_zombie : Bool

-- The first arguments of the original system call are fields: `sysarg_2` is the second of it. A
-- number of type pid_t is its bit pattern.
pub record Tracee : Type 0 where
  pub pid : ℕ
  pub running : Bool
  pub parent : Option ℕ
  pub clone : Bool
  pub as_ptracer : AsPtracer
  pub as_ptracee : AsPtracee
  pub in_sysexit : Bool
  pub restart_how : ℕ
  pub last_restart_how : ℕ
  pub seccomp : Seccomp
  pub sigstop : Sigstop
  pub sysarg_1 : ℕ
  pub sysarg_2 : ℕ
  pub sysarg_3 : ℕ

pub data Effect : Type 0 where
  poke_int32 : ℕ → ℕ → ℕ → Effect
  poke_result : ℕ → ℕ → Effect
  poke_error : ℕ → Errno → Effect
  kill : ℕ → ℕ → Effect
  kill_ptracee : ℕ → Effect
  restart : ℕ → ℕ → ℕ → Effect
  restart_original_syscall : ℕ → Effect
  chain_next_syscall : ℕ → Effect

pub record Table : Type 0 where
  pub tracee : ℕ → Tracee
  pub tracees : List ℕ
  pub effects : List Effect

-- What the kernel answers: whether a tracee can be restarted and a signal sent to it, and the error of writing at an
-- address of it, if any.
pub record Kernel : Type 0 where
  pub restarts : ℕ → Bool
  pub kills : ℕ → Bool
  pub kills_ptracee : ℕ → Bool
  pub write_error : ℕ → ℕ → Option Errno
  pub seccomp_after_enter_sigtrap : Bool

-- (pid_t) -1
abbrev pub any_pid : ℕ
any_pid = 4294967295

abbrev pub update : (ℕ → Tracee) → ℕ → Tracee → ℕ → Tracee
update tracee a x b = if b == a then x else tracee b

abbrev pub modify : Table → ℕ → (Tracee → Tracee) → Table
modify t a f = record t { tracee = update t.tracee a (f (t.tracee a)) }

abbrev pub add_effect : Table → Effect → Table
add_effect t e = record t { effects = e ∷ t.effects }

abbrev pub no_event : PendingEvent
no_event = record { value = 0; pending = false }

-- bzero(&tracee->as_ptracee, sizeof(tracee->as_ptracee))
abbrev pub no_ptracee : AsPtracee
no_ptracee = record {
  ptracer = none;
  proot_event = no_event;
  ptracer_event = no_event;
  tracing_started = false;
  ignore_loader_syscalls = false;
  ignore_syscalls = false;
  options = 0;
  is_zombie = false;
}

abbrev pub is_address : Option ℕ → ℕ → Bool
is_address none p = false
is_address (some q) p = q == p

abbrev pub set_ptracer : Option ℕ → Tracee → Tracee
set_ptracer p x = record x { as_ptracee = record x.as_ptracee { ptracer = p } }

abbrev pub set_count : (ℕ → ℕ) → Tracee → Tracee
set_count f x = record x {
  as_ptracer = record x.as_ptracer { nb_ptracees = f x.as_ptracer.nb_ptracees };
}

unfoldable pub attach_to_ptracer : Table → ℕ → ℕ → Table
attach_to_ptracer t ptracee ptracer =
    modify
      (modify t ptracee
        (λ x. record x { as_ptracee = record no_ptracee { ptracer = some ptracer } }))
      ptracer (set_count (λ n. n + 1))

-- `ptracer` is the tracer of `ptracee`.
unfoldable pub detach_from_ptracer : Table → ℕ → ℕ → Table
detach_from_ptracer t ptracee ptracer =
    modify (modify t ptracee (set_ptracer none)) ptracer (set_count (λ n. n - 1))

-- (options & flag) != 0, for a single bit.
abbrev pub has_flag : ℕ → ℕ → Bool
has_flag options flag = (options / flag) % 2 == 1

unfoldable pub restart_tracee : Kernel → Table → ℕ → ℕ → Table × Bool
restart_tracee k t a signal =
    if not ((t.tracee a).as_ptracer.wait_pid == 0) || signal == any_pid
    then (t, false)
    else if not (k.restarts a)
    then (add_effect t (restart a (t.tracee a).restart_how signal), false)
    else (
      modify (add_effect t (restart a (t.tracee a).restart_how signal)) a
          (λ x. record x { last_restart_how = x.restart_how; restart_how = 0; running = true }),
      true,
    )
