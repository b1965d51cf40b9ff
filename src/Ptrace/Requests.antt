-- ===== src/Ptrace/Requests.antt =====
-- The emulation of ptrace(2), of proot/src/ptrace/ptrace.c, for the requests that concern the bond
-- of ptracer and ptracee: those that begin it, end it, set its options, or restart the ptracee.
use doki_proot.Prelude.{
  ℕ, Bool, true, false, not, ◌||◌, Option, none, some, ◌==◌, if◌then◌else◌, Result, ok, fail,
  e_perm, e_srch, null_pointer,
}
use doki_proot.Ptrace.{
  Tracee, WaitsIn, Seccomp, disabling, enabled, Sigstop, Table, Kernel, Effect, add_effect, modify,
  any_pid, is_address, attach_to_ptracer, detach_from_ptracer, restart_tracee,
}
use doki_proot.Ptrace.Search.{wall, get_tracee, get_stopped_ptracee}
use doki_proot.Ptrace.Wait.{set_waits_in}

-- The requests, with the option bits or the signal that the ptracer gives.
pub data Request : Type 0 where
  traceme : Request
  attach : Request
  syscall : ℕ → Request
  cont : ℕ → Request
  singlestep : ℕ → Request
  singleblock : ℕ → Request
  detach : Request
  kill_request : Request
  setoptions : ℕ → Request

-- SIGSTOP
abbrev pub sigstop_signal : ℕ
sigstop_signal = 19

abbrev pub is_in_kernel : WaitsIn → Bool
is_in_kernel WaitsIn.waits_in_kernel = true
is_in_kernel w = false

abbrev pub set_sigstop : Sigstop → Tracee → Tracee
set_sigstop s x = record x { sigstop = s }

abbrev pub disable : Seccomp → Seccomp
disable enabled = disabling
disable s = s

abbrev pub disable_seccomp : Tracee → Tracee
disable_seccomp x = record x { seccomp = disable x.seccomp }

abbrev pub set_ignore_syscalls : Bool → Tracee → Tracee
set_ignore_syscalls b x = record x { as_ptracee = record x.as_ptracee { ignore_syscalls = b } }

abbrev pub set_options : ℕ → Tracee → Tracee
set_options options x = record x { as_ptracee = record x.as_ptracee { options = options } }

abbrev pub set_restart_how : ℕ → Tracee → Tracee
set_restart_how how x = record x { restart_how = how }

abbrev pub is_traced : Tracee → Bool
is_traced x = elim x.as_ptracee.ptracer [ none ↦ false | some p ↦ true ]

-- A ptracer that has gone to wait in the kernel is stopped, for its wait to be emulated.
unfoldable pub wake_waiter : Kernel → Table → ℕ → Table
wake_waiter k t ptracer =
    let t' = add_effect t (Effect.kill (t.tracee ptracer).pid sigstop_signal) in
    if not (is_in_kernel (t.tracee ptracer).as_ptracer.waits_in)
    then t
    else if k.kills (t.tracee ptracer).pid
    then modify (modify t' ptracer (set_sigstop Sigstop.sigstop_ignored)) ptracer
        (set_waits_in WaitsIn.waits_in_proot)
    else t'

unfoldable pub translate_traceme : Kernel → Table → ℕ → Table × Result ℕ
translate_traceme k t tracee =
    if is_traced (t.tracee tracee) || is_address (t.tracee tracee).parent tracee
    then (t, fail e_perm)
    else elim (t.tracee tracee).parent [
      | none ↦ (t, fail null_pointer)
      | some ptracer ↦ (
        modify (wake_waiter k (attach_to_ptracer t tracee ptracer) ptracer) tracee disable_seccomp,
        ok 0,
      )
    ]

unfoldable pub translate_attach : Table → ℕ → ℕ → Table × Result ℕ
translate_attach t ptracer pid = elim (get_tracee t ptracer pid) [
  | none ↦ (t, fail e_srch)
  | some ptracee ↦
      if is_traced (t.tracee ptracee) || ptracee == ptracer
      then (t, fail e_perm)
      else (add_effect (attach_to_ptracer t ptracee ptracer) (Effect.kill pid sigstop_signal), ok 0)
]

module _ (k : Kernel) (handle_tracee_event : Table → ℕ → ℕ → Table × ℕ) where
  -- The event is handled at last, and the ptracee goes on, by default with the signal that this
  -- gives.
  unfoldable pub resume : Table → ℕ → Option ℕ → Table × Result ℕ
  resume t ptracee forced =
      let e = (t.tracee ptracee).as_ptracee.proot_event in
      let (t', signal) : Table × ℕ =
        if e.pending then handle_tracee_event t ptracee e.value else (t, e.value) in
      (
        (restart_tracee k t' ptracee
            (elim forced [ none ↦ signal | some s ↦ if s == any_pid then signal else s ])).0,
        ok 0,
      )

  unfoldable pub translate_stopped : Table → ℕ → ℕ → Request → Table × Result ℕ
  translate_stopped t ptracer a traceme = (t, ok 0)
  translate_stopped t ptracer a attach = (t, ok 0)
  translate_stopped t ptracer a (syscall signal) =
      resume (modify t a (set_ignore_syscalls false)) a (some signal)
  translate_stopped t ptracer a (cont signal) =
      resume (modify t a (set_ignore_syscalls true)) a (some signal)
  translate_stopped t ptracer a (singlestep signal) =
      resume (modify t a (set_restart_how 9)) a (some signal)
  translate_stopped t ptracer a (singleblock signal) =
      resume (modify t a (set_restart_how 33)) a (some signal)
  translate_stopped t ptracer a detach = resume (detach_from_ptracer t a ptracer) a none
  -- A failed call returns -1, which is -EPERM.
  translate_stopped t ptracer a kill_request = (
    (resume (add_effect t (Effect.kill_ptracee a)) a none).0,
    if k.kills_ptracee a then ok 0 else fail e_perm,
  )
  translate_stopped t ptracer a (setoptions options) = (modify t a (set_options options), ok 0)

  -- A request for a ptracee that is stopped.
  unfoldable pub translate_request : Table → ℕ → ℕ → Request → Option ℕ → Table × Result ℕ
  translate_request t ptracer pid request none = (t, fail e_srch)
  translate_request t ptracer pid request (some ptracee) =
      let p = (t.tracee ptracee).as_ptracee in
      if p.is_zombie || not (is_address p.ptracer ptracer) || pid == any_pid
      then (t, fail e_srch)
      else translate_stopped t ptracer ptracee request

  unfoldable pub translate_ptrace_exit : Table → ℕ → ℕ → Request → Table × Result ℕ
  translate_ptrace_exit t tracee pid traceme = translate_traceme k t tracee
  translate_ptrace_exit t tracee pid attach = translate_attach t tracee pid
  translate_ptrace_exit t tracee pid request =
      translate_request t tracee pid request (get_stopped_ptracee t tracee pid false wall)
