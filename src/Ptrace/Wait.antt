-- ===== src/Ptrace/Wait.antt =====
-- The emulation of wait(2), of proot/src/ptrace/wait.c: the entry and the exit of the system call,
-- and the arrival of an event. What PRoot itself makes of an event, in proot/src/tracee/event.c,
-- is an argument: it returns the signal to restart the tracee with.
use doki_proot.Prelude.{
  ℕ, ◌+◌, ◌*◌, Bool, true, false, not, ◌&&◌, ◌||◌, Option, none, some, List, [], ◌∷◌, ◌==◌,
  if◌then◌else◌, Result, ok, fail, e_child,
}
use doki_proot.Ptrace.{
  Tracee, WaitsIn, Table, Kernel, Effect, add_effect, modify, any_pid, has_flag, is_address,
  detach_from_ptracer, restart_tracee,
}
use doki_proot.Ptrace.Search.{expected_wait_clone, get_tracee, get_stopped_ptracee, has_ptracees}
use doki_proot.Ptrace.Events.{
  Report, report_of, is_exited, is_signaled, sigtrap, syscall_stop, tracesysgood,
}

abbrev pub set_waits_in : WaitsIn → Tracee → Tracee
set_waits_in w x = record x { as_ptracer = record x.as_ptracer { waits_in = w } }

abbrev pub set_wait : ℕ → ℕ → Tracee → Tracee
set_wait pid options x = record x {
  as_ptracer = record x.as_ptracer { wait_pid = pid; wait_options = options };
}

abbrev pub set_wait_pid : ℕ → Tracee → Tracee
set_wait_pid pid x = record x { as_ptracer = record x.as_ptracer { wait_pid = pid } }

abbrev pub set_proot_event : ℕ → Bool → Tracee → Tracee
set_proot_event value pending x = record x {
  as_ptracee = record x.as_ptracee { proot_event = record { value = value; pending = pending } };
}

abbrev pub set_proot_value : ℕ → Tracee → Tracee
set_proot_value value x = set_proot_event value x.as_ptracee.proot_event.pending x

abbrev pub set_ptracer_event : ℕ → Bool → Tracee → Tracee
set_ptracer_event value pending x = record x {
  as_ptracee = record x.as_ptracee { ptracer_event = record { value = value; pending = pending } };
}

abbrev pub clear_pending : Tracee → Tracee
clear_pending x = set_ptracer_event x.as_ptracee.ptracer_event.value false x

abbrev pub set_started : Bool → Tracee → Tracee
set_started b x = record x { as_ptracee = record x.as_ptracee { tracing_started = b } }

-- Not NULL, and traced by `ptracer`.
unfoldable pub is_ptracee : Table → ℕ → Option ℕ → Bool
is_ptracee t ptracer none = false
is_ptracee t ptracer (some a) = is_address (t.tracee a).as_ptracee.ptracer ptracer

-- The second component says whether the system call is cancelled, to be emulated at its exit.
unfoldable pub translate_wait_enter : Table → ℕ → Table × Bool
translate_wait_enter t ptracer =
    let t' = modify t ptracer (set_waits_in WaitsIn.waits_in_kernel) in
    let pid = (t.tracee ptracer).sysarg_1 in
    if (t.tracee ptracer).as_ptracer.nb_ptracees == 0
    then (t', false)
    else if not (pid == any_pid) && not (is_ptracee t' ptracer (get_tracee t' ptracer pid))
    then (t', false)
    else (modify t' ptracer (set_waits_in WaitsIn.waits_in_proot), true)

-- TALLOC_FREE on a zombie, whose destructor takes it off its ptracer's list.
unfoldable pub remove_zombie : ℕ → List ℕ → List ℕ
remove_zombie z [] = []
remove_zombie z (a ∷ zombies) = if a == z then zombies else a ∷ remove_zombie z zombies

abbrev pub drop_zombie : ℕ → Tracee → Tracee
drop_zombie z x = record x {
  as_ptracer = record x.as_ptracer { zombies = remove_zombie z x.as_ptracer.zombies };
}

abbrev pub free_zombie : Table → ℕ → ℕ → Table
free_zombie t ptracer z = modify t ptracer (drop_zombie z)

abbrev pub is_terminating : ℕ → Bool
is_terminating event = is_exited event || is_signaled event

unfoldable pub collect : Table → ℕ → ℕ → Table
collect t ptracer ptracee =
    if (t.tracee ptracee).as_ptracee.is_zombie
    then free_zombie (detach_from_ptracer t ptracee ptracer) ptracer ptracee
    else t

-- The event is left to the kernel, which reports it to the parent.
unfoldable pub leave_to_kernel : Table → ℕ → ℕ → Table
leave_to_kernel t ptracer ptracee =
    let t' =
      detach_from_ptracer (add_effect t (Effect.restart_original_syscall ptracer)) ptracee
        ptracer in
    if (t.tracee ptracee).as_ptracee.is_zombie then free_zombie t' ptracer ptracee else t'

unfoldable pub poke_event : Kernel → Table → ℕ → ℕ → ℕ → Result Table
poke_event k t ptracer address value =
    if address == 0 then ok t else elim (k.write_error ptracer address) [
      | none ↦ ok (add_effect t (Effect.poke_int32 ptracer address value))
      | some code ↦ fail code
    ]

-- `ptracer` is the tracer of `ptracee`.
unfoldable pub update_wait_status : Kernel → Table → ℕ → ℕ → Table × Result ℕ
update_wait_status k t ptracer ptracee =
    let x = t.tracee ptracee in
    let value = x.as_ptracee.ptracer_event.value in
    if is_address x.parent ptracer && is_terminating value
    then (leave_to_kernel t ptracer ptracee, ok 0)
    else elim (poke_event k t ptracer (t.tracee ptracer).sysarg_2 value) [
      | fail code ↦ (t, fail code)
      | ok t' ↦ (collect (modify t' ptracee clear_pending) ptracer ptracee, ok x.pid)
    ]

-- What comes of the search for an event; the second component is the result of the system call.
unfoldable pub answer_wait : Kernel → Table → ℕ → ℕ → ℕ → Option ℕ → Table × Result ℕ
answer_wait k t ptracer pid options (some ptracee) = update_wait_status k t ptracer ptracee
answer_wait k t ptracer pid options none =
    if (t.tracee ptracer).as_ptracer.nb_ptracees == 0
    then (t, fail e_child)
    else if has_flag options 1
    then (t, if has_ptracees t ptracer pid options then ok 0 else fail e_child)
    else (modify t ptracer (set_wait pid options), ok 0)

-- Called only where `waits_in` says that PRoot emulates the wait.
unfoldable pub translate_wait_exit : Kernel → Table → ℕ → Table × Result ℕ
translate_wait_exit k t ptracer =
    let x = t.tracee ptracer in
    let t' = modify t ptracer (set_waits_in WaitsIn.doesnt_wait) in
    answer_wait k t' ptracer x.sysarg_1 x.sysarg_3
      (get_stopped_ptracee t' ptracer x.sysarg_1 true x.sysarg_3)

-- SIGCHLD
abbrev pub sigchld : ℕ
sigchld = 17

-- What poke_reg stores for a result.
abbrev pub poke_status : Table → ℕ → Result ℕ → Table
poke_status t ptracer (fail code) = add_effect t (Effect.poke_error ptracer code)
poke_status t ptracer (ok status) =
    if status == 0
    then add_effect t (Effect.chain_next_syscall ptracer)
    else add_effect t (Effect.poke_result ptracer status)

-- The event is handed to a ptracer that waits for it, which is restarted.
unfoldable pub wake_ptracer : Kernel → Table → ℕ → ℕ → Bool → Table × Bool
wake_ptracer k t ptracer ptracee keep_stopped =
    let (t1, status) = update_wait_status k t ptracer ptracee in
    let t2 = modify (poke_status t1 ptracer status) ptracer (set_wait_pid 0) in
    let (t3, restarted) = restart_tracee k t2 ptracer 0 in (t3, restarted && keep_stopped)

unfoldable pub waits_for : Tracee → Tracee → Bool
waits_for ptracer ptracee =
    (ptracer.as_ptracer.wait_pid == any_pid || ptracer.as_ptracer.wait_pid == ptracee.pid)
    && expected_wait_clone ptracer.as_ptracer.wait_options ptracee.clone

unfoldable pub pass_event : Kernel → Table → ℕ → ℕ → ℕ → Bool → Table × Bool
pass_event k t ptracer ptracee event keep_stopped =
    let t' =
      add_effect (modify t ptracee (set_ptracer_event event true))
        (Effect.kill (t.tracee ptracer).pid sigchld) in
    if waits_for (t'.tracee ptracer) (t'.tracee ptracee)
    then wake_ptracer k t' ptracer ptracee keep_stopped
    else (t', keep_stopped)

unfoldable pub after_first : Kernel → Table × Option ℕ → ℕ → ℕ → Bool → Table × Bool
after_first k (t, none) ptracer ptracee keep_stopped = (t, true)
after_first k (t, some event) ptracer ptracee keep_stopped =
    pass_event k t ptracer ptracee event keep_stopped

module _ (k : Kernel) (handle_tracee_event : Table → ℕ → ℕ → Table × ℕ) where
  -- The event that is left to report, none if PRoot has suppressed the signal and restarted the
  -- tracee.
  unfoldable pub handle_first : Table → ℕ → Report → Table × Option ℕ
  handle_first t ptracee r =
      let (t1, signal) =
        handle_tracee_event t ptracee (t.tracee ptracee).as_ptracee.proot_event.value in
      let t2 = modify t1 ptracee (set_proot_value signal) in
      let p = (t2.tracee ptracee).as_ptracee in
      if not (r.may_suppress && signal == 0)
      then (t2, some r.event)
      else if not k.seccomp_after_enter_sigtrap || p.ignore_syscalls
      then ((restart_tracee k t2 ptracee 0).0, none)
      else (
        modify t2 ptracee (set_proot_value 0),
        some (
            if has_flag p.options tracesysgood
            then syscall_stop * 256 + 127
            else sigtrap * 256 + 127),
      )

  unfoldable pub report_event : Table → ℕ → ℕ → Option Report → Table × Bool
  report_event t ptracer ptracee none = (t, false)
  report_event t ptracer ptracee (some r) =
      let t' = modify t ptracee (set_started r.tracing_started) in
      if not r.tracing_started
      then (t', false)
      else if r.handled_by_proot_first
      then after_first k (handle_first t' ptracee r) ptracer ptracee r.keep_stopped
      else pass_event k t' ptracer ptracee r.event r.keep_stopped

  -- The second component says whether the ptracee is kept stopped.
  unfoldable pub handle_ptracee_event : Table → ℕ → ℕ → ℕ → Table × Bool
  handle_ptracee_event t ptracer ptracee event =
      report_event (modify t ptracee (set_proot_event event true)) ptracer ptracee
        (report_of (t.tracee ptracee).as_ptracee (t.tracee ptracee).in_sysexit event)
