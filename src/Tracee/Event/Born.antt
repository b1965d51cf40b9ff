-- ===== src/Tracee/Event/Born.antt =====
-- The order of a new tracee's SIGSTOP and its parent's event.
use doki_proot.Prelude.{
  ℕ, Bool, true, false, not, ◌&&◌, ◌||◌, some, ◌≡◌, refl, sym, ap, ◌∙◌, subst, arith, if◌then◌else◌,
}
use doki_proot.Ptrace.{Seccomp, disabled, disabling, enabled, sigstop_allowed}
use doki_proot.Ptrace.Events.{is_exited, is_signaled, is_stopped}
use doki_proot.Syscall.Chain.{Regs}
use doki_proot.Tracee.Event.{
  Tracer, Traced, Asks, RestartHow, ptrace_cont, ptrace_syscall, is_enabled, is_unset, is_some,
  is_syscall, is_cont,
}
use doki_proot.Tracee.Event.Answers.{
  restart_traced, default_restart, handle_sigstop, take_stop, check_order,
}
use doki_proot.Tracee.Event.Child.{new_tracee, inherit, release, new_child, stop_first, event_first}
use doki_proot.Tracee.Event.Handle.{handle_tracee_event, handle_stop}
use doki_proot.Tracee.Event.Kernel.{Phase, in_user, is_ready, is_stage, run_stop}
use doki_proot.Tracee.Event.Reach.{Reaches, Reaches-is_ready}
use doki_proot.Tracee.Event.Stops.Begun.{check_order-order, check_order-detected}
use doki_proot.Tracee.Event.Stops.View.{IsReady, is_ready-IsReady, IsReady-is_ready}

-- A child that was told to run.
started : Traced → Regs → RestartHow → Traced
started parent regs how = record (inherit parent (new_tracee regs)) {
  sigstop = sigstop_allowed;
  last_restart_how = how;
  running = true;
}

-- How it is restarted by its SIGSTOP.
child_how : Seccomp → Bool → RestartHow
child_how disabled pending = ptrace_syscall
child_how disabling pending = ptrace_syscall
child_how enabled pending = if pending then ptrace_syscall else ptrace_cont

-- A child of a tracee that is ready is ready for its own code.
started-IsReady :
    (is_new : Bool)
    → (s : Tracer) → (how : RestartHow) → (p : Phase) → (parent : Traced) → (regs : Regs)
    → IsReady is_new s parent.last_restart_how p parent
    → (is_syscall how || (is_cont how && is_enabled parent.seccomp)) ≡ true
    → IsReady is_new s how in_user (started parent regs how)
unfolding started inherit is_stage
started-IsReady is_new s how p parent regs ready e = record {
  exe = ready.exe;
  waiting = refl;
  order = ready.order;
  stays = ready.stays;
  detected = ready.detected;
  stage = ground (e, arith);
}

child_how-stage :
    (x : Seccomp)
    → (pending : Bool)
    → (is_syscall (child_how x pending) || (is_cont (child_how x pending) && is_enabled x)) ≡ true
unfolding child_how is_syscall is_cont is_enabled
child_how-stage disabled pending = refl
child_how-stage disabling pending = refl
child_how-stage enabled true = refl
child_how-stage enabled false = refl

checked-IsReady :
    (is_new assume_new : Bool)
    → (s : Tracer) → (how : RestartHow) → (p : Phase) → (t : Traced) → IsReady is_new s how p t
    → IsReady is_new (check_order assume_new s) how p t
checked-IsReady is_new assume_new s how p t ready = record {
  exe = ready.exe;
  waiting = ready.waiting;
  order = check_order-order is_new assume_new s ready.order;
  stays = ready.stays;
  detected =
      ap (λ b. not (is_enabled t.seccomp) || b) (check_order-detected assume_new s)
      ∙ ready.detected;
  stage = ready.stage;
}

module _ (detranslate_sysnum : ℕ → ℕ) (systrap_size : ℕ) (assume_new : Bool) where
  stop_first-started :
      (s : Tracer)
      → (asks : Asks) → (parent : Traced) → (regs : Regs)
      → stop_first detranslate_sysnum systrap_size assume_new s asks parent regs
        ≡ some (check_order assume_new s, started parent regs ptrace_syscall)
  unfolding stop_first run_stop handle_tracee_event default_restart handle_stop handle_sigstop
      is_unset is_enabled restart_traced new_child release inherit started is_some is_exited
      is_signaled is_stopped
  stop_first-started s asks parent regs = refl

  event_first-computed :
      (s : Tracer)
      → (asks : Asks) → (parent : Traced) → (regs : Regs) → (x : Seccomp) → (pending : Bool)
      → event_first detranslate_sysnum systrap_size assume_new s asks
          (record parent { has_exe = true; seccomp = x; sysexit_pending = pending })
          regs
        ≡ some (
          check_order assume_new s,
          started
              (record parent { has_exe = true; seccomp = x; sysexit_pending = pending })
              regs
              (child_how x pending),
        )
  unfolding child_how event_first run_stop handle_tracee_event default_restart handle_stop
      handle_sigstop take_stop is_unset is_enabled restart_traced new_child release inherit started
      is_some is_exited is_signaled is_stopped
  event_first-computed s asks parent regs disabled true = refl
  event_first-computed s asks parent regs disabled false = refl
  event_first-computed s asks parent regs disabling true = refl
  event_first-computed s asks parent regs disabling false = refl
  event_first-computed s asks parent regs enabled true = refl
  event_first-computed s asks parent regs enabled false = refl

  event_first-started :
      (s : Tracer)
      → (asks : Asks) → (parent : Traced) → (regs : Regs) → parent.has_exe ≡ true
      → event_first detranslate_sysnum systrap_size assume_new s asks parent regs
        ≡ some (
          check_order assume_new s,
          started parent regs (child_how parent.seccomp parent.sysexit_pending),
        )
  event_first-started s asks parent regs exe =
      subst
        (λ b.
          event_first detranslate_sysnum systrap_size assume_new s asks
            (record parent { has_exe = b }) regs
          ≡ some (
            check_order assume_new s,
            started (record parent { has_exe = b }) regs
                (child_how parent.seccomp parent.sysexit_pending),
          ))
        (sym exe) (event_first-computed s asks parent regs parent.seccomp parent.sysexit_pending)

-- A child without a ptracer, of a tracee that is reached, is restarted with SIGSTOP allowed and
-- ready for its own code, whether its SIGSTOP comes before its parent's event or after; the two
-- states differ only in how it was restarted.
pub new_child-order :
    (detranslate_sysnum : ℕ → ℕ)
    → (systrap_size : ℕ) → (is_new assume_new : Bool) → (p : Phase) → (s : Tracer)
    → (parent : Traced) → Reaches detranslate_sysnum systrap_size is_new assume_new p s parent
    → (asks : Asks) → (regs : Regs)
    → (s' : Tracer) × (child : Traced) × (how : RestartHow) × (stop_first detranslate_sysnum
          systrap_size assume_new s asks parent regs
        ≡ some (s', child))
      × (event_first detranslate_sysnum systrap_size assume_new s asks parent regs
          ≡ some (s', record child { last_restart_how = how }))
      × (child.sigstop ≡ sigstop_allowed)
      × (child.running ≡ true)
      × (is_ready is_new s' child.last_restart_how in_user child ≡ true)
      × (is_ready is_new s' how in_user (record child { last_restart_how = how }) ≡ true)
unfolding started is_syscall
new_child-order detranslate_sysnum systrap_size is_new assume_new p s parent reached asks regs =
    let how = child_how parent.seccomp parent.sysexit_pending in
    let s' = check_order assume_new s in
    let ready = checked-IsReady is_new assume_new s parent.last_restart_how p parent (
      is_ready-IsReady is_new s parent.last_restart_how p parent
        (Reaches-is_ready detranslate_sysnum systrap_size is_new assume_new p s parent reached)) in
    (
      s',
      started parent regs ptrace_syscall,
      how,
      stop_first-started detranslate_sysnum systrap_size assume_new s asks parent regs,
      event_first-started detranslate_sysnum systrap_size assume_new s asks parent regs ready.exe,
      refl,
      refl,
      IsReady-is_ready is_new s' ptrace_syscall in_user (started parent regs ptrace_syscall)
          (started-IsReady is_new s' ptrace_syscall p parent regs ready refl),
      IsReady-is_ready is_new s' how in_user (started parent regs how) (
          started-IsReady is_new s' how p parent regs ready
            (child_how-stage parent.seccomp parent.sysexit_pending)),
    )
