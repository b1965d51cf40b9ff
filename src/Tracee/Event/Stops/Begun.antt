-- ===== src/Tracee/Event/Stops/Begun.antt =====
-- The beginning of a round, before the stop is looked at.
use doki_proot.Prelude.{ℕ, ◌<◌, Bool, true, false, ◌||◌, ◌≡◌, refl, sym, ap, ◌∙◌, subst, arith}
use doki_proot.Ptrace.Events.{is_exited, is_signaled, is_stopped, stop_code}
use doki_proot.Tracee.Event.{
  Tracer, Traced, no_restart, is_unset, is_cont, is_syscall, is_enabled, is_disabling,
  is_sysexit_necessary,
}
use doki_proot.Tracee.Event.Answers.{default_restart, check_order}
use doki_proot.Tracee.Event.Kernel.{Phase, is_stage, is_order, stop_status}
use doki_proot.Tracee.Event.Stops.{IsDefault}
use doki_proot.Tracee.Event.Stops.View.{IsReady, take_then}

-- What the beginning of a round leaves.
pub record IsBegun (t u : Traced) : Type 0 where
  pub start : IsDefault u
  pub exe : u.has_exe ≡ t.has_exe
  pub waiting : u.is_waiting ≡ t.is_waiting
  pub sysexit : u.in_sysexit ≡ t.in_sysexit
  pub handled : u.seccomp_already_handled_enter ≡ t.seccomp_already_handled_enter
  pub seccomp : u.seccomp ≡ t.seccomp
  pub last : u.last_restart_how ≡ t.last_restart_how
  pub necessary : is_sysexit_necessary u ≡ is_sysexit_necessary t

pub default_restart-IsBegun :
    (t : Traced) → t.restart_how ≡ no_restart → IsBegun t (default_restart t)
unfolding default_restart is_unset is_syscall is_cont
default_restart-IsBegun t unset =
    subst (IsBegun t) (sym (take_then _ (ap is_unset unset))) (record {
      start = record { how = ground arith };
      exe = refl;
      waiting = refl;
      sysexit = refl;
      handled = refl;
      seccomp = refl;
      last = refl;
      necessary = refl;
    })

pub check_order-checked :
    (assume_new : Bool)
    → (s : Tracer) → (check_order assume_new s).seccomp_after_ptrace_enter_checked ≡ true
unfolding check_order
check_order-checked assume_new s = ground arith

pub check_order-order :
    (is_new assume_new : Bool)
    → (s : Tracer) → is_order is_new s ≡ true
    → is_order is_new (check_order assume_new s) ≡ true
unfolding check_order is_order
check_order-order is_new assume_new s e = ground (e, arith)

pub check_order-detected :
    (assume_new : Bool)
    → (s : Tracer) → (check_order assume_new s).seccomp_detected ≡ s.seccomp_detected
unfolding check_order
check_order-detected assume_new s = ground arith

pub begun-IsReady :
    (is_new assume_new : Bool)
    → (s : Tracer) → (p : Phase) → (t u : Traced) → IsBegun t u
    → IsReady is_new s t.last_restart_how p t
    → IsReady is_new (check_order assume_new s) u.last_restart_how p u
begun-IsReady is_new assume_new s p t u b ready = record {
  exe = b.exe ∙ ready.exe;
  waiting = b.waiting ∙ ready.waiting;
  order = check_order-order is_new assume_new s ready.order;
  stays = ap is_disabling b.seccomp ∙ ready.stays;
  detected =
      ground (ap is_enabled b.seccomp, check_order-detected assume_new s, ready.detected, arith);
  stage =
      ap (λ h. is_stage p h u.in_sysexit u.seccomp_already_handled_enter (is_enabled u.seccomp))
        b.last
      ∙ (ap
            (λ x.
              is_stage p t.last_restart_how x u.seccomp_already_handled_enter
                (is_enabled u.seccomp))
            b.sysexit
          ∙ (ap (λ x. is_stage p t.last_restart_how t.in_sysexit x (is_enabled u.seccomp)) b.handled
              ∙ (ap
                    (λ x.
                      is_stage p t.last_restart_how t.in_sysexit t.seccomp_already_handled_enter
                        (is_enabled x))
                    b.seccomp
                  ∙ ready.stage)));
}

pub status-stopped :
    (code : ℕ)
    → code < 4096
    → ((is_exited (stop_status code) || is_signaled (stop_status code)) ≡ false)
      × (is_stopped (stop_status code) ≡ true)
      × (stop_code (stop_status code) ≡ code)
unfolding is_exited is_signaled is_stopped
status-stopped code h = ground arith
