-- ===== src/Tracee/Event/Stops/Filters.antt =====
-- The stop by seccomp.
use doki_proot.Prelude.{ℕ, Bool, true, false, ◌&&◌, ◌≡◌, refl, sym, ap, ◌∙◌, subst, inl, inr, arith}
use doki_proot.Tracee.Event.{
  Tracer, Traced, Asks, RestartHow, is_cont, is_syscall, is_enabled, is_some, is_sysexit_necessary,
}
use doki_proot.Tracee.Event.Answers.{detect}
use doki_proot.Tracee.Event.Handle.{after_detection, handle_seccomp_stop}
use doki_proot.Tracee.Event.Kernel.{Phase, in_user, in_call, after_entry, before_entry, is_stage}
use doki_proot.Tracee.Event.Stops.{IsDefault, IsHandled}
use doki_proot.Tracee.Event.Stops.Detected.{IsDetected, detect-IsDetected}
use doki_proot.Tracee.Event.Stops.Entering.{
  left_alone-IsReady, after_detection-IsFiltered, after_detection-skipped,
}
use doki_proot.Tracee.Event.Stops.Settled.{IsFiltered, filtered_phase}
use doki_proot.Tracee.Event.Stops.View.{
  view, IsReady, IsReady-is_ready, IsReady-view, cont-not_syscall,
}
use mathlib.Core.Bool.{false≢true}

module _ (detranslate_sysnum : ℕ → ℕ) (systrap_size : ℕ) where
  handle_seccomp_stop-some :
      (is_new : Bool)
      → (s : Tracer) → (necessary : Bool) → (asks : Asks) → (p : Phase) → (t : Traced)
      → IsFiltered is_new (detect s t).0 p (
          after_detection detranslate_sysnum systrap_size
            (detect s t).0
            necessary
            asks
            (record ((detect s t).1) { skip_next_seccomp_signal = false }))
      → IsHandled is_new p (handle_seccomp_stop detranslate_sysnum systrap_size s necessary asks t)
  unfolding handle_seccomp_stop
  handle_seccomp_stop-some is_new s necessary asks p t f = record {
    tracer = (detect s t).0;
    tracee = f.tracee;
    signal = 0;
    handled = rw (f.filtered, handle_seccomp_stop) refl;
    ready = IsReady-is_ready is_new (detect s t).0 f.tracee.restart_how p f.tracee f.ready;
  }

  pub filter_after-IsHandled :
      (s : Tracer)
      → (asks : Asks) → (t : Traced) → IsReady true s t.last_restart_how after_entry t
      → s.seccomp_after_ptrace_enter_checked ≡ true
      → IsHandled true in_call
          (handle_seccomp_stop detranslate_sysnum systrap_size s (is_sysexit_necessary t) asks t)
  unfolding is_stage
  filter_after-IsHandled s asks t ready checked =
      let d =
        detect-IsDetected true s t ready.order checked ready.stays
          (inr (ground (ready.stage, arith))) in
      let u : Traced = record ((detect s t).1) { skip_next_seccomp_signal = false } in
      handle_seccomp_stop-some true s (is_sysexit_necessary t) asks in_call t (
        after_detection-skipped detranslate_sysnum systrap_size (detect s t).0
          (is_sysexit_necessary t) asks u
          (record {
            exe = d.exe ∙ ready.exe;
            waiting = d.waiting ∙ ready.waiting;
            order = d.order;
            stays = d.stays;
            detected = ground (d.detected, arith);
            stage = ground (d.sysexit, d.handled, ap is_syscall d.last, ready.stage, arith);
          })
          d.detected)

  outside-IsHandled :
      (is_new : Bool)
      → (s : Tracer) → (asks : Asks) → (how : RestartHow) → (t : Traced)
      → IsReady is_new s how in_user t
      → IsDetected is_new t (detect s t)
      → ((is_enabled (detect s t).1.seccomp && is_some asks.filter_flags) ≡ false
          → IsReady is_new
              (detect s t).0
              (detect s t).1.restart_how
              (filtered_phase is_new)
              (detect s t).1)
      → IsHandled is_new
          (filtered_phase is_new)
          (handle_seccomp_stop detranslate_sysnum systrap_size s (is_sysexit_necessary t) asks t)
  unfolding is_stage detect view
  outside-IsHandled is_new s asks how t ready d alone =
      let u : Traced = record ((detect s t).1) { skip_next_seccomp_signal = false } in
      handle_seccomp_stop-some is_new s (is_sysexit_necessary t) asks (filtered_phase is_new) t (
        subst
          (λ b.
            IsFiltered is_new (detect s t).0 (filtered_phase is_new)
              (after_detection detranslate_sysnum systrap_size (detect s t).0 b asks u))
          d.necessary
          (after_detection-IsFiltered detranslate_sysnum systrap_size is_new (detect s t).0 asks u
            (d.exe ∙ ready.exe) (d.waiting ∙ ready.waiting) d.order d.detected
            (d.sysexit ∙ ground (ready.stage, arith)) (d.handled ∙ ground (ready.stage, arith))
            (λ e.
              IsReady-view is_new (detect s t).0 (filtered_phase is_new) (detect s t).1 u refl
                (alone e))))

  pub filter_before-IsHandled :
      (s : Tracer)
      → (asks : Asks) → (how : RestartHow) → (t : Traced) → IsReady false s how in_user t
      → s.seccomp_after_ptrace_enter_checked ≡ true
      → IsDefault t
      → IsHandled false before_entry
          (handle_seccomp_stop detranslate_sysnum systrap_size s (is_sysexit_necessary t) asks t)
  unfolding is_stage
  filter_before-IsHandled s asks how t ready checked start =
      let d =
        detect-IsDetected false s t ready.order checked ready.stays
          (inr (ground (ready.stage, arith))) in
      outside-IsHandled false s asks how t ready d (λ e.
        left_alone-IsReady detranslate_sysnum systrap_size (detect s t).0 (detect s t).1
          (d.exe ∙ ready.exe) (d.waiting ∙ ready.waiting) d.order d.detected d.stays
          (d.sysexit ∙ ground (ready.stage, arith)) (d.handled ∙ ground (ready.stage, arith))
          (record {
            how = elim start.how [
              | inl h ↦ inl (ap is_syscall d.how ∙ h)
              | inr h ↦ inr (ap is_cont d.how ∙ h.0, d.accelerated h.1, d.necessary ∙ h.2)
            ];
          }))

  pub filter_only-IsHandled :
      (s : Tracer)
      → (asks : Asks) → (how : RestartHow) → (t : Traced) → IsReady true s how in_user t
      → s.seccomp_after_ptrace_enter_checked ≡ true
      → is_cont how ≡ true
      → is_some asks.filter_flags ≡ true
      → IsHandled true in_call
          (handle_seccomp_stop detranslate_sysnum systrap_size s (is_sysexit_necessary t) asks t)
  unfolding is_stage
  filter_only-IsHandled s asks how t ready checked continues flags =
      let accelerated : is_enabled t.seccomp ≡ true =
        ground (ready.stage, cont-not_syscall how continues, arith) in
      let d =
        detect-IsDetected true s t ready.order checked ready.stays
          (inl (ground (accelerated, ready.detected, arith))) in
      outside-IsHandled true s asks how t ready d
        (λ e. absurd (false≢true (sym e ∙ ground (d.accelerated accelerated, flags, arith))))
