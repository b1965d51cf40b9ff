-- ===== src/Tracee/Event/Stops/Rounds.antt =====
-- A round of the loop at a stop that the kernel may report.
use doki_proot.Prelude.{
  ℕ, ◌<◌, Bool, true, false, Option, some, ◌≡◌, refl, sym, ap, ◌∙◌, subst, inl, inr, arith,
  Bool-cases,
}
use doki_proot.Tracee.Event.{
  Tracer, Traced, Asks, RestartHow, no_restart, is_unset, is_enabled, is_sysexit_necessary,
}
use doki_proot.Tracee.Event.Answers.{
  default_restart, check_order, restart_traced, with_tracer, suppress,
}
use doki_proot.Tracee.Event.Handle.{handle_tracee_event, handle_stop, handle_syscall_stop}
use doki_proot.Tracee.Event.Kernel.{
  Phase, in_user, in_call, after_entry, before_entry, is_stage, Stops, entry, filter_after,
  filter_only, filter_before, entry_after, entry_only, exit, exec, vfork_done, stop, other_signal,
  refused, refused_after, is_other_signal, stop_status, run_stop,
}
use doki_proot.Tracee.Event.Stops.{IsDefault, IsHandled}
use doki_proot.Tracee.Event.Stops.Filters.{
  filter_after-IsHandled, filter_before-IsHandled, filter_only-IsHandled,
}
use doki_proot.Tracee.Event.Stops.Passed.{IsPassed}
use doki_proot.Tracee.Event.Stops.Signals.{
  stage-set, default-IsReady, suppress-IsHandled, handle_sigstop-IsHandled, keep_restart-IsHandled,
  refused-IsHandled, refused_after-IsHandled,
}
use doki_proot.Tracee.Event.Stops.Syscalls.{entry-IsPassed, exit-IsPassed, handled-IsPassed}
use doki_proot.Tracee.Event.Stops.View.{
  IsReady, is_ready-IsReady, take_then, take_else, syscall-not_cont,
}
use mathlib.Core.Bool.{false≢true}
use doki_proot.Tracee.Event.Stops.Begun.{
  default_restart-IsBegun, check_order-checked, begun-IsReady, status-stopped,
}

module _ (detranslate_sysnum : ℕ → ℕ) (systrap_size : ℕ) where
  with_tracer-IsHandled :
      (is_new : Bool)
      → (s : Tracer) → (p : Phase) → (o : Option (Traced × Option ℕ)) → IsPassed is_new s p o
      → IsHandled is_new p (with_tracer s o)
  unfolding with_tracer
  with_tracer-IsHandled is_new s p o passed = record {
    tracer = s;
    tracee = passed.tracee;
    signal = passed.signal;
    handled = ap (with_tracer s) passed.passed;
    ready = passed.ready;
  }

  -- The entry is reported after the stop by seccomp: handled there, or still to be handled.
  reported-IsPassed :
      (s : Tracer)
      → (asks : Asks) → (t : Traced) → IsReady false s t.last_restart_how before_entry t
      → IsDefault t
      → IsPassed false s in_call (handle_syscall_stop detranslate_sysnum systrap_size s asks t)
  unfolding is_stage
  reported-IsPassed s asks t ready start = elim (Bool-cases t.in_sysexit) [
    | inl e ↦
        handled-IsPassed detranslate_sysnum systrap_size s asks t.last_restart_how t ready e
          (ground (ready.stage, e, arith))
    | inr e ↦
        entry-IsPassed detranslate_sysnum systrap_size false s asks t.last_restart_how before_entry
          in_call t ready start e (ground (ready.stage, e, arith)) (λ l e b. ground (e, arith))
  ]

  handle_stop-other :
      (s : Tracer)
      → (necessary : Bool) → (asks : Asks) → (code : ℕ) → (t : Traced) → code < 128
      → is_other_signal code ≡ true
      → handle_stop detranslate_sysnum systrap_size s necessary asks code t
        ≡ some (s, suppress code t)
  unfolding handle_stop is_other_signal
  handle_stop-other s necessary asks code t below other = ground (below, other, arith)

  stop-IsHandled :
      (is_new : Bool)
      → (s : Tracer) → (asks : Asks) → (p q : Phase) → (code : ℕ) → (t : Traced)
      → IsReady is_new s t.last_restart_how p t
      → IsDefault t
      → s.seccomp_after_ptrace_enter_checked ≡ true
      → Stops is_new asks t.last_restart_how p code q
      → IsHandled is_new q
          (handle_stop detranslate_sysnum systrap_size s (is_sysexit_necessary t) asks code t)
  unfolding handle_stop is_stage
  stop-IsHandled is_new s asks p q code t ready start checked (entry new how) =
      with_tracer-IsHandled is_new s after_entry _ (
        entry-IsPassed detranslate_sysnum systrap_size is_new s asks _ in_user after_entry t ready
          start (ground (ready.stage, arith)) (ground (ready.stage, arith))
          (λ l e b. ground (e, arith)))
  stop-IsHandled true s asks p q code t ready start checked (filter_after new) =
      filter_after-IsHandled detranslate_sysnum systrap_size s asks t ready checked
  stop-IsHandled false s asks p q code t ready start checked (filter_after new) =
      absurd (false≢true new)
  stop-IsHandled true s asks p q code t ready start checked (filter_only new how flags) =
      filter_only-IsHandled detranslate_sysnum systrap_size s asks _ t ready checked how flags
  stop-IsHandled false s asks p q code t ready start checked (filter_only new how flags) =
      absurd (false≢true new)
  stop-IsHandled true s asks p q code t ready start checked (filter_before old) =
      absurd (false≢true (sym old))
  stop-IsHandled false s asks p q code t ready start checked (filter_before old) =
      filter_before-IsHandled detranslate_sysnum systrap_size s asks _ t ready checked start
  stop-IsHandled true s asks p q code t ready start checked (entry_after old how) =
      absurd (false≢true (sym old))
  stop-IsHandled false s asks p q code t ready start checked (entry_after old how) =
      with_tracer-IsHandled false s in_call _ (reported-IsPassed s asks t ready start)
  stop-IsHandled is_new s asks p q code t ready start checked (entry_only old how) =
      with_tracer-IsHandled is_new s in_call _ (
        entry-IsPassed detranslate_sysnum systrap_size is_new s asks _ in_user in_call t ready start
          (ground (ready.stage, arith)) (ground (ready.stage, arith)) (λ l e b. ground (e, arith)))
  stop-IsHandled is_new s asks p q code t ready start checked (exit no_wait how) =
      with_tracer-IsHandled is_new s in_user _ (
        exit-IsPassed detranslate_sysnum systrap_size is_new s asks _ in_call t ready start
          (ground (ready.stage, how, syscall-not_cont t.last_restart_how how, arith))
          (ground (ready.stage, arith)) no_wait)
  stop-IsHandled is_new s asks p q code t ready start checked (exec p1) =
      keep_restart-IsHandled is_new s p1 t ready
  stop-IsHandled is_new s asks p q code t ready start checked (vfork_done p1) =
      keep_restart-IsHandled is_new s p1 t ready
  stop-IsHandled is_new s asks p q code t ready start checked stop =
      handle_sigstop-IsHandled is_new s t (default-IsReady is_new s _ t ready start)
  stop-IsHandled is_new s asks p q code t ready start checked (other_signal code1 below other) =
      subst (IsHandled is_new in_user)
        (sym (handle_stop-other s (is_sysexit_necessary t) asks code1 t below other))
        (suppress-IsHandled is_new s code1 t (default-IsReady is_new s _ t ready start))
  stop-IsHandled is_new s asks p q code t ready start checked (refused keeps) =
      refused-IsHandled detranslate_sysnum systrap_size is_new s asks t
        (default-IsReady is_new s _ t ready start)
  stop-IsHandled is_new s asks p q code t ready start checked
        (refused_after new keeps no_wait signal) =
      refused_after-IsHandled detranslate_sysnum systrap_size is_new s asks t ready start keeps
        no_wait signal

-- A round that ends with the tracee restarted and ready for a phase.
pub record IsRound (is_new : Bool) (q : Phase) (o : Option (Tracer × (Traced × Bool)))
    : Type 0 where
  pub tracer : Tracer
  pub tracee : Traced
  pub ran : o ≡ some (tracer, (tracee, true))
  pub unset : tracee.restart_how ≡ no_restart
  pub ready : IsReady is_new tracer tracee.last_restart_how q tracee

abbrev pub restarted_tracee : Traced → Traced
restarted_tracee t = record t {
  last_restart_how = t.restart_how;
  restart_how = no_restart;
  running = true;
}

pub restart_traced-ready :
    (signal : ℕ)
    → (t : Traced) → t.is_waiting ≡ false
    → is_unset t.restart_how ≡ false
    → restart_traced (some signal) t ≡ some (restarted_tracee t, true)
unfolding restart_traced
restart_traced-ready signal t waiting set = take_else _ waiting ∙ take_else _ set

module _ (detranslate_sysnum : ℕ → ℕ) (systrap_size : ℕ) where
  pub handle_tracee_event-stop :
      (assume_new : Bool)
      → (s : Tracer) → (asks : Asks) → (code : ℕ) → (t : Traced) → code < 4096
      → handle_tracee_event detranslate_sysnum systrap_size assume_new s asks (stop_status code) t
        ≡ handle_stop detranslate_sysnum systrap_size
            (check_order assume_new s)
            (is_sysexit_necessary t)
            asks
            code
            (default_restart t)
  unfolding handle_tracee_event
  handle_tracee_event-stop assume_new s asks code t below =
      let status = status-stopped code below in
      take_else _ status.0
      ∙ (take_then (some (check_order assume_new s, (default_restart t, some 0))) status.1
          ∙ ap
              (λ c.
                handle_stop detranslate_sysnum systrap_size (check_order assume_new s)
                  (is_sysexit_necessary t) asks c (default_restart t))
              status.2)

  Stops-below :
      (is_new : Bool)
      → (asks : Asks) → (how : RestartHow) → (p q : Phase) → (code : ℕ)
      → Stops is_new asks how p code q
      → code < 4096
  Stops-below is_new asks how p q code (entry _ _) = ground arith
  Stops-below is_new asks how p q code (filter_after _) = ground arith
  Stops-below is_new asks how p q code (filter_only _ _ _) = ground arith
  Stops-below is_new asks how p q code (filter_before _) = ground arith
  Stops-below is_new asks how p q code (entry_after _ _) = ground arith
  Stops-below is_new asks how p q code (entry_only _ _) = ground arith
  Stops-below is_new asks how p q code (exit _ _) = ground arith
  Stops-below is_new asks how p q code (exec _) = ground arith
  Stops-below is_new asks how p q code (vfork_done _) = ground arith
  Stops-below is_new asks how p q code stop = ground arith
  Stops-below is_new asks how p q code (other_signal _ below _) = ground (below, arith)
  Stops-below is_new asks how p q code (refused _) = ground arith
  Stops-below is_new asks how p q code (refused_after _ _ _ _) = ground arith

  pub run_stop-IsRound :
      (is_new assume_new : Bool)
      → (s : Tracer) → (asks : Asks) → (p q : Phase) → (code : ℕ) → (t : Traced)
      → t.restart_how ≡ no_restart
      → IsReady is_new s t.last_restart_how p t
      → Stops is_new asks t.last_restart_how p code q
      → IsRound is_new q
          (run_stop detranslate_sysnum systrap_size assume_new s asks (stop_status code) t)
  unfolding run_stop
  run_stop-IsRound is_new assume_new s asks p q code t unset ready stops =
      let u = default_restart t in
      let b = default_restart-IsBegun t unset in
      let h =
        stop-IsHandled detranslate_sysnum systrap_size is_new (check_order assume_new s) asks p q
          code u (begun-IsReady is_new assume_new s p t u b ready) b.start
          (check_order-checked assume_new s)
          (subst (λ how. Stops is_new asks how p code q) (sym b.last) stops) in
      let r = is_ready-IsReady is_new h.tracer h.tracee.restart_how q h.tracee h.ready in
      record {
        tracer = h.tracer;
        tracee = restarted_tracee h.tracee;
        ran =
            rw
              (
                handle_tracee_event-stop assume_new s asks code t
                    (Stops-below is_new asks t.last_restart_how p q code stops),
                subst
                    (λ b.
                      handle_stop detranslate_sysnum systrap_size (check_order assume_new s) b asks
                        code u
                      ≡ some (h.tracer, (h.tracee, some h.signal)))
                    b.necessary h.handled,
                restart_traced-ready h.signal h.tracee r.waiting (
                    stage-set q h.tracee.restart_how h.tracee.in_sysexit
                      h.tracee.seccomp_already_handled_enter (is_enabled h.tracee.seccomp) r.stage),
                run_stop,
              )
              refl;
        unset = refl;
        ready = record {
          exe = r.exe;
          waiting = r.waiting;
          order = r.order;
          stays = r.stays;
          detected = r.detected;
          stage = r.stage;
        };
      }
