-- ===== src/Tracee/Event/Accelerate.antt =====
-- A system call under seccomp, in the order of recent kernels: when its exit is looked at.
use doki_proot.Prelude.{
  ℕ, ◌%◌, ◌==◌, Bool, true, false, ◌||◌, Option, none, some, ◌≡◌, refl, sym, ap, ◌∙◌, subst, arith,
  Bool-cases, inl, inr, if◌then◌else◌,
}
use doki_proot.Ptrace.Events.{event_stop}
use doki_proot.Tracee.Event.{
  Tracer, Traced, Asks, RestartHow, ptrace_cont, ptrace_syscall, is_enabled, is_disabling,
  is_sysexit_necessary, is_unset, is_syscall, is_cont, is_chaining, translate_enter,
  push_specific_regs, set_stage, apply_handler,
}
use doki_proot.Tracee.Event.Answers.{after_seccomp_enter, detect, default_restart, check_order}
use doki_proot.Tracee.Event.Handle.{
  seccomp_enter, after_detection, handle_seccomp_stop, handle_stop, handle_tracee_event,
}
use doki_proot.Tracee.Event.Kernel.{in_user, is_stage, is_order, stop_status, run_stop}
use doki_proot.Tracee.Event.Translated.{enter_call-requested, translate_enter-IsEntered}
use doki_proot.Tracee.Event.Reach.{Reaches, Reaches-is_ready, Reaches-unset}
use doki_proot.Tracee.Event.Stops.Begun.{default_restart-IsBegun, begun-IsReady}
use doki_proot.Tracee.Event.Stops.Rounds.{
  handle_tracee_event-stop, restarted_tracee, restart_traced-ready,
}
use doki_proot.Tracee.Event.Stops.Passed.{translate_syscall-enter}
use doki_proot.Tracee.Event.Stops.Entering.{after_detection-enabled}
use doki_proot.Tracee.Event.Stops.View.{is_ready-IsReady, take_then, take_else, cont-not_syscall}

-- Whether the exit of a system call is wanted: by the filter, by what goes on in the tracee, or by
-- the handlers of the entry.
unfoldable pub is_exit_wanted : ℕ → Asks → Traced → Bool
is_exit_wanted flags asks t =
    flags % 2 == 1 || (is_sysexit_necessary t || (asks.wants_sysexit || asks.wants_syscall))

abbrev pub restart_of : Bool → RestartHow
restart_of wanted = if wanted then ptrace_syscall else ptrace_cont

translate_enter-asked :
    (asks : Asks)
    → (t : Traced) → is_chaining t ≡ false
    → ((translate_enter asks (record t { restart_how = ptrace_cont })).restart_how
        ≡ restart_of (asks.wants_sysexit || asks.wants_syscall))
      × ((translate_enter asks (record t { restart_how = ptrace_cont })).sysexit_pending
          ≡ (asks.wants_sysexit || t.sysexit_pending))
      × ((translate_enter asks (record t { restart_how = ptrace_cont })).seccomp ≡ t.seccomp)
      × ((translate_enter asks (record t { restart_how = ptrace_cont })).is_waiting ≡ t.is_waiting)
unfolding translate_enter push_specific_regs set_stage apply_handler
translate_enter-asked asks t unchained =
    let e =
      enter_call-requested asks (set_stage false (record t { restart_how = ptrace_cont }))
        unchained in
    (
      ap (λ u. u.restart_how) e,
      ap (λ u. u.sysexit_pending) e,
      ap (λ u. u.seccomp) e,
      ap (λ u. u.is_waiting) e,
    )

after_seccomp_enter-asked :
    (s : Tracer)
    → (t : Traced) → (a b : Bool) → t.restart_how ≡ restart_of (a || b)
    → t.sysexit_pending ≡ a
    → is_disabling t.seccomp ≡ false
    → (after_seccomp_enter s t).restart_how ≡ restart_of (a || b)
unfolding after_seccomp_enter
after_seccomp_enter-asked s t a b how pending stays = ground arith

detect-detected : (s : Tracer) → (t : Traced) → s.seccomp_detected ≡ true → detect s t ≡ (s, t)
unfolding detect
detect-detected s t detected = take_then _ detected

module _ (detranslate_sysnum : ℕ → ℕ) (systrap_size : ℕ) where
  -- A stop by seccomp that is restarted as is wanted.
  record IsAsked (wanted waiting : Bool) (o : Option Traced) : Type 0 where
    tracee : Traced
    asked : o ≡ some tracee
    how : tracee.restart_how ≡ restart_of wanted
    waits : tracee.is_waiting ≡ waiting

  seccomp_enter-IsAsked :
      (s : Tracer)
      → (asks : Asks) → (flags : ℕ) → (t : Traced) → s.seccomp_after_ptrace_enter ≡ true
      → t.has_exe ≡ true
      → t.in_sysexit ≡ false
      → is_disabling t.seccomp ≡ false
      → IsAsked
          (is_exit_wanted flags asks t)
          t.is_waiting
          (seccomp_enter detranslate_sysnum systrap_size s (is_sysexit_necessary t) asks flags t)
  unfolding seccomp_enter is_exit_wanted after_seccomp_enter
  seccomp_enter-IsAsked s asks flags t new exe outside stays =
      elim (Bool-cases (flags % 2 == 1 || is_sysexit_necessary t)) [
        | inl e ↦
            let u : Traced = record t { restart_how = ptrace_syscall } in
            let wanted : is_exit_wanted flags asks t ≡ true = ground (e, arith) in
            record {
              tracee = record (translate_enter asks u) { restart_how = ptrace_syscall };
              asked =
                  take_then _ e
                  ∙ (take_then _ new
                      ∙ rw
                          (translate_syscall-enter detranslate_sysnum systrap_size asks u exe
                            outside)
                          refl);
              how = sym (ap restart_of wanted);
              waits = (translate_enter-IsEntered asks u).same.waiting;
            }
        | inr e ↦
            let unchained : is_chaining t ≡ false = ground (e, arith) in
            let r = translate_enter-asked asks t unchained in
            let v = translate_enter asks (record t { restart_how = ptrace_cont }) in
            let asked : is_exit_wanted flags asks t ≡ (asks.wants_sysexit || asks.wants_syscall) =
              ground (e, arith) in
            record {
              tracee =
                  after_seccomp_enter s
                    (translate_enter asks (record t { restart_how = ptrace_cont }));
              asked =
                  take_else _ e
                  ∙ rw
                      (translate_syscall-enter detranslate_sysnum systrap_size asks
                        (record t { restart_how = ptrace_cont }) exe outside)
                      refl;
              how =
                  after_seccomp_enter-asked s v asks.wants_sysexit asks.wants_syscall r.0
                    (r.1 ∙ ground (e, arith)) (ap is_disabling r.2 ∙ stays)
                  ∙ ap restart_of (sym asked);
              waits = r.3;
            }
      ]

  after_detection-IsAsked :
      (s : Tracer)
      → (asks : Asks) → (flags : ℕ) → (t : Traced) → s.seccomp_after_ptrace_enter ≡ true
      → t.has_exe ≡ true
      → t.in_sysexit ≡ false
      → is_enabled t.seccomp ≡ true
      → is_disabling t.seccomp ≡ false
      → asks.filter_flags ≡ some flags
      → IsAsked
          (is_exit_wanted flags asks t)
          t.is_waiting
          (after_detection detranslate_sysnum systrap_size s (is_sysexit_necessary t) asks t)
  after_detection-IsAsked s asks flags t new exe outside accelerated stays told =
      let r = seccomp_enter-IsAsked s asks flags t new exe outside stays in
      record {
        tracee = r.tracee;
        asked =
            after_detection-enabled detranslate_sysnum systrap_size s (is_sysexit_necessary t) asks
              t outside accelerated
            ∙ (ap
                  (λ o. elim o [
                    | none ↦ some t
                    | some flags ↦
                        seccomp_enter detranslate_sysnum systrap_size s (is_sysexit_necessary t)
                          asks flags t
                  ])
                  told
                ∙ r.asked);
        how = r.how;
        waits = r.waits;
      }

  handle_seccomp_stop-IsAsked :
      (s : Tracer)
      → (asks : Asks) → (flags : ℕ) → (t : Traced) → s.seccomp_detected ≡ true
      → s.seccomp_after_ptrace_enter ≡ true
      → t.has_exe ≡ true
      → t.in_sysexit ≡ false
      → is_enabled t.seccomp ≡ true
      → is_disabling t.seccomp ≡ false
      → asks.filter_flags ≡ some flags
      → (t' : Traced) × (handle_seccomp_stop detranslate_sysnum systrap_size s
            (is_sysexit_necessary t)
            asks
            t
          ≡ some (s, (t', some 0)))
        × (t'.restart_how ≡ restart_of (is_exit_wanted flags asks t))
        × (t'.is_waiting ≡ t.is_waiting)
  unfolding handle_seccomp_stop is_exit_wanted
  handle_seccomp_stop-IsAsked s asks flags t detected new exe outside accelerated stays told =
      let r =
        after_detection-IsAsked s asks flags (record t { skip_next_seccomp_signal = false }) new exe
          outside accelerated stays told in
      (
        r.tracee,
        ap
              (λ x.
                elim (after_detection detranslate_sysnum systrap_size x.0 (is_sysexit_necessary t)
                  asks (record (x.1) { skip_next_seccomp_signal = false })) [
                    | none ↦ none
                    | some t' ↦ some (x.0, (t', some 0))
                  ])
              (detect-detected s t detected)
            ∙ ap (λ o. elim o [ none ↦ none | some t' ↦ some (s, (t', some 0)) ]) r.asked,
        r.how,
        r.waits,
      )

  restart_of-set : (wanted : Bool) → is_unset (restart_of wanted) ≡ false
  unfolding is_unset
  restart_of-set true = refl
  restart_of-set false = refl

  default_restart-wanted :
      (flags : ℕ)
      → (asks : Asks) → (t : Traced)
      → is_exit_wanted flags asks (default_restart t) ≡ is_exit_wanted flags asks t
  unfolding is_exit_wanted default_restart
  default_restart-wanted flags asks t = ground arith

  run_stop-handled :
      (assume_new : Bool)
      → (s s' : Tracer) → (asks : Asks) → (event : ℕ) → (t t' : Traced) → (signal : ℕ)
      → (wanted : Bool)
      → handle_tracee_event detranslate_sysnum systrap_size assume_new s asks event t
        ≡ some (s', (t', some signal))
      → t'.is_waiting ≡ false
      → t'.restart_how ≡ restart_of wanted
      → run_stop detranslate_sysnum systrap_size assume_new s asks event t
        ≡ some (s', (restarted_tracee t', true))
  unfolding run_stop
  run_stop-handled assume_new s s' asks event t t' signal wanted handled waits how =
      rw
        (
          handled,
          restart_traced-ready signal t' waits (ap is_unset how ∙ restart_of-set wanted),
          run_stop,
        )
        refl

  -- In the order of recent kernels: a tracee that is reached in its own code, restarted by PTRACE_CONT
  -- before, is restarted after the stop by seccomp of its next system call, whose filter's flags can
  -- be read, by PTRACE_SYSCALL if the filter, a pending exit, a chain, a call that is made again or a
  -- handler of the entry wants the exit, and else by PTRACE_CONT.
  pub Reaches-restart :
      (assume_new : Bool)
      → (s : Tracer) → (t : Traced) → (asks : Asks) → (flags : ℕ)
      → Reaches detranslate_sysnum systrap_size true assume_new in_user s t
      → is_cont t.last_restart_how ≡ true
      → asks.filter_flags ≡ some flags
      → (s' : Tracer) × (t' : Traced) × (run_stop detranslate_sysnum systrap_size assume_new s asks
            (stop_status (event_stop 7))
            t
          ≡ some (s', (t', true)))
        × (t'.last_restart_how ≡ restart_of (is_exit_wanted flags asks t))
  unfolding is_stage is_order handle_stop
  Reaches-restart assume_new s t asks flags reached continues told =
      let u = default_restart t in
      let s' = check_order assume_new s in
      let b =
        default_restart-IsBegun t
          (Reaches-unset detranslate_sysnum systrap_size true assume_new in_user s t reached) in
      let ready = begun-IsReady true assume_new s in_user t u b (
        is_ready-IsReady true s t.last_restart_how in_user t
          (Reaches-is_ready detranslate_sysnum systrap_size true assume_new in_user s t reached)) in
      let slow : is_syscall u.last_restart_how ≡ false =
        ap is_syscall b.last ∙ cont-not_syscall t.last_restart_how continues in
      let accelerated : is_enabled u.seccomp ≡ true = ground (ready.stage, slow, arith) in
      let detected : s'.seccomp_detected ≡ true = ground (ready.detected, accelerated, arith) in
      let h =
        handle_seccomp_stop-IsAsked s' asks flags u detected (ground (ready.order, detected, arith))
          ready.exe (ground (ready.stage, arith)) accelerated ready.stays told in
      let handled =
        handle_tracee_event-stop detranslate_sysnum systrap_size assume_new s asks (event_stop 7) t
          (ground arith) in
      let stopped : handle_stop detranslate_sysnum systrap_size s' (is_sysexit_necessary t) asks
            (event_stop 7) u
          ≡ some (s', (h.0, some 0)) =
        subst
          (λ n.
            handle_stop detranslate_sysnum systrap_size s' n asks (event_stop 7) u
            ≡ some (s', (h.0, some 0)))
          b.necessary h.1 in
      (
        s',
        restarted_tracee h.0,
        run_stop-handled assume_new s s' asks (stop_status (event_stop 7)) t h.0 0
            (is_exit_wanted flags asks u) (handled ∙ stopped) (h.3 ∙ ready.waiting) h.2,
        h.2 ∙ ap restart_of (default_restart-wanted flags asks t),
      )
