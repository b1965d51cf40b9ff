-- ===== src/Tracee/Event/Stops/Entering.antt =====
-- What is made of a stop by seccomp once its order is known.
use doki_proot.Prelude.{
  ℕ, ◌%◌, ◌==◌, Bool, true, false, not, ◌&&◌, ◌||◌, Option, none, some, ◌≡◌, refl, sym, ap, ◌∙◌,
  subst, inl, inr, arith, Bool-cases, if◌then◌else◌,
}
use doki_proot.Tracee.Event.{
  Tracer, Traced, Asks, ptrace_cont, ptrace_syscall, is_syscall, is_enabled, is_disabling, is_some,
  is_sysexit_necessary, translate_syscall, translate_enter,
}
use doki_proot.Tracee.Event.Answers.{after_seccomp_enter}
use doki_proot.Tracee.Event.Handle.{seccomp_enter, after_detection}
use doki_proot.Tracee.Event.Kernel.{in_call, after_entry, before_entry, is_stage, is_order}
use doki_proot.Tracee.Event.Stops.{IsDefault}
use doki_proot.Tracee.Event.Stops.Passed.{translate_syscall-enter}
use doki_proot.Tracee.Event.Stops.Settled.{
  IsFiltered, filtered_phase, IsOutside, after_new, unreported-IsReady, entered-IsReady,
  settled-IsReady, IsOutside-how,
}
use doki_proot.Tracee.Event.Stops.View.{IsReady, take_then, take_else, syscall-not_cont}
use doki_proot.Tracee.Event.Translated.{translate_enter-IsEntered, translate_enter-pending}

module _ (detranslate_sysnum : ℕ → ℕ) (systrap_size : ℕ) where
  wanted-IsFiltered :
      (is_new : Bool)
      → (s : Tracer) → (asks : Asks) → (t : Traced) → IsOutside is_new s t
      → IsFiltered is_new s (filtered_phase is_new) (
          if is_new
          then elim (translate_syscall detranslate_sysnum systrap_size asks
              (record t { restart_how = ptrace_syscall })) [
                | none ↦ none
                | some t' ↦ some (record t' { restart_how = ptrace_syscall })
              ]
          else some (record t { restart_how = ptrace_syscall }))
  unfolding is_syscall
  wanted-IsFiltered true s asks t o =
      let u : Traced = record t { restart_how = ptrace_syscall } in
      let entered = translate_enter-IsEntered asks u in
      record {
        tracee = record (translate_enter asks u) { restart_how = ptrace_syscall };
        filtered =
            rw (translate_syscall-enter detranslate_sysnum systrap_size asks u o.exe o.outside)
              refl;
        ready =
            entered-IsReady true s u (translate_enter asks u)
              (IsOutside-how true s ptrace_syscall t o) entered
              (elim entered.how [ inl e ↦ ap is_syscall e | inr e ↦ ap is_syscall e ]);
      }
  wanted-IsFiltered false s asks t o = record {
    tracee = record t { restart_how = ptrace_syscall };
    filtered = refl;
    ready = unreported-IsReady s t o;
  }

  seccomp_enter-IsFiltered :
      (is_new : Bool)
      → (s : Tracer) → (asks : Asks) → (flags : ℕ) → (t : Traced) → IsOutside is_new s t
      → IsFiltered is_new s
          (filtered_phase is_new)
          (seccomp_enter detranslate_sysnum systrap_size s (is_sysexit_necessary t) asks flags t)
  unfolding seccomp_enter
  seccomp_enter-IsFiltered is_new s asks flags t o =
      elim (Bool-cases (flags % 2 == 1 || is_sysexit_necessary t)) [
        | inl e ↦
            subst (IsFiltered is_new s (filtered_phase is_new))
              (ap
                  (λ b.
                    if b
                    then elim (translate_syscall detranslate_sysnum systrap_size asks
                        (record t { restart_how = ptrace_syscall })) [
                          | none ↦ none
                          | some t' ↦ some (record t' { restart_how = ptrace_syscall })
                        ]
                    else some (record t { restart_how = ptrace_syscall }))
                  (sym (after_new is_new s t o))
                ∙ sym (take_then _ e))
              (wanted-IsFiltered is_new s asks t o)
        | inr e ↦
            let u : Traced = record t { restart_how = ptrace_cont } in
            let entered = translate_enter-IsEntered asks u in
            record {
              tracee = after_seccomp_enter s (translate_enter asks u);
              filtered =
                  take_else _ e
                  ∙ rw
                      (translate_syscall-enter detranslate_sysnum systrap_size asks u o.exe
                        o.outside)
                      refl;
              ready =
                  settled-IsReady is_new s u (translate_enter asks u)
                    (IsOutside-how is_new s ptrace_cont t o) entered refl
                    (translate_enter-pending asks u (ground (e, arith)) (ground (e, arith)));
            }
      ]

  -- A tracee that is not accelerated, or whose filter says nothing: only where the entry is still
  -- to be reported.
  pub left_alone-IsReady :
      (s : Tracer)
      → (t : Traced) → t.has_exe ≡ true
      → t.is_waiting ≡ false
      → is_order false s ≡ true
      → s.seccomp_detected ≡ true
      → is_disabling t.seccomp ≡ false
      → t.in_sysexit ≡ false
      → t.seccomp_already_handled_enter ≡ false
      → IsDefault t
      → IsReady false s t.restart_how before_entry t
  unfolding is_stage
  left_alone-IsReady s t exe waiting order detected stays outside unhandled start = record {
    exe = exe;
    waiting = waiting;
    order = order;
    stays = stays;
    detected = ground (detected, arith);
    stage = ground (outside, unhandled, start.how, arith);
  }

  flags-IsFiltered :
      (is_new : Bool)
      → (s : Tracer) → (asks : Asks) → (t : Traced) → IsOutside is_new s t
      → (flags : Option ℕ)
      → (is_some flags ≡ false → IsReady is_new s t.restart_how (filtered_phase is_new) t)
      → IsFiltered is_new s (filtered_phase is_new) (elim flags [
        | none ↦ some t
        | some flags ↦
            seccomp_enter detranslate_sysnum systrap_size s (is_sysexit_necessary t) asks flags t
      ])
  unfolding is_some
  flags-IsFiltered is_new s asks t o none alone = record {
    tracee = t;
    filtered = refl;
    ready = alone refl;
  }
  flags-IsFiltered is_new s asks t o (some flags) alone =
      seccomp_enter-IsFiltered is_new s asks flags t o

  after_detection-outside :
      (s : Tracer)
      → (necessary : Bool) → (asks : Asks) → (t : Traced) → t.in_sysexit ≡ false
      → after_detection detranslate_sysnum systrap_size s necessary asks t ≡ (
          if not (is_enabled t.seccomp) then some t else elim asks.filter_flags [
            | none ↦ some t
            | some flags ↦ seccomp_enter detranslate_sysnum systrap_size s necessary asks flags t
          ])
  unfolding after_detection
  after_detection-outside s necessary asks t outside =
      let late : (s.seccomp_after_ptrace_enter && t.in_sysexit) ≡ false = ground (outside, arith) in
      take_else _ late ∙ take_else _ outside

  pub after_detection-enabled :
      (s : Tracer)
      → (necessary : Bool) → (asks : Asks) → (t : Traced) → t.in_sysexit ≡ false
      → is_enabled t.seccomp ≡ true
      → after_detection detranslate_sysnum systrap_size s necessary asks t
        ≡ elim asks.filter_flags [
          | none ↦ some t
          | some flags ↦ seccomp_enter detranslate_sysnum systrap_size s necessary asks flags t
        ]
  after_detection-enabled s necessary asks t outside e =
      after_detection-outside s necessary asks t outside ∙ take_else _ (ap not e)

  pub after_detection-IsFiltered :
      (is_new : Bool)
      → (s : Tracer) → (asks : Asks) → (t : Traced) → t.has_exe ≡ true
      → t.is_waiting ≡ false
      → is_order is_new s ≡ true
      → s.seccomp_detected ≡ true
      → t.in_sysexit ≡ false
      → t.seccomp_already_handled_enter ≡ false
      → ((is_enabled t.seccomp && is_some asks.filter_flags) ≡ false
          → IsReady is_new s t.restart_how (filtered_phase is_new) t)
      → IsFiltered is_new s
          (filtered_phase is_new)
          (after_detection detranslate_sysnum systrap_size s (is_sysexit_necessary t) asks t)
  after_detection-IsFiltered is_new s asks t exe waiting order detected outside unhandled alone =
      elim (Bool-cases (is_enabled t.seccomp)) [
        | inl e ↦
            subst (IsFiltered is_new s (filtered_phase is_new))
              (sym (after_detection-enabled s (is_sysexit_necessary t) asks t outside e))
              (flags-IsFiltered is_new s asks t
                (record {
                  exe = exe;
                  waiting = waiting;
                  order = order;
                  accelerated = e;
                  detected = detected;
                  outside = outside;
                  unhandled = unhandled;
                })
                asks.filter_flags (λ n. alone (ground (n, arith))))
        | inr e ↦ record {
          tracee = t;
          filtered =
              after_detection-outside s (is_sysexit_necessary t) asks t outside
              ∙ take_then _ (ap not e);
          ready = alone (ground (e, arith));
        }
      ]

  -- The entry was translated at its own stop.
  pub after_detection-skipped :
      (s : Tracer)
      → (necessary : Bool) → (asks : Asks) → (t : Traced)
      → IsReady true s t.last_restart_how after_entry t
      → s.seccomp_detected ≡ true
      → IsFiltered true s in_call
          (after_detection detranslate_sysnum systrap_size s necessary asks t)
  unfolding after_detection is_stage is_order
  after_detection-skipped s necessary asks t ready detected =
      let late : (s.seccomp_after_ptrace_enter && t.in_sysexit) ≡ true =
        ground (ready.order, ready.stage, detected, arith) in
      record {
        tracee = record t { restart_how = t.last_restart_how };
        filtered =
            take_then _ late
            ∙ take_else _ (syscall-not_cont t.last_restart_how (ground (ready.stage, arith)));
        ready = record {
          exe = ready.exe;
          waiting = ready.waiting;
          order = ready.order;
          stays = ready.stays;
          detected = ready.detected;
          stage = ground (ready.stage, arith);
        };
      }
