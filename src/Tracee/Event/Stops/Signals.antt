-- ===== src/Tracee/Event/Stops/Signals.antt =====
-- The stops by a signal, and those that keep the way the tracee is restarted.
use doki_proot.Prelude.{
  ℕ, Bool, true, false, not, ◌&&◌, ◌||◌, Option, some, ◌≡◌, refl, sym, ap, ◌∙◌, subst, inl, inr,
  arith, Bool-cases,
}
use doki_proot.Ptrace.{Seccomp, Sigstop, sigstop_allowed, sigstop_ignored, sigstop_pending}
use doki_proot.Ptrace.Events.{sigsys}
use doki_proot.Tracee.Event.{
  Tracer, Traced, Asks, RestartHow, is_unset, is_cont, is_syscall, is_enabled, is_disabling,
  is_chaining, end_seccomp,
}
use doki_proot.Tracee.Event.Answers.{
  take_stop, suppress, handle_sigstop, sigstop_signal, keep_restart, restart_syscall_after_seccomp,
  answer_sigsys, answer_stage,
}
use doki_proot.Tracee.Event.Handle.{handle_sigsys}
use doki_proot.Tracee.Event.Kernel.{Phase, in_user, after_entry, is_stage}
use doki_proot.Tracee.Event.Stops.{IsDefault, IsHandled}
use doki_proot.Tracee.Event.Stops.Passed.{translate_syscall-exit}
use doki_proot.Tracee.Event.Stops.View.{
  view, IsReady, IsReady-is_ready, IsReady-view, take_then, take_else,
}
use doki_proot.Tracee.Event.Translated.{translate_exit-IsLeft, IsLeft}

-- In its own code the tracee is ready for the way that is chosen by default.
pub default-IsReady :
    (is_new : Bool)
    → (s : Tracer) → (how : RestartHow) → (t : Traced) → IsReady is_new s how in_user t
    → IsDefault t
    → IsReady is_new s t.restart_how in_user t
unfolding is_stage
default-IsReady is_new s how t ready start = record {
  exe = ready.exe;
  waiting = ready.waiting;
  order = ready.order;
  stays = ready.stays;
  detected = ready.detected;
  stage = ground (ready.stage, start.how, arith);
}

suppress-view :
    (code : ℕ)
    → (t : Traced)
    → (u : Traced) × (signal : ℕ) × (suppress code t ≡ (u, some signal)) × (view u ≡ view t)
unfolding suppress view
suppress-view code t =
    elim (Bool-cases (is_chaining t || t.restore_original_regs_after_seccomp_event)) [
      | inl e ↦ (record t { suppressed_signal = code }, 0, take_then _ e, refl)
      | inr e ↦ (t, code, take_else _ e, refl)
    ]

take_stop-view :
    (x : Sigstop)
    → (t : Traced)
    → (u : Traced) × (signal : ℕ) × (take_stop x t ≡ (u, some signal)) × (view u ≡ view t)
unfolding view take_stop
take_stop-view sigstop_ignored t = (record t { sigstop = sigstop_allowed }, 0, refl, refl)
take_stop-view sigstop_allowed t = (t, sigstop_signal, refl, refl)
take_stop-view sigstop_pending t = (t, sigstop_signal, refl, refl)

handle_sigstop-view :
    (t : Traced)
    → t.has_exe ≡ true
    → (u : Traced) × (signal : ℕ) × (handle_sigstop t ≡ (u, some signal)) × (view u ≡ view t)
unfolding handle_sigstop
handle_sigstop-view t exe =
    let r = take_stop-view t.sigstop t in (r.0, r.1, take_then _ exe ∙ r.2, r.3)

-- A stop that leaves what the tracee looks like.
viewed-IsHandled :
    (is_new : Bool)
    → (s : Tracer) → (t : Traced) → (x : Traced × Option ℕ)
    → ((u : Traced) × (signal : ℕ) × (x ≡ (u, some signal)) × (view u ≡ view t))
    → IsReady is_new s t.restart_how in_user t
    → IsHandled is_new in_user (some (s, x))
viewed-IsHandled is_new s t x r ready = record {
  tracer = s;
  tracee = r.0;
  signal = r.1;
  handled = ap (λ y. some (s, y)) r.2;
  ready =
      IsReady-is_ready is_new s r.0.restart_how in_user r.0
        (IsReady-view is_new s in_user t r.0 r.3 ready);
}

pub suppress-IsHandled :
    (is_new : Bool)
    → (s : Tracer) → (code : ℕ) → (t : Traced) → IsReady is_new s t.restart_how in_user t
    → IsHandled is_new in_user (some (s, suppress code t))
suppress-IsHandled is_new s code t =
    viewed-IsHandled is_new s t (suppress code t) (suppress-view code t)

pub handle_sigstop-IsHandled :
    (is_new : Bool)
    → (s : Tracer) → (t : Traced) → IsReady is_new s t.restart_how in_user t
    → IsHandled is_new in_user (some (s, handle_sigstop t))
handle_sigstop-IsHandled is_new s t ready =
    viewed-IsHandled is_new s t (handle_sigstop t) (handle_sigstop-view t ready.exe) ready

end_seccomp-kept :
    (asks : Asks) → (x : Seccomp) → asks.ends_seccomp ≡ false → end_seccomp asks x ≡ x
unfolding end_seccomp
end_seccomp-kept asks x e = ground arith

pub stage-set :
    (p : Phase)
    → (how : RestartHow) → (sysexit handled accelerated : Bool)
    → is_stage p how sysexit handled accelerated ≡ true
    → is_unset how ≡ false
unfolding is_stage is_unset is_syscall is_cont
stage-set p how sysexit handled accelerated e = ground arith

pub keep_restart-IsHandled :
    (is_new : Bool)
    → (s : Tracer) → (p : Phase) → (t : Traced) → IsReady is_new s t.last_restart_how p t
    → IsHandled is_new p (some (s, (keep_restart t, some 0)))
unfolding keep_restart
keep_restart-IsHandled is_new s p t ready = record {
  tracer = s;
  tracee = record t { restart_how = t.last_restart_how };
  signal = 0;
  handled =
      ap (λ u. some (s, (u, some 0)))
        (take_else _ (
          stage-set p t.last_restart_how t.in_sysexit t.seccomp_already_handled_enter
            (is_enabled t.seccomp) ready.stage));
  ready = IsReady-is_ready is_new s t.last_restart_how p _ (record {
    exe = ready.exe;
    waiting = ready.waiting;
    order = ready.order;
    stays = ready.stays;
    detected = ready.detected;
    stage = ready.stage;
  });
}

left-IsReady :
    (is_new : Bool)
    → (s : Tracer) → (asks : Asks) → (t t' : Traced) → asks.ends_seccomp ≡ false
    → asks.starts_wait ≡ false
    → IsReady is_new s t.last_restart_how after_entry t
    → IsDefault t
    → IsLeft asks t t'
    → IsReady is_new s t'.restart_how in_user t'
unfolding is_stage is_syscall
left-IsReady is_new s asks t t' keeps no_wait ready start left =
    let same = left.seccomp_ended ∙ end_seccomp-kept asks t.seccomp keeps in
    record {
      exe = left.exe ∙ ready.exe;
      waiting = left.waiting ∙ (ap (λ b. b || t.is_waiting) no_wait ∙ ready.waiting);
      order = ready.order;
      stays = ap is_disabling same ∙ ready.stays;
      detected = ap (λ x. not (is_enabled x) || s.seccomp_detected) same ∙ ready.detected;
      stage = elim left.how [
        | inl e ↦ ground (left.stage, left.handled, ready.stage, ap is_syscall e, arith)
        | inr e ↦ ground (
          left.stage,
          left.handled,
          ready.stage,
          ap is_syscall e,
          ap is_cont e,
          ap is_enabled same,
          start.how,
          arith,
        )
      ];
    }

restarted-IsReady :
    (is_new : Bool)
    → (s : Tracer) → (asks : Asks) → (t : Traced) → IsReady is_new s t.restart_how in_user t
    → (u : Traced) → u ≡ restart_syscall_after_seccomp asks t
    → IsReady is_new s u.restart_how in_user u
unfolding restart_syscall_after_seccomp is_stage is_syscall
restarted-IsReady is_new s asks t ready u e = elim (Bool-cases asks.restarts_syscall) [
  | inl r ↦
      subst (λ u. IsReady is_new s u.restart_how in_user u) (sym (e ∙ take_then _ r))
        (record {
          exe = ready.exe;
          waiting = ready.waiting;
          order = ready.order;
          stays = ready.stays;
          detected = ready.detected;
          stage = ground (ready.stage, arith);
        })
  | inr r ↦ subst (λ u. IsReady is_new s u.restart_how in_user u) (sym (e ∙ take_else _ r)) ready
]

-- What is done after the exit that SIGSYS stands for.
answer_sigsys-IsHandled :
    (is_new : Bool)
    → (s : Tracer) → (asks : Asks) → (t : Traced) → IsReady is_new s t.restart_how in_user t
    → IsHandled is_new in_user (answer_sigsys s asks t)
unfolding answer_sigsys view
answer_sigsys-IsHandled is_new s asks t ready =
    elim (Bool-cases
      (t.skip_next_seccomp_signal || (s.seccomp_after_ptrace_enter && asks.is_avoider))) [
        | inl e ↦ record {
          tracer = s;
          tracee = record t { skip_next_seccomp_signal = false };
          signal = 0;
          handled = take_then _ e;
          ready =
              IsReady-is_ready is_new s t.restart_how in_user _
                (IsReady-view is_new s in_user t _ refl ready);
        }
        | inr e ↦ record {
          tracer = s;
          tracee = restart_syscall_after_seccomp asks t;
          signal = asks.seccomp_signal;
          handled = take_else _ e;
          ready =
              IsReady-is_ready is_new s _ in_user _
                (restarted-IsReady is_new s asks t ready _ refl);
        }
      ]

module _ (detranslate_sysnum : ℕ → ℕ) (systrap_size : ℕ) where
  pub refused-IsHandled :
      (is_new : Bool)
      → (s : Tracer) → (asks : Asks) → (t : Traced) → IsReady is_new s t.restart_how in_user t
      → IsHandled is_new in_user (handle_sigsys detranslate_sysnum systrap_size s asks t)
  unfolding handle_sigsys answer_stage is_stage
  refused-IsHandled is_new s asks t ready = elim (Bool-cases asks.is_seccomp_signal) [
    | inl e ↦
        let outside : t.in_sysexit ≡ false = ground (ready.stage, arith) in
        subst (IsHandled is_new in_user) (sym (take_else _ (ap not e) ∙ rw (outside) refl))
          (answer_sigsys-IsHandled is_new s asks t ready)
    | inr e ↦ record {
      tracer = s;
      tracee = t;
      signal = sigsys;
      handled = take_then _ (ap not e);
      ready = IsReady-is_ready is_new s t.restart_how in_user t ready;
    }
  ]

  pub refused_after-IsHandled :
      (is_new : Bool)
      → (s : Tracer) → (asks : Asks) → (t : Traced)
      → IsReady is_new s t.last_restart_how after_entry t
      → IsDefault t
      → asks.ends_seccomp ≡ false
      → asks.starts_wait ≡ false
      → asks.is_seccomp_signal ≡ true
      → IsHandled is_new in_user (handle_sigsys detranslate_sysnum systrap_size s asks t)
  unfolding handle_sigsys answer_stage is_stage
  refused_after-IsHandled is_new s asks t ready start keeps no_wait refused =
      let inside : t.in_sysexit ≡ true = ground (ready.stage, arith) in
      let l = translate_exit-IsLeft detranslate_sysnum systrap_size asks t in
      subst (IsHandled is_new in_user)
        (sym (
          take_else _ (ap not refused)
          ∙ ap (answer_stage s asks) (
              take_then _ inside
              ∙ (translate_syscall-exit detranslate_sysnum systrap_size asks t ready.exe inside
                  ∙ l.1))))
        (answer_sigsys-IsHandled is_new s asks l.0
          (left-IsReady is_new s asks t l.0 keeps no_wait ready start l.2))
