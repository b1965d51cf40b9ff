-- ===== src/Tracee/Event/Stops/Passed.antt =====
-- The parts of a stop at the entry or the exit of a system call.
use doki_proot.Prelude.{
  ℕ, Bool, true, false, not, ◌&&◌, ◌||◌, Option, some, ◌≡◌, refl, sym, ap, ◌∙◌, subst, ◌⊎◌, inl,
  inr, arith, Bool-cases,
}
use doki_proot.Ptrace.{Seccomp}
use doki_proot.Tracee.Event.{
  Tracer, Traced, Asks, no_restart, ptrace_syscall, is_cont, is_syscall, is_enabled, is_disabling,
  translate_syscall, translate_enter, translate_exit, end_seccomp,
}
use doki_proot.Tracee.Event.Answers.{
  mark_void, redeliver, expect_stage, skip_handled, finish_disabling,
}
use doki_proot.Tracee.Event.Handle.{translate_stage, pass_stage, handle_syscall_stop}
use doki_proot.Tracee.Event.Kernel.{Phase, in_user, is_ready, is_stage, is_order}
use doki_proot.Tracee.Event.Stops.{IsDefault}
use doki_proot.Tracee.Event.Stops.View.{view, settle-view, IsReady, take_then, take_else}
use doki_proot.Tracee.Event.Translated.{IsLeft}

-- A stop that leaves the tracee ready for a phase.
pub record IsPassed (is_new : Bool) (s : Tracer) (p : Phase) (o : Option (Traced × Option ℕ))
    : Type 0 where
  pub tracee : Traced
  pub signal : ℕ
  pub passed : o ≡ some (tracee, some signal)
  pub ready : is_ready is_new s tracee.restart_how p tracee ≡ true

pub expect_stage-entry :
    (t : Traced)
    → t.in_sysexit ≡ false
    → IsDefault t
    → is_disabling t.seccomp ≡ false
    → is_syscall (expect_stage t).restart_how ≡ true
unfolding expect_stage is_syscall is_enabled
expect_stage-entry t outside start stays = ground (start.how, arith)

pub expect_stage-exit :
    (t : Traced)
    → t.in_sysexit ≡ true
    → IsDefault t
    → (is_syscall (expect_stage t).restart_how ≡ true)
      ⊎ ((is_cont (expect_stage t).restart_how ≡ true)
          × (is_enabled (expect_stage t).seccomp ≡ true))
unfolding expect_stage is_syscall is_cont is_enabled
expect_stage-exit t inside start = ground (start.how, arith)

pub expect_stage-same :
    (t : Traced)
    → (record (view t) { how = no_restart }) ≡ record (view (expect_stage t)) { how = no_restart }
unfolding expect_stage view
expect_stage-same t = ground arith

pub entered-how :
    (t t' : Traced)
    → is_syscall t.restart_how ≡ true
    → (t'.restart_how ≡ ptrace_syscall) ⊎ (t'.restart_how ≡ t.restart_how)
    → is_syscall t'.restart_how ≡ true
unfolding is_syscall
entered-how t t' e (inl e') = ap is_syscall e'
entered-how t t' e (inr e') = ap is_syscall e' ∙ e

pub end_seccomp-detected :
    (asks : Asks)
    → (x : Seccomp) → (d : Bool) → (not (is_enabled x) || d) ≡ true
    → (not (is_enabled (end_seccomp asks x)) || d) ≡ true
unfolding end_seccomp is_enabled
end_seccomp-detected asks x d e = ground arith

end_seccomp-enabled :
    (asks : Asks)
    → (x : Seccomp) → is_disabling (end_seccomp asks x) ≡ false
    → is_enabled x ≡ true
    → is_enabled (end_seccomp asks x) ≡ true
unfolding end_seccomp is_enabled is_disabling
end_seccomp-enabled asks x stays e = ground arith

pub left-how :
    (asks : Asks)
    → (t t' : Traced) → IsLeft asks t t'
    → ((is_syscall t.restart_how ≡ true)
        ⊎ ((is_cont t.restart_how ≡ true) × (is_enabled t.seccomp ≡ true)))
    → is_disabling t'.seccomp ≡ false
    → (is_syscall t'.restart_how || (is_cont t'.restart_how && is_enabled t'.seccomp)) ≡ true
unfolding is_syscall
left-how asks t t' left start stays = elim left.how [
  | inl e ↦ ap (λ h. is_syscall h || (is_cont h && is_enabled t'.seccomp)) e
  | inr e ↦ elim start [
    | inl syscalls ↦ ground (ap is_syscall e ∙ syscalls, arith)
    | inr continues ↦ ground (
      ap is_cont e ∙ continues.0,
      ap is_enabled left.seccomp_ended
          ∙ end_seccomp-enabled asks t.seccomp (ap is_disabling (sym left.seccomp_ended) ∙ stays)
              continues.1,
      arith,
    )
  ]
]

pub finish_disabling-IsReady :
    (is_new : Bool)
    → (s : Tracer) → (u : Traced) → u.has_exe ≡ true
    → u.is_waiting ≡ false
    → is_order is_new s ≡ true
    → (not (is_enabled u.seccomp) || s.seccomp_detected) ≡ true
    → u.in_sysexit ≡ false
    → u.seccomp_already_handled_enter ≡ false
    → (is_disabling u.seccomp ≡ false
        → (is_syscall u.restart_how || (is_cont u.restart_how && is_enabled u.seccomp)) ≡ true)
    → IsReady is_new s (finish_disabling u).restart_how in_user (finish_disabling u)
unfolding finish_disabling is_stage is_disabling is_enabled is_syscall
finish_disabling-IsReady is_new s u exe waiting order detected outside unhandled how =
    elim (Bool-cases (is_disabling u.seccomp)) [
      | inl e ↦
          subst (λ t. IsReady is_new s t.restart_how in_user t) (sym (take_then _ e))
            (record {
              exe = exe;
              waiting = waiting;
              order = order;
              stays = refl;
              detected = refl;
              stage = ground arith;
            })
      | inr e ↦
          subst (λ t. IsReady is_new s t.restart_how in_user t) (sym (take_else _ e))
            (record {
              exe = exe;
              waiting = waiting;
              order = order;
              stays = e;
              detected = detected;
              stage = ground (how e, arith);
            })
    ]

module _ (detranslate_sysnum : ℕ → ℕ) (systrap_size : ℕ) where
  pub translate_syscall-enter :
      (asks : Asks)
      → (t : Traced) → t.has_exe ≡ true
      → t.in_sysexit ≡ false
      → translate_syscall detranslate_sysnum systrap_size asks t ≡ some (translate_enter asks t)
  unfolding translate_syscall
  translate_syscall-enter asks t exe outside = rw (exe, outside) refl

  pub translate_syscall-exit :
      (asks : Asks)
      → (t : Traced) → t.has_exe ≡ true
      → t.in_sysexit ≡ true
      → translate_syscall detranslate_sysnum systrap_size asks t
        ≡ translate_exit detranslate_sysnum systrap_size asks t
  unfolding translate_syscall
  translate_syscall-exit asks t exe inside = rw (exe, inside) refl

  translate_stage-some :
      (s : Tracer)
      → (asks : Asks) → (t t' : Traced)
      → translate_syscall detranslate_sysnum systrap_size asks t ≡ some t'
      → translate_stage detranslate_sysnum systrap_size s asks t
        ≡ some (redeliver (mark_void s (not t.in_sysexit) t'))
  unfolding translate_stage
  translate_stage-some s asks t t' e = rw (e, translate_stage) refl

  handle_syscall_stop-passed :
      (s : Tracer)
      → (asks : Asks) → (t u : Traced) → (signal : ℕ) → t.has_exe ≡ true
      → is_disabling t.seccomp ≡ false
      → pass_stage detranslate_sysnum systrap_size s asks (expect_stage t) ≡ some (u, some signal)
      → handle_syscall_stop detranslate_sysnum systrap_size s asks t
        ≡ some (finish_disabling u, some signal)
  unfolding handle_syscall_stop
  handle_syscall_stop-passed s asks t u signal exe stays passed =
      take_else _ (ap not exe) ∙ take_else _ stays ∙ rw (passed) refl

  pub handle_syscall_stop-translated :
      (s : Tracer)
      → (asks : Asks) → (t t' : Traced) → t.has_exe ≡ true
      → is_disabling t.seccomp ≡ false
      → (expect_stage t).seccomp_already_handled_enter ≡ false
      → translate_syscall detranslate_sysnum systrap_size asks (expect_stage t) ≡ some t'
      → (u : Traced) × (signal : ℕ) × (handle_syscall_stop detranslate_sysnum systrap_size s asks t
          ≡ some (finish_disabling u, some signal))
        × (view u ≡ view t')
  unfolding pass_stage
  handle_syscall_stop-translated s asks t t' exe stays unhandled translated =
      let r = settle-view s (not (expect_stage t).in_sysexit) t' in
      (
        r.0,
        r.1,
        handle_syscall_stop-passed s asks t r.0 r.1 exe stays (
            take_else _ unhandled
            ∙ translate_stage-some s asks (expect_stage t) t' translated
            ∙ ap some r.2),
        r.3,
      )

  pub handle_syscall_stop-handled :
      (s : Tracer)
      → (asks : Asks) → (t : Traced) → t.has_exe ≡ true
      → is_disabling t.seccomp ≡ false
      → (expect_stage t).seccomp_already_handled_enter ≡ true
      → (expect_stage t).in_sysexit ≡ true
      → s.seccomp_after_ptrace_enter ≡ false
      → handle_syscall_stop detranslate_sysnum systrap_size s asks t
        ≡ some (
          finish_disabling (record (expect_stage t) {
            seccomp_already_handled_enter = false;
            restart_how = ptrace_syscall;
          }),
          some 0,
        )
  unfolding pass_stage skip_handled
  handle_syscall_stop-handled s asks t exe stays handled inside old =
      handle_syscall_stop-passed s asks t _ _ exe stays (
        take_then _ handled
        ∙ take_else _ (ap (λ b. not b || s.seccomp_after_ptrace_enter) inside ∙ old))
