-- ===== src/Tracee/Event/Stops/Syscalls.antt =====
-- The stops at the entry and at the exit of a system call.
use doki_proot.Prelude.{ℕ, Bool, true, false, not, ◌&&◌, ◌||◌, some, ◌≡◌, sym, ap, ◌∙◌, arith}
use doki_proot.Tracee.Event.{
  Tracer, Traced, Asks, RestartHow, ptrace_syscall, is_cont, is_syscall, is_enabled, is_disabling,
  translate_enter,
}
use doki_proot.Tracee.Event.Answers.{expect_stage, finish_disabling}
use doki_proot.Tracee.Event.Handle.{handle_syscall_stop}
use doki_proot.Tracee.Event.Kernel.{Phase, in_user, in_call, before_entry, is_stage, is_order}
use doki_proot.Tracee.Event.Stops.{IsDefault}
use doki_proot.Tracee.Event.Stops.Passed.{
  IsPassed, expect_stage-entry, expect_stage-exit, expect_stage-same, entered-how,
  end_seccomp-detected, left-how, finish_disabling-IsReady, translate_syscall-enter,
  translate_syscall-exit, handle_syscall_stop-translated, handle_syscall_stop-handled,
}
use doki_proot.Tracee.Event.Stops.View.{
  view, syscall-not_cont, IsReady-view, IsReady, IsReady-is_ready, take_else,
}
use doki_proot.Tracee.Event.Translated.{translate_enter-IsEntered, translate_exit-IsLeft}

module _ (detranslate_sysnum : ℕ → ℕ) (systrap_size : ℕ) where
  -- The stage that PRoot believes in is the entry.
  pub entry-IsPassed :
      (is_new : Bool)
      → (s : Tracer) → (asks : Asks) → (how : RestartHow) → (p q : Phase) → (t : Traced)
      → IsReady is_new s how p t
      → IsDefault t
      → t.in_sysexit ≡ false
      → t.seccomp_already_handled_enter ≡ false
      → ((l : RestartHow) → is_syscall l ≡ true → (b : Bool) → is_stage q l true false b ≡ true)
      → IsPassed is_new s q (handle_syscall_stop detranslate_sysnum systrap_size s asks t)
  unfolding view finish_disabling
  entry-IsPassed is_new s asks how p q t ready start outside unhandled stage =
      let e = expect_stage t in
      let same = expect_stage-same t in
      let t' = translate_enter asks e in
      let entered = translate_enter-IsEntered asks e in
      let r =
        handle_syscall_stop-translated detranslate_sysnum systrap_size s asks t t' ready.exe
          ready.stays (ap (λ v. v.handled) (sym same) ∙ unhandled)
          (translate_syscall-enter detranslate_sysnum systrap_size asks e
            (ap (λ v. v.has_exe) (sym same) ∙ ready.exe)
            (ap (λ v. v.in_sysexit) (sym same) ∙ outside)) in
      let how' = entered-how e t' (expect_stage-entry t outside start ready.stays) entered.how in
      let seccomp' = entered.seccomp_same ∙ ap (λ v. v.seccomp) (sym same) in
      let ready' = IsReady-view is_new s q t' r.0 r.3 (record {
        exe = entered.same.exe ∙ (ap (λ v. v.has_exe) (sym same) ∙ ready.exe);
        waiting = entered.same.waiting ∙ (ap (λ v. v.is_waiting) (sym same) ∙ ready.waiting);
        order = ready.order;
        stays = ap is_disabling seccomp' ∙ ready.stays;
        detected = ap (λ x. not (is_enabled x) || s.seccomp_detected) seccomp' ∙ ready.detected;
        stage =
            ap
              (λ b.
                is_stage q t'.restart_how b t'.seccomp_already_handled_enter
                  (is_enabled t'.seccomp))
              (entered.stage ∙ ap not (syscall-not_cont t'.restart_how how'))
            ∙ (ap (λ b. is_stage q t'.restart_how true b (is_enabled t'.seccomp))
                  (entered.same.handled ∙ (ap (λ v. v.handled) (sym same) ∙ unhandled))
                ∙ stage t'.restart_how how' (is_enabled t'.seccomp));
      }) in
      record {
        tracee = r.0;
        signal = r.1;
        passed = r.2 ∙ ap (λ x. some (x, some r.1)) (take_else _ ready'.stays);
        ready = IsReady-is_ready is_new s r.0.restart_how q r.0 ready';
      }

  -- The stage that PRoot believes in is the exit.
  pub exit-IsPassed :
      (is_new : Bool)
      → (s : Tracer) → (asks : Asks) → (how : RestartHow) → (p : Phase) → (t : Traced)
      → IsReady is_new s how p t
      → IsDefault t
      → t.in_sysexit ≡ true
      → t.seccomp_already_handled_enter ≡ false
      → asks.starts_wait ≡ false
      → IsPassed is_new s in_user (handle_syscall_stop detranslate_sysnum systrap_size s asks t)
  unfolding view
  exit-IsPassed is_new s asks how p t ready start inside unhandled no_wait =
      let e = expect_stage t in
      let same = expect_stage-same t in
      let l = translate_exit-IsLeft detranslate_sysnum systrap_size asks e in
      let t' = l.0 in
      let left = l.2 in
      let r =
        handle_syscall_stop-translated detranslate_sysnum systrap_size s asks t t' ready.exe
          ready.stays (ap (λ v. v.handled) (sym same) ∙ unhandled)
          (translate_syscall-exit detranslate_sysnum systrap_size asks e
              (ap (λ v. v.has_exe) (sym same) ∙ ready.exe)
              (ap (λ v. v.in_sysexit) (sym same) ∙ inside)
            ∙ l.1) in
      let seccomp' = ap (λ v. v.seccomp) (sym same) in
      record {
        tracee = finish_disabling r.0;
        signal = r.1;
        passed = r.2;
        ready = IsReady-is_ready is_new s _ in_user _ (
            finish_disabling-IsReady is_new s r.0
              (ap (λ v. v.has_exe) r.3 ∙ (left.exe ∙ (ap (λ v. v.has_exe) (sym same) ∙ ready.exe)))
              (ap (λ v. v.is_waiting) r.3
                ∙ (left.waiting
                    ∙ (ap (λ b. b || e.is_waiting) no_wait
                        ∙ (ap (λ v. v.is_waiting) (sym same) ∙ ready.waiting))))
              ready.order
              (ap (λ v. not (is_enabled v.seccomp) || s.seccomp_detected) r.3
                ∙ (ap (λ x. not (is_enabled x) || s.seccomp_detected) left.seccomp_ended
                    ∙ end_seccomp-detected asks e.seccomp s.seccomp_detected (
                        ap (λ x. not (is_enabled x) || s.seccomp_detected) seccomp'
                        ∙ ready.detected)))
              (ap (λ v. v.in_sysexit) r.3 ∙ left.stage)
              (ap (λ v. v.handled) r.3
                ∙ (left.handled ∙ (ap (λ v. v.handled) (sym same) ∙ unhandled)))
              (λ stays.
                ap (λ v. is_syscall v.how || (is_cont v.how && is_enabled v.seccomp)) r.3
                ∙ left-how asks e t' left (expect_stage-exit t inside start)
                    (ap (λ v. is_disabling v.seccomp) (sym r.3) ∙ stays)));
      }

  -- The entry was handled at the stop by seccomp.
  pub handled-IsPassed :
      (s : Tracer)
      → (asks : Asks) → (how : RestartHow) → (t : Traced) → IsReady false s how before_entry t
      → t.in_sysexit ≡ true
      → t.seccomp_already_handled_enter ≡ true
      → IsPassed false s in_call (handle_syscall_stop detranslate_sysnum systrap_size s asks t)
  unfolding view finish_disabling is_stage is_order is_syscall
  handled-IsPassed s asks how t ready inside handled =
      let e = expect_stage t in
      let same = expect_stage-same t in
      let u : Traced = record e {
        seccomp_already_handled_enter = false;
        restart_how = ptrace_syscall;
      } in
      let stays = ap (λ v. is_disabling v.seccomp) (sym same) ∙ ready.stays in
      record {
        tracee = u;
        signal = 0;
        passed =
            handle_syscall_stop-handled detranslate_sysnum systrap_size s asks t ready.exe
              ready.stays (ap (λ v. v.handled) (sym same) ∙ handled)
              (ap (λ v. v.in_sysexit) (sym same) ∙ inside)
              (ground (ready.order, ready.detected, ready.stage, inside, handled, arith))
            ∙ ap (λ x. some (x, some 0)) (take_else _ stays);
        ready = IsReady-is_ready false s ptrace_syscall in_call u (record {
          exe = ap (λ v. v.has_exe) (sym same) ∙ ready.exe;
          waiting = ap (λ v. v.is_waiting) (sym same) ∙ ready.waiting;
          order = ready.order;
          stays = stays;
          detected =
              ap (λ v. not (is_enabled v.seccomp) || s.seccomp_detected) (sym same)
              ∙ ready.detected;
          stage =
              ap (λ b. is_stage in_call ptrace_syscall b false (is_enabled e.seccomp))
                (ap (λ v. v.in_sysexit) (sym same) ∙ inside);
        });
      }
