-- ===== src/Tracee/Event/Stops/Detected.antt =====
-- The first stop by seccomp, from which its order is known.
use doki_proot.Prelude.{Bool, true, false, ◌≡◌, refl, sym, subst, ◌⊎◌, inl, inr, arith, Bool-cases}
use doki_proot.Tracee.Event.{Tracer, Traced, is_enabled, is_disabling, is_sysexit_necessary}
use doki_proot.Tracee.Event.Answers.{detect}
use doki_proot.Tracee.Event.Kernel.{is_order}
use doki_proot.Tracee.Event.Stops.View.{take_then, take_else}

-- What the detection of seccomp leaves.
pub record IsDetected (is_new : Bool) (t : Traced) (x : Tracer × Traced) : Type 0 where
  pub order : is_order is_new (x.0) ≡ true
  pub detected : x.0.seccomp_detected ≡ true
  pub exe : x.1.has_exe ≡ t.has_exe
  pub waiting : x.1.is_waiting ≡ t.is_waiting
  pub sysexit : x.1.in_sysexit ≡ t.in_sysexit
  pub handled : x.1.seccomp_already_handled_enter ≡ t.seccomp_already_handled_enter
  pub how : x.1.restart_how ≡ t.restart_how
  pub last : x.1.last_restart_how ≡ t.last_restart_how
  pub necessary : is_sysexit_necessary x.1 ≡ is_sysexit_necessary t
  pub stays : is_disabling x.1.seccomp ≡ false
  pub accelerated : is_enabled t.seccomp ≡ true → is_enabled x.1.seccomp ≡ true

pub detect-IsDetected :
    (is_new : Bool)
    → (s : Tracer) → (t : Traced) → is_order is_new s ≡ true
    → s.seccomp_after_ptrace_enter_checked ≡ true
    → is_disabling t.seccomp ≡ false
    → ((s.seccomp_detected ≡ true) ⊎ (t.in_sysexit ≡ is_new))
    → IsDetected is_new t (detect s t)
unfolding detect is_order is_disabling is_enabled
detect-IsDetected is_new s t order checked stays cause = elim (Bool-cases s.seccomp_detected) [
  | inl e ↦ subst (IsDetected is_new t) (sym (take_then _ e)) (record {
    order = order;
    detected = e;
    exe = refl;
    waiting = refl;
    sysexit = refl;
    handled = refl;
    how = refl;
    last = refl;
    necessary = refl;
    stays = stays;
    accelerated = λ a. a;
  })
  | inr e ↦ subst (IsDetected is_new t) (sym (take_else _ e)) (record {
    order = ground (order, checked, cause, e, arith);
    detected = refl;
    exe = refl;
    waiting = refl;
    sysexit = refl;
    handled = refl;
    how = refl;
    last = refl;
    necessary = refl;
    stays = refl;
    accelerated = λ a. refl;
  })
]
