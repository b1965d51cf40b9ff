-- ===== src/Tracee/Event/Stops/View.antt =====
-- The fields of a tracee that say whether it is ready, and the definitions that leave them.
use doki_proot.Prelude.{
  arith, if◌then◌else◌, ℕ, Bool, true, false, not, ◌&&◌, ◌||◌, some, ◌≡◌, refl, ap, ◌∙◌, inl, inr,
  Bool-cases,
}
use doki_proot.Ptrace.{Seccomp}
use doki_proot.Tracee.Event.{
  is_cont, is_syscall, Tracer, Traced, RestartHow, is_enabled, is_disabling,
}
use doki_proot.Tracee.Event.Answers.{mark_void, redeliver, is_redelivered}
use doki_proot.Tracee.Event.Kernel.{Phase, is_ready, is_stage, is_order}

pub record View : Type 0 where
  pub has_exe : Bool
  pub is_waiting : Bool
  pub in_sysexit : Bool
  pub handled : Bool
  pub seccomp : Seccomp
  pub how : RestartHow

unfoldable pub view : Traced → View
view t = record {
  has_exe = t.has_exe;
  is_waiting = t.is_waiting;
  in_sysexit = t.in_sysexit;
  handled = t.seccomp_already_handled_enter;
  seccomp = t.seccomp;
  how = t.restart_how;
}

pub is_ready-view :
    (is_new : Bool)
    → (s : Tracer) → (p : Phase) → (t u : Traced) → view u ≡ view t
    → is_ready is_new s t.restart_how p t ≡ true
    → is_ready is_new s u.restart_how p u ≡ true
unfolding is_ready view
is_ready-view is_new s p t u e ready =
    ap
      (λ v.
        (v.has_exe && not v.is_waiting)
        && ((is_order is_new s && not (is_disabling v.seccomp))
            && ((not (is_enabled v.seccomp) || s.seccomp_detected)
                && is_stage p v.how v.in_sysexit v.handled (is_enabled v.seccomp))))
      e
    ∙ ready

mark_void-view : (s : Tracer) → (b : Bool) → (t : Traced) → view (mark_void s b t) ≡ view t
unfolding mark_void view
mark_void-view s true t = refl
mark_void-view s false t = refl

redeliver-view :
    (t : Traced)
    → (u : Traced) × (signal : ℕ) × (redeliver t ≡ (u, some signal)) × (view u ≡ view t)
unfolding redeliver view
redeliver-view t = elim (Bool-cases (is_redelivered t)) [
  | inl e ↦ (record t { suppressed_signal = 0 }, t.suppressed_signal, rw (e) refl, refl)
  | inr e ↦ (t, 0, rw (e) refl, refl)
]

pub settle-view :
    (s : Tracer)
    → (b : Bool) → (t : Traced)
    → (u : Traced) × (signal : ℕ) × (redeliver (mark_void s b t) ≡ (u, some signal))
      × (view u ≡ view t)
settle-view s b t =
    let r = redeliver-view (mark_void s b t) in (r.0, r.1, r.2, r.3 ∙ mark_void-view s b t)

pub take_then {ℓ} :
    {A : Type ℓ} → {b : Bool} → {x : A} → (y : A) → b ≡ true → (if b then x else y) ≡ x
take_then y e = rw (e) refl

pub take_else {ℓ} :
    {A : Type ℓ} → {b : Bool} → {y : A} → (x : A) → b ≡ false → (if b then x else y) ≡ y
take_else x e = rw (e) refl

-- What it is to be ready, one by one.
pub record IsReady (is_new : Bool) (s : Tracer) (how : RestartHow) (p : Phase) (t : Traced)
    : Type 0 where
  pub exe : t.has_exe ≡ true
  pub waiting : t.is_waiting ≡ false
  pub order : is_order is_new s ≡ true
  pub stays : is_disabling t.seccomp ≡ false
  pub detected : (not (is_enabled t.seccomp) || s.seccomp_detected) ≡ true
  pub stage :
      is_stage p how t.in_sysexit t.seccomp_already_handled_enter (is_enabled t.seccomp) ≡ true

pub is_ready-IsReady :
    (is_new : Bool)
    → (s : Tracer) → (how : RestartHow) → (p : Phase) → (t : Traced)
    → is_ready is_new s how p t ≡ true
    → IsReady is_new s how p t
unfolding is_ready
is_ready-IsReady is_new s how p t ready = record {
  exe = ground arith;
  waiting = ground arith;
  order = ground arith;
  stays = ground arith;
  detected = ground arith;
  stage = ground arith;
}

pub IsReady-is_ready :
    (is_new : Bool)
    → (s : Tracer) → (how : RestartHow) → (p : Phase) → (t : Traced) → IsReady is_new s how p t
    → is_ready is_new s how p t ≡ true
unfolding is_ready
IsReady-is_ready is_new s how p t r =
    ground (r.exe, r.waiting, r.order, r.stays, r.detected, r.stage, arith)

pub syscall-not_cont : (how : RestartHow) → is_syscall how ≡ true → is_cont how ≡ false
unfolding is_syscall is_cont
syscall-not_cont how e = ground arith

pub cont-not_syscall : (how : RestartHow) → is_cont how ≡ true → is_syscall how ≡ false
unfolding is_syscall is_cont
cont-not_syscall how e = ground arith

-- A tracee that looks the same is as ready.
pub IsReady-view :
    (is_new : Bool)
    → (s : Tracer) → (p : Phase) → (t u : Traced) → view u ≡ view t
    → IsReady is_new s t.restart_how p t
    → IsReady is_new s u.restart_how p u
IsReady-view is_new s p t u e ready =
    is_ready-IsReady is_new s u.restart_how p u
      (is_ready-view is_new s p t u e (IsReady-is_ready is_new s t.restart_how p t ready))
