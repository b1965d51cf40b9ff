-- ===== src/Tracee/Event/Reach.antt =====
-- What the kernel and the loop make of a tracee, as a step relation.
use doki_proot.Prelude.{
  ℕ, Bool, true, false, not, ◌||◌, Option, none, some, ◌≡◌, sym, ap, ◌∙◌, subst, arith,
}
use doki_proot.Ptrace.{disabled}
use doki_proot.Tracee.Event.{
  Tracer, Traced, Asks, RestartHow, no_restart, ptrace_syscall, is_syscall, is_enabled,
  is_disabling,
}
use doki_proot.Tracee.Event.Kernel.{
  Phase, in_user, Stops, Goes, unfiltered, leave_call, leave_filtered, is_ready, is_stage, is_order,
  stop_status, run_stop,
}
use doki_proot.Tracee.Event.Stops.Rounds.{run_stop-IsRound}
use doki_proot.Tracee.Event.Stops.View.{IsReady, IsReady-is_ready, cont-not_syscall}

-- The first tracee, once its first bare SIGTRAP was seen and before seccomp is detected.
pub record IsFirst (s : Tracer) (t : Traced) : Type 0 where
  pub deliver : s.deliver_sigtrap ≡ true
  pub undetected : s.seccomp_detected ≡ false
  pub exe : t.has_exe ≡ true
  pub waiting : t.is_waiting ≡ false
  pub unaccelerated : t.seccomp ≡ disabled
  pub outside : t.in_sysexit ≡ false
  pub unhandled : t.seccomp_already_handled_enter ≡ false
  pub unset : t.restart_how ≡ no_restart
  pub last : t.last_restart_how ≡ ptrace_syscall

module _ (detranslate_sysnum : ℕ → ℕ) (systrap_size : ℕ) (is_new assume_new : Bool) where
  -- The phases and states that are reached from the first by the kernel's steps, where each stop is
  -- handled and the tracee restarted.
  pub data Reaches : Phase → Tracer → Traced → Type 0 where
    first : (s : Tracer) → (t : Traced) → IsFirst s t → Reaches in_user s t
    goes :
        (p q : Phase)
        → (s : Tracer) → (t : Traced) → Reaches p s t
        → Goes is_new t.last_restart_how p q
        → Reaches q s t
    stops :
        (p q : Phase)
        → (s s' : Tracer) → (t t' : Traced) → (asks : Asks) → (code : ℕ) → Reaches p s t
        → Stops is_new asks t.last_restart_how p code q
        → run_stop detranslate_sysnum systrap_size assume_new s asks (stop_status code) t
          ≡ some (s', (t', true))
        → Reaches q s' t'

first-IsReady :
    (is_new : Bool)
    → (s : Tracer) → (t : Traced) → IsFirst s t
    → IsReady is_new s t.last_restart_how in_user t
unfolding is_order is_stage is_syscall is_enabled is_disabling
first-IsReady is_new s t f = record {
  exe = f.exe;
  waiting = f.waiting;
  order = ground (f.deliver, f.undetected, arith);
  stays = ap is_disabling f.unaccelerated;
  detected = ap (λ x. not (is_enabled x) || s.seccomp_detected) f.unaccelerated;
  stage = ground (f.outside, f.unhandled, ap is_syscall f.last, arith);
}

Goes-stage :
    (is_new : Bool)
    → (p q : Phase) → (how : RestartHow) → (sysexit handled accelerated : Bool)
    → Goes is_new how p q
    → is_stage p how sysexit handled accelerated ≡ true
    → is_stage q how sysexit handled accelerated ≡ true
unfolding is_stage
Goes-stage is_new p q how sysexit handled accelerated unfiltered e = ground (e, arith)
Goes-stage is_new p q how sysexit handled accelerated (leave_call c) e =
    ground (e, c, cont-not_syscall how c, arith)
Goes-stage is_new p q how sysexit handled accelerated (leave_filtered c) e =
    ground (e, c, cont-not_syscall how c, arith)

Goes-IsReady :
    (is_new : Bool)
    → (p q : Phase) → (s : Tracer) → (t : Traced) → Goes is_new t.last_restart_how p q
    → IsReady is_new s t.last_restart_how p t
    → IsReady is_new s t.last_restart_how q t
Goes-IsReady is_new p q s t go ready = record {
  exe = ready.exe;
  waiting = ready.waiting;
  order = ready.order;
  stays = ready.stays;
  detected = ready.detected;
  stage =
      Goes-stage is_new p q t.last_restart_how t.in_sysexit t.seccomp_already_handled_enter
        (is_enabled t.seccomp) go ready.stage;
}

-- Ready to run in a phase.
record IsRunning (is_new : Bool) (p : Phase) (s : Tracer) (t : Traced) : Type 0 where
  unset : t.restart_how ≡ no_restart
  ready : IsReady is_new s t.last_restart_how p t

EndsRunning : Bool → Phase → Option (Tracer × (Traced × Bool)) → Type 0
EndsRunning is_new p none = Unit
EndsRunning is_new p (some (s, (t, b))) = IsRunning is_new p s t

module _ (detranslate_sysnum : ℕ → ℕ) (systrap_size : ℕ) (is_new assume_new : Bool) where
  round-IsRunning :
      (p q : Phase)
      → (s s' : Tracer) → (t t' : Traced) → (asks : Asks) → (code : ℕ) → IsRunning is_new p s t
      → Stops is_new asks t.last_restart_how p code q
      → run_stop detranslate_sysnum systrap_size assume_new s asks (stop_status code) t
        ≡ some (s', (t', true))
      → IsRunning is_new q s' t'
  unfolding EndsRunning
  round-IsRunning p q s s' t t' asks code running stopped ran =
      let r =
        run_stop-IsRound detranslate_sysnum systrap_size is_new assume_new s asks p q code t
          running.unset running.ready stopped in
      subst (EndsRunning is_new q) (sym r.ran ∙ ran) (record { unset = r.unset; ready = r.ready })

  Reaches-IsRunning :
      (p : Phase)
      → (s : Tracer) → (t : Traced)
      → Reaches detranslate_sysnum systrap_size is_new assume_new p s t
      → IsRunning is_new p s t
  Reaches-IsRunning p s t (first _ _ f) = record {
    unset = f.unset;
    ready = first-IsReady is_new s t f;
  }
  Reaches-IsRunning p s t (goes p' _ _ _ reached go) =
      let r = Reaches-IsRunning p' s t reached in
      record { unset = r.unset; ready = Goes-IsReady is_new p' p s t go r.ready }
  Reaches-IsRunning p s t (stops p' _ s' _ t' _ asks code reached stopped ran) =
      round-IsRunning p' p s' s t' t asks code (Reaches-IsRunning p' s' t' reached) stopped ran

  pub Reaches-unset :
      (p : Phase)
      → (s : Tracer) → (t : Traced)
      → Reaches detranslate_sysnum systrap_size is_new assume_new p s t
      → t.restart_how ≡ no_restart
  Reaches-unset p s t reached = (Reaches-IsRunning p s t reached).unset

  -- In every state that is reached, PRoot's idea of the stage of the system call is the kernel's:
  -- in its own code the tracee is before an entry and nothing is left over of a call; after a stop
  -- at an entry, and in a call that PTRACE_SYSCALL restarted, it is before the exit; PTRACE_CONT is
  -- used only where seccomp is enabled; once seccomp was detected, its order is the kernel's; and
  -- seccomp is not half disabled. The first tracee starts before seccomp is detected; forks are no
  -- step, nor is an exit where the handler makes the tracee wait for its ptracees.
  pub Reaches-is_ready :
      (p : Phase)
      → (s : Tracer) → (t : Traced)
      → Reaches detranslate_sysnum systrap_size is_new assume_new p s t
      → is_ready is_new s t.last_restart_how p t ≡ true
  Reaches-is_ready p s t reached =
      IsReady-is_ready is_new s t.last_restart_how p t (Reaches-IsRunning p s t reached).ready
