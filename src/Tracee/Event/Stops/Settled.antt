-- ===== src/Tracee/Event/Stops/Settled.antt =====
-- An entry that is looked at when seccomp reports it.
use doki_proot.Prelude.{
  Bool, true, false, not, ◌&&◌, Option, some, ◌≡◌, ap, ◌∙◌, ◌⊎◌, inl, inr, arith, if◌then◌else◌,
}
use doki_proot.Ptrace.{Seccomp}
use doki_proot.Tracee.Event.{
  Tracer, Traced, RestartHow, ptrace_cont, ptrace_syscall, is_cont, is_syscall, is_enabled,
  is_disabling,
}
use doki_proot.Tracee.Event.Answers.{after_seccomp_enter}
use doki_proot.Tracee.Event.Kernel.{Phase, in_call, before_entry, is_stage, is_order}
use doki_proot.Tracee.Event.Stops.View.{IsReady, syscall-not_cont}
use doki_proot.Tracee.Event.Translated.{IsEntered}

pub record IsFiltered (is_new : Bool) (s : Tracer) (p : Phase) (o : Option Traced) : Type 0 where
  pub tracee : Traced
  pub filtered : o ≡ some tracee
  pub ready : IsReady is_new s tracee.restart_how p tracee

-- The phase after a stop by seccomp.
abbrev pub filtered_phase : Bool → Phase
filtered_phase is_new = if is_new then in_call else before_entry

-- A tracee that the filter stops at the entry of a system call.
pub record IsOutside (is_new : Bool) (s : Tracer) (t : Traced) : Type 0 where
  pub exe : t.has_exe ≡ true
  pub waiting : t.is_waiting ≡ false
  pub order : is_order is_new s ≡ true
  pub accelerated : is_enabled t.seccomp ≡ true
  pub detected : s.seccomp_detected ≡ true
  pub outside : t.in_sysexit ≡ false
  pub unhandled : t.seccomp_already_handled_enter ≡ false

pub after_new :
    (is_new : Bool)
    → (s : Tracer) → (t : Traced) → IsOutside is_new s t
    → s.seccomp_after_ptrace_enter ≡ is_new
unfolding is_order
after_new is_new s t o = ground (o.order, o.detected, arith)

enabled-not_disabling : (x : Seccomp) → is_enabled x ≡ true → is_disabling x ≡ false
unfolding is_enabled is_disabling
enabled-not_disabling x e = ground arith

-- Restarted by PTRACE_SYSCALL, before the entry is reported.
pub unreported-IsReady :
    (s : Tracer)
    → (t : Traced) → IsOutside false s t
    → IsReady false s ptrace_syscall before_entry (record t { restart_how = ptrace_syscall })
unfolding is_stage is_syscall
unreported-IsReady s t o = record {
  exe = o.exe;
  waiting = o.waiting;
  order = o.order;
  stays = enabled-not_disabling t.seccomp o.accelerated;
  detected = ground (o.detected, arith);
  stage = ground (o.outside, o.unhandled, arith);
}

-- Translated at the entry, and the exit to be reported.
pub entered-IsReady :
    (is_new : Bool)
    → (s : Tracer) → (t t' : Traced) → IsOutside is_new s t
    → IsEntered t t'
    → is_syscall t'.restart_how ≡ true
    → IsReady is_new s ptrace_syscall in_call (record t' { restart_how = ptrace_syscall })
unfolding is_stage is_syscall
entered-IsReady is_new s t t' o entered how = record {
  exe = entered.same.exe ∙ o.exe;
  waiting = entered.same.waiting ∙ o.waiting;
  order = o.order;
  stays = ap is_disabling entered.seccomp_same ∙ enabled-not_disabling t.seccomp o.accelerated;
  detected = ground (o.detected, arith);
  stage = ground (
    entered.stage,
    syscall-not_cont t'.restart_how how,
    entered.same.handled,
    o.unhandled,
    arith,
  );
}

after_seccomp_enter-how :
    (s : Tracer)
    → (t : Traced) → is_disabling t.seccomp ≡ false
    → (is_syscall t.restart_how ≡ false → t.sysexit_pending ≡ false)
    → is_syscall (after_seccomp_enter s t).restart_how ≡ is_syscall t.restart_how
unfolding after_seccomp_enter is_syscall
after_seccomp_enter-how s t stays pending = ground (stays, pending, arith)

after_seccomp_enter-cont :
    (s : Tracer)
    → (t : Traced) → is_disabling t.seccomp ≡ false
    → t.sysexit_pending ≡ false
    → is_cont (after_seccomp_enter s t).restart_how ≡ is_cont t.restart_how
unfolding after_seccomp_enter
after_seccomp_enter-cont s t stays pending = ground (stays, pending, arith)

after_seccomp_enter-handled :
    (s : Tracer)
    → (t : Traced) → t.seccomp_already_handled_enter ≡ false
    → (after_seccomp_enter s t).seccomp_already_handled_enter
      ≡ (not s.seccomp_after_ptrace_enter && is_syscall (after_seccomp_enter s t).restart_how)
unfolding after_seccomp_enter
after_seccomp_enter-handled s t unhandled = ground arith

settled_stage :
    (is_new : Bool)
    → (how : RestartHow) → (sysexit handled : Bool) → handled ≡ (not is_new && is_syscall how)
    → ((is_syscall how ≡ true) × (sysexit ≡ true))
      ⊎ ((is_syscall how ≡ false) × (is_cont how ≡ true) × (sysexit ≡ false))
    → is_stage (filtered_phase is_new) how sysexit handled true ≡ true
unfolding is_stage
settled_stage true how sysexit handled e h = ground arith
settled_stage false how sysexit handled e h = ground arith

entered_how :
    (how : RestartHow)
    → (how ≡ ptrace_syscall) ⊎ (how ≡ ptrace_cont)
    → (is_syscall how ≡ true) ⊎ ((is_syscall how ≡ false) × (is_cont how ≡ true))
unfolding is_syscall is_cont
entered_how how e = ground arith

settled_how :
    (s : Tracer)
    → (t' : Traced) → is_disabling t'.seccomp ≡ false
    → t'.in_sysexit ≡ not (is_cont t'.restart_how)
    → (t'.restart_how ≡ ptrace_syscall) ⊎ (t'.restart_how ≡ ptrace_cont)
    → (is_syscall t'.restart_how ≡ false → t'.sysexit_pending ≡ false)
    → ((is_syscall (after_seccomp_enter s t').restart_how ≡ true) × (t'.in_sysexit ≡ true))
      ⊎ ((is_syscall (after_seccomp_enter s t').restart_how ≡ false)
          × (is_cont (after_seccomp_enter s t').restart_how ≡ true)
          × (t'.in_sysexit ≡ false))
settled_how s t' stays stage how pending = elim (entered_how t'.restart_how how) [
  | inl e ↦ inl (
    after_seccomp_enter-how s t' stays pending ∙ e,
    stage ∙ ap not (syscall-not_cont t'.restart_how e),
  )
  | inr e ↦ inr (
    after_seccomp_enter-how s t' stays pending ∙ e.0,
    after_seccomp_enter-cont s t' stays (pending e.0) ∙ e.1,
    stage ∙ ap not e.1,
  )
]

-- Translated at the entry, and restarted as the handlers ask.
pub settled-IsReady :
    (is_new : Bool)
    → (s : Tracer) → (t t' : Traced) → IsOutside is_new s t
    → IsEntered t t'
    → t.restart_how ≡ ptrace_cont
    → (is_syscall t'.restart_how ≡ false → t'.sysexit_pending ≡ false)
    → IsReady is_new s
        (after_seccomp_enter s t').restart_how
        (filtered_phase is_new)
        (after_seccomp_enter s t')
unfolding after_seccomp_enter
settled-IsReady is_new s t t' o entered how pending =
    let stays =
      ap is_disabling entered.seccomp_same ∙ enabled-not_disabling t.seccomp o.accelerated in
    let accelerated = ap is_enabled entered.seccomp_same ∙ o.accelerated in
    record {
      exe = entered.same.exe ∙ o.exe;
      waiting = entered.same.waiting ∙ o.waiting;
      order = o.order;
      stays = stays;
      detected = ground (o.detected, arith);
      stage =
          ap
            (λ b.
              is_stage (filtered_phase is_new) (after_seccomp_enter s t').restart_how t'.in_sysexit
                (after_seccomp_enter s t').seccomp_already_handled_enter b)
            accelerated
          ∙ settled_stage is_new (after_seccomp_enter s t').restart_how t'.in_sysexit
              (after_seccomp_enter s t').seccomp_already_handled_enter
              (after_seccomp_enter-handled s t' (entered.same.handled ∙ o.unhandled)
                ∙ ap (λ b. not b && is_syscall (after_seccomp_enter s t').restart_how)
                    (after_new is_new s t o))
              (settled_how s t' stays entered.stage
                (elim entered.how [ inl e ↦ inl e | inr e ↦ inr (e ∙ how) ]) pending);
    }

pub IsOutside-how :
    (is_new : Bool)
    → (s : Tracer) → (how : RestartHow) → (t : Traced) → IsOutside is_new s t
    → IsOutside is_new s (record t { restart_how = how })
IsOutside-how is_new s how t o = record {
  exe = o.exe;
  waiting = o.waiting;
  order = o.order;
  accelerated = o.accelerated;
  detected = o.detected;
  outside = o.outside;
  unhandled = o.unhandled;
}
