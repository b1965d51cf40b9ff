-- ===== src/Tracee/Event/Translated.antt =====
-- What translate_syscall leaves of a tracee, as far as the order of stops depends on it.
use doki_proot.Prelude.{
  ℕ, Bool, true, false, not, ◌||◌, Option, none, some, ◌≡◌, refl, sym, ap, ◌∙◌, subst, List, [],
  ◌∷◌, ◌⊎◌, inl, inr, arith, Bool-cases, if◌then◌else◌,
}
use doki_proot.Syscall.Chain.{Chain, Chained, Regs, chain_next_syscall}
use doki_proot.Tracee.Event.{
  Traced, Asks, RestartHow, ptrace_syscall, is_cont, is_syscall, is_chaining, is_some,
  translate_enter, translate_exit, enter_call, exit_call, chain_next, apply_next,
  push_specific_regs, set_stage, apply_handler, end_seccomp,
}
use mathlib.Core.Bool.{false≢true}

-- The fields of a tracee that the translation of a system call leaves.
pub record Same (t t' : Traced) : Type 0 where
  pub exe : t'.has_exe ≡ t.has_exe
  pub waiting : t'.is_waiting ≡ t.is_waiting
  pub last : t'.last_restart_how ≡ t.last_restart_how
  pub handled : t'.seccomp_already_handled_enter ≡ t.seccomp_already_handled_enter

-- An entry that is translated.
pub record IsEntered (t t' : Traced) : Type 0 where
  pub same : Same t t'
  pub seccomp_same : t'.seccomp ≡ t.seccomp
  pub stage : t'.in_sysexit ≡ not (is_cont t'.restart_how)
  pub how : (t'.restart_how ≡ ptrace_syscall) ⊎ (t'.restart_how ≡ t.restart_how)

-- An exit that is translated.
pub record IsLeft (asks : Asks) (t t' : Traced) : Type 0 where
  pub exe : t'.has_exe ≡ t.has_exe
  pub waiting : t'.is_waiting ≡ asks.starts_wait || t.is_waiting
  pub last : t'.last_restart_how ≡ t.last_restart_how
  pub handled : t'.seccomp_already_handled_enter ≡ t.seccomp_already_handled_enter
  pub seccomp_ended : t'.seccomp ≡ end_seccomp asks t.seccomp
  pub stage : t'.in_sysexit ≡ false
  pub how : (t'.restart_how ≡ ptrace_syscall) ⊎ (t'.restart_how ≡ t.restart_how)

pub if_or :
    (b : Bool)
    → (x : RestartHow)
    → ((if b then ptrace_syscall else x) ≡ ptrace_syscall) ⊎ ((if b then ptrace_syscall else x) ≡ x)
if_or true x = inl refl
if_or false x = inr refl

enter_call-how :
    (asks : Asks)
    → (t : Traced)
    → ((enter_call asks t).restart_how ≡ ptrace_syscall)
      ⊎ ((enter_call asks t).restart_how ≡ t.restart_how)
unfolding enter_call apply_handler
enter_call-how asks t = ground arith

enter_call-Same : (asks : Asks) → (t : Traced) → Same t (enter_call asks t)
unfolding enter_call apply_handler
enter_call-Same asks t = record {
  exe = ground arith;
  waiting = ground arith;
  last = ground arith;
  handled = ground arith;
}

enter_call-seccomp : (asks : Asks) → (t : Traced) → (enter_call asks t).seccomp ≡ t.seccomp
unfolding enter_call apply_handler
enter_call-seccomp asks t = ground arith

pub translate_enter-IsEntered : (asks : Asks) → (t : Traced) → IsEntered t (translate_enter asks t)
unfolding translate_enter push_specific_regs set_stage
translate_enter-IsEntered asks t =
    let same = enter_call-Same asks (set_stage false t) in
    record {
      same = record {
        exe = same.exe;
        waiting = same.waiting;
        last = same.last;
        handled = same.handled;
      };
      seccomp_same = enter_call-seccomp asks (set_stage false t);
      stage = refl;
      how = enter_call-how asks (set_stage false t);
    }

pub enter_call-requested :
    (asks : Asks)
    → (t : Traced) → is_chaining t ≡ false
    → enter_call asks t ≡ record (apply_handler asks t) { is_void = asks.fails || asks.voids }
unfolding enter_call
enter_call-requested asks t unchained = rw (unchained) refl

handler-pending :
    (asks : Asks)
    → (t : Traced) → is_syscall (apply_handler asks t).restart_how ≡ false
    → t.sysexit_pending ≡ false
    → (apply_handler asks t).sysexit_pending ≡ false
unfolding apply_handler is_syscall
handler-pending asks t how unneeded = ground arith

-- The entry of a system call that asks for nothing leaves the exit unasked for.
pub translate_enter-pending :
    (asks : Asks)
    → (t : Traced) → is_chaining t ≡ false
    → t.sysexit_pending ≡ false
    → is_syscall (translate_enter asks t).restart_how ≡ false
    → (translate_enter asks t).sysexit_pending ≡ false
unfolding translate_enter push_specific_regs set_stage
translate_enter-pending asks t unchained unneeded how =
    let e = enter_call-requested asks (set_stage false t) unchained in
    ap (λ u. u.sysexit_pending) e
    ∙ handler-pending asks (set_stage false t) (subst (λ u. is_syscall u.restart_how ≡ false) e how)
        unneeded

-- A tracee that differs only in what no stage depends on, and in how it is restarted.
pub record IsNext (t t' : Traced) : Type 0 where
  pub same : Same t t'
  pub seccomp_same : t'.seccomp ≡ t.seccomp
  pub stage_same : t'.in_sysexit ≡ t.in_sysexit
  pub how : (t'.restart_how ≡ ptrace_syscall) ⊎ (t'.restart_how ≡ t.restart_how)

next-some : (o : Option (List Chained)) → is_some o ≡ true → (l : List Chained) × (o ≡ some l)
unfolding is_some
next-some none e = elim (false≢true e) [ ]
next-some (some l) e = (l, refl)

apply_next-IsNext :
    (t : Traced)
    → (chain : Chain) → (regs : Regs)
    → (t' : Traced) × (apply_next t (some (chain, regs)) ≡ some t') × IsNext t t'
unfolding apply_next
apply_next-IsNext t chain regs = (
  _,
  refl,
  record {
    same = record { exe = refl; waiting = refl; last = refl; handled = refl };
    seccomp_same = refl;
    stage_same = refl;
    how = if_or regs.restart_at_exit t.restart_how;
  },
)

module _ (detranslate_sysnum : ℕ → ℕ) (systrap_size : ℕ) where
  chain_next_syscall-first :
      (chain : Chain)
      → (regs : Regs) → (l : List Chained)
      → (x : Chain × Regs) × (chain_next_syscall detranslate_sysnum systrap_size
            (record chain { syscalls = some l })
            regs
          ≡ some x)
  unfolding chain_next_syscall
  chain_next_syscall-first chain regs [] = (_, refl)
  chain_next_syscall-first chain regs (c ∷ l) = (_, refl)

  chain_next_syscall-some :
      (chain : Chain)
      → (regs : Regs) → (l : List Chained) → chain.syscalls ≡ some l
      → (x : Chain × Regs) × (chain_next_syscall detranslate_sysnum systrap_size chain regs
          ≡ some x)
  chain_next_syscall-some chain regs l e =
      subst
        (λ o.
          (x : Chain × Regs) × (chain_next_syscall detranslate_sysnum systrap_size
              (record chain { syscalls = o }) regs
            ≡ some x))
        (sym e) (chain_next_syscall-first chain regs l)

  chain_next-some :
      (t : Traced)
      → is_chaining t ≡ true
      → (t' : Traced) × (chain_next detranslate_sysnum systrap_size t ≡ some t') × IsNext t t'
  unfolding chain_next
  chain_next-some t chaining =
      let l = next-some t.chain.syscalls chaining in
      let x = chain_next_syscall-some t.chain (record t.regs { restart_at_exit = false }) l.0 l.1 in
      subst (λ o. (t' : Traced) × (apply_next t o ≡ some t') × IsNext t t') (sym x.1)
        (apply_next-IsNext t x.0.0 x.0.1)

  exit_call-IsLeft :
      (asks : Asks)
      → (t : Traced) → IsLeft asks t (exit_call detranslate_sysnum systrap_size asks t)
  unfolding exit_call apply_handler set_stage
  exit_call-IsLeft asks t = record {
    exe = refl;
    waiting = refl;
    last = refl;
    handled = refl;
    seccomp_ended = refl;
    stage = refl;
    how = if_or (asks.wants_sysexit || asks.wants_syscall) t.restart_how;
  }

  pushed-IsLeft :
      (asks : Asks) → (t t' : Traced) → IsLeft asks t t' → IsLeft asks t (push_specific_regs t')
  unfolding push_specific_regs
  pushed-IsLeft asks t t' left = record {
    exe = left.exe;
    waiting = left.waiting;
    last = left.last;
    handled = left.handled;
    seccomp_ended = left.seccomp_ended;
    stage = left.stage;
    how = left.how;
  }

  next-IsLeft : (asks : Asks) → (t u v : Traced) → IsLeft asks t u → IsNext u v → IsLeft asks t v
  next-IsLeft asks t u v left next = record {
    exe = next.same.exe ∙ left.exe;
    waiting = next.same.waiting ∙ left.waiting;
    last = next.same.last ∙ left.last;
    handled = next.same.handled ∙ left.handled;
    seccomp_ended = next.seccomp_same ∙ left.seccomp_ended;
    stage = next.stage_same ∙ left.stage;
    how = elim next.how [
      | inl e ↦ inl e
      | inr e ↦ elim left.how [ inl e' ↦ inl (e ∙ e') | inr e' ↦ inr (e ∙ e') ]
    ];
  }

  pub translate_exit-IsLeft :
      (asks : Asks)
      → (t : Traced)
      → (t' : Traced) × (translate_exit detranslate_sysnum systrap_size asks t ≡ some t')
        × IsLeft asks t t'
  unfolding translate_exit
  translate_exit-IsLeft asks t =
      let u = exit_call detranslate_sysnum systrap_size asks t in
      let left = exit_call-IsLeft asks t in
      elim (Bool-cases (is_chaining u)) [
        | inl e ↦
            let n = chain_next-some u e in
            (
              push_specific_regs n.0,
              rw (e, n.1) refl,
              pushed-IsLeft asks t n.0 (next-IsLeft asks t u n.0 left n.2),
            )
        | inr e ↦ (push_specific_regs u, rw (e) refl, pushed-IsLeft asks t u left)
      ]
