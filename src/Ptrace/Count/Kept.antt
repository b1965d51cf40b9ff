-- ===== src/Ptrace/Count/Kept.antt =====
-- The counters of ptracees across the requests of ptrace(2), of proot/src/ptrace/ptrace.c.
use doki_proot.Prelude.{
  ℕ, ◌+◌, ◌-◌, ◌≡◌, refl, true, false, not, ◌||◌, Option, none, some, ◌==◌, arith, ==_iff, ==_refl,
  inl, inr, Bool-cases, Option-cases,
}
use doki_proot.Ptrace.{
  Tracee, WaitsIn, Sigstop, Effect, Table, Kernel, modify, add_effect, no_ptracee, set_ptracer,
  is_address, any_pid, attach_to_ptracer, detach_from_ptracer, restart_tracee,
}
use doki_proot.Ptrace.Search.{wall, get_tracee, get_stopped_ptracee}
use doki_proot.Ptrace.Wait.{set_waits_in}
use doki_proot.Ptrace.Found.{member}
use doki_proot.Ptrace.Count.{IsBlind, IsCounted, modify-IsCounted, bond-IsCounted, count-pos}
use doki_proot.Ptrace.Requests.{
  kill_request, Request, traceme, attach, syscall, cont, singlestep, singleblock, detach,
  setoptions, is_traced, wake_waiter, translate_traceme, translate_attach, resume,
  translate_stopped, disable_seccomp, translate_request, translate_ptrace_exit, set_sigstop,
  sigstop_signal, is_in_kernel, set_options, set_ignore_syscalls, set_restart_how,
}
use doki_proot.Ptrace.Count.Members.{ptracer-none, found-member, get_tracee-member}

module _ (t : Table) (a p : ℕ) (there : member a t.tracees ≡ true) (c : IsCounted t) where
  pub attach-IsCounted :
      (t.tracee a).as_ptracee.ptracer ≡ none → IsCounted (attach_to_ptracer t a p)
  unfolding attach_to_ptracer
  attach-IsCounted free =
      bond-IsCounted t a p (λ x. record x { as_ptracee = record no_ptracee { ptracer = some p } })
        (λ n. n + 1)
        (record {
          there = there;
          same_tracer = λ x. refl;
          living = refl;
          adjusted = rw (free, ==_refl p) (omega arith);
          others = λ q apart. rw free (ground (arith, ==_iff p q));
        })
        c

  pub detach-IsCounted :
      (t.tracee a).as_ptracee.ptracer ≡ some p → IsCounted (detach_from_ptracer t a p)
  unfolding detach_from_ptracer
  detach-IsCounted traced =
      bond-IsCounted t a p (set_ptracer none) (λ n. n - 1)
        (record {
          there = there;
          same_tracer = λ x. refl;
          living = c.alive a there;
          adjusted =
              rw (traced, ==_refl p)
                (omega (arith, c.counted p, count-pos t.tracee p a t.tracees there traced));
          others = λ q apart. rw traced (ground (arith, ==_iff p q));
        })
        c

-- Effects are no matter.
pub effect-IsCounted : (t : Table) (e : Effect) → IsCounted t → IsCounted (add_effect t e)
effect-IsCounted t e c = record {
  distinct = c.distinct;
  alive = c.alive;
  dead = c.dead;
  owned = c.owned;
  once = c.once;
  counted = c.counted;
}

pub restart-IsCounted :
    (k : Kernel) (t : Table) (a signal : ℕ)
    → IsCounted t
    → IsCounted (restart_tracee k t a signal).0
unfolding restart_tracee
restart-IsCounted k t a signal c =
    let e = Effect.restart a (t.tracee a).restart_how signal in
    elim (Bool-cases (not ((t.tracee a).as_ptracer.wait_pid == 0) || signal == any_pid)) [
      | inl stays ↦ rw stays c
      | inr goes ↦ elim (Bool-cases (k.restarts a)) [
        | inl can ↦
            rw (goes, can)
              (modify-IsCounted (add_effect t e) a
                (λ x. record x {
                  last_restart_how = x.restart_how;
                  restart_how = 0;
                  running = true;
                })
                (λ x. (refl, refl, refl, refl)) (effect-IsCounted t e c))
        | inr cannot ↦ rw (goes, cannot) (effect-IsCounted t e c)
      ]
    ]

wake-IsCounted : (k : Kernel) (t : Table) (p : ℕ) → IsCounted t → IsCounted (wake_waiter k t p)
unfolding wake_waiter
wake-IsCounted k t p c =
    let e = Effect.kill (t.tracee p).pid sigstop_signal in
    elim (Bool-cases (is_in_kernel (t.tracee p).as_ptracer.waits_in)) [
      | inr no_wait ↦ rw no_wait c
      | inl waits ↦ elim (Bool-cases (k.kills (t.tracee p).pid)) [
        | inl sent ↦
            rw (waits, sent)
              (modify-IsCounted (modify (add_effect t e) p (set_sigstop Sigstop.sigstop_ignored)) p
                (set_waits_in WaitsIn.waits_in_proot) (λ x. (refl, refl, refl, refl))
                (modify-IsCounted (add_effect t e) p (set_sigstop Sigstop.sigstop_ignored)
                  (λ x. (refl, refl, refl, refl)) (effect-IsCounted t e c)))
        | inr lost ↦ rw (waits, lost) (effect-IsCounted t e c)
      ]
    ]

traceme-IsCounted :
    (k : Kernel) (t : Table) (a : ℕ)
    → member a t.tracees ≡ true
    → IsCounted t
    → IsCounted (translate_traceme k t a).0
unfolding translate_traceme
traceme-IsCounted k t a there c =
    elim (Bool-cases (is_traced (t.tracee a) || is_address (t.tracee a).parent a)) [
      | inl refused ↦ rw refused c
      | inr allowed ↦ elim (Option-cases (t.tracee a).parent) [
        | inl orphan ↦ rw (allowed, orphan) c
        | inr (p, parent) ↦
            rw (allowed, parent)
              (modify-IsCounted (wake_waiter k (attach_to_ptracer t a p) p) a disable_seccomp
                (λ x. (refl, refl, refl, refl))
                (wake-IsCounted k (attach_to_ptracer t a p) p
                  (attach-IsCounted t a p there c (ptracer-none (t.tracee a) (ground arith)))))
      ]
    ]

attached-IsCounted :
    (t : Table) (p pid : ℕ)
    → member p t.tracees ≡ true
    → IsCounted t
    → IsCounted (translate_attach t p pid).0
unfolding translate_attach
attached-IsCounted t p pid there c = elim (Option-cases (get_tracee t p pid)) [
  | inl absent ↦ rw (absent, translate_attach) c
  | inr (a, found) ↦ elim (Bool-cases (is_traced (t.tracee a) || a == p)) [
    | inl refused ↦ rw (found, refused, translate_attach) c
    | inr allowed ↦
        rw (found, allowed, translate_attach)
          (effect-IsCounted (attach_to_ptracer t a p) (Effect.kill pid sigstop_signal) (
            attach-IsCounted t a p (get_tracee-member t p pid a there found) c
              (ptracer-none (t.tracee a) (ground arith))))
  ]
]

module _ (k : Kernel) (handle : Table → ℕ → ℕ → Table × ℕ)
    (keeps : (t : Table) (a event : ℕ) → IsCounted t → IsCounted (handle t a event).0) where
  resume-IsCounted :
      (t : Table) (a : ℕ) (forced : Option ℕ)
      → IsCounted t
      → IsCounted (resume k handle t a forced).0
  unfolding resume
  resume-IsCounted t a forced c =
      let e = (t.tracee a).as_ptracee.proot_event in
      elim (Bool-cases e.pending) [
        | inl waits ↦
            rw waits (restart-IsCounted k (handle t a e.value).0 a _ (keeps t a e.value c))
        | inr past ↦ rw past (restart-IsCounted k t a _ c)
      ]

  go_on-IsCounted :
      (t : Table) (a : ℕ) (f : Tracee → Tracee) (forced : Option ℕ)
      → IsBlind f
      → IsCounted t
      → IsCounted (resume k handle (modify t a f) a forced).0
  go_on-IsCounted t a f forced blind c =
      resume-IsCounted (modify t a f) a forced (modify-IsCounted t a f blind c)

  stopped-IsCounted :
      (t : Table) (p a : ℕ) (request : Request)
      → member a t.tracees ≡ true
      → (t.tracee a).as_ptracee.ptracer ≡ some p
      → IsCounted t
      → IsCounted (translate_stopped k handle t p a request).0
  unfolding translate_stopped
  stopped-IsCounted t p a traceme there traced c = c
  stopped-IsCounted t p a attach there traced c = c
  stopped-IsCounted t p a (syscall signal) there traced c =
      go_on-IsCounted t a (set_ignore_syscalls false) (some signal) (λ x. (refl, refl, refl, refl))
        c
  stopped-IsCounted t p a (cont signal) there traced c =
      go_on-IsCounted t a (set_ignore_syscalls true) (some signal) (λ x. (refl, refl, refl, refl)) c
  stopped-IsCounted t p a (singlestep signal) there traced c =
      go_on-IsCounted t a (set_restart_how 9) (some signal) (λ x. (refl, refl, refl, refl)) c
  stopped-IsCounted t p a (singleblock signal) there traced c =
      go_on-IsCounted t a (set_restart_how 33) (some signal) (λ x. (refl, refl, refl, refl)) c
  stopped-IsCounted t p a detach there traced c =
      resume-IsCounted (detach_from_ptracer t a p) a none (detach-IsCounted t a p there c traced)
  stopped-IsCounted t p a kill_request there traced c =
      resume-IsCounted (add_effect t (Effect.kill_ptracee a)) a none
        (effect-IsCounted t (Effect.kill_ptracee a) c)
  stopped-IsCounted t p a (setoptions options) there traced c =
      modify-IsCounted t a (set_options options) (λ x. (refl, refl, refl, refl)) c

  request-IsCounted :
      (t : Table) (p pid : ℕ) (request : Request)
      → IsCounted t
      → IsCounted
          (translate_request k handle t p pid request (get_stopped_ptracee t p pid false wall)).0
  unfolding translate_request
  request-IsCounted t p pid request c =
      elim (Option-cases (get_stopped_ptracee t p pid false wall)) [
        | inl absent ↦ rw absent c
        | inr (a, found) ↦
            let x = (t.tracee a).as_ptracee in
            elim (Bool-cases (x.is_zombie || not (is_address x.ptracer p) || pid == any_pid)) [
              | inl refused ↦ rw (found, refused) c
              | inr sane ↦
                  rw (found, sane)
                    (stopped-IsCounted t p a request
                      (found-member t p pid wall a false c found (ground arith))
                      (ground (arith, sane)) c)
            ]
      ]

  -- A request of ptrace(2) by a tracee of the list leaves the number of ptracees right that each
  -- ptracer keeps, also where it fails. What PRoot makes of an event is assumed to do so.
  pub translate_ptrace_exit-IsCounted :
      (t : Table) (tracee pid : ℕ) (request : Request)
      → member tracee t.tracees ≡ true
      → IsCounted t
      → IsCounted (translate_ptrace_exit k handle t tracee pid request).0
  unfolding translate_ptrace_exit
  translate_ptrace_exit-IsCounted t tracee pid traceme there c =
      traceme-IsCounted k t tracee there c
  translate_ptrace_exit-IsCounted t tracee pid attach there c =
      attached-IsCounted t tracee pid there c
  translate_ptrace_exit-IsCounted t tracee pid detach there c =
      request-IsCounted t tracee pid detach c
  translate_ptrace_exit-IsCounted t tracee pid (syscall s) there c =
      request-IsCounted t tracee pid (syscall s) c
  translate_ptrace_exit-IsCounted t tracee pid (cont s) there c =
      request-IsCounted t tracee pid (cont s) c
  translate_ptrace_exit-IsCounted t tracee pid (singlestep s) there c =
      request-IsCounted t tracee pid (singlestep s) c
  translate_ptrace_exit-IsCounted t tracee pid (singleblock s) there c =
      request-IsCounted t tracee pid (singleblock s) c
  translate_ptrace_exit-IsCounted t tracee pid kill_request there c =
      request-IsCounted t tracee pid kill_request c
  translate_ptrace_exit-IsCounted t tracee pid (setoptions o) there c =
      request-IsCounted t tracee pid (setoptions o) c
