-- ===== src/Ptrace/Told.antt =====
-- What a ptracer is told of an event that stands there for it, of proot/src/ptrace/wait.c.
use doki_proot.Prelude.{
  ◌-◌, ℕ, ◌≡◌, refl, sym, ap, ◌∙◌, ◌≢◌, ◌⊎◌, ◌∷◌, true, false, Option, none, some, arith, ==_iff,
  inl, inr, Bool-cases, Option-cases, Result, ok, fail, Result-cases, Errno,
}
use doki_proot.Ptrace.{
  Tracee, Table, Kernel, Effect, WaitsIn, modify, add_effect, set_ptracer, set_count,
  detach_from_ptracer,
}
use doki_proot.Ptrace.Search.{get_stopped_ptracee, get_ptracee, or_else}
use doki_proot.Ptrace.Wait.{
  free_zombie, drop_zombie, clear_pending, set_waits_in, update_wait_status, collect,
  leave_to_kernel, poke_event, translate_wait_exit,
}
use doki_proot.Ptrace.Found.{
  member, HasPid, matches, for_event, find_ptracee-ne-none, find_ptracee-same,
}
use doki_proot.Ptrace.Order.Arrival.{quiet}
use doki_proot.Ptrace.Order.Commute.{is_left, modify_self, poke_wait, update-left, update-poked}
use doki_proot.Ptrace.Order.Search.{wait-finds, quiet_same}

abbrev wait_pid_of : Table → ℕ → ℕ
wait_pid_of t b = (t.tracee b).as_ptracer.wait_pid

modify-wait_pid :
    (t : Table) (a b : ℕ) (f : Tracee → Tracee)
    → ((x : Tracee) → (f x).as_ptracer.wait_pid ≡ x.as_ptracer.wait_pid)
    → wait_pid_of (modify t a f) b ≡ wait_pid_of t b
modify-wait_pid t a b f e = ground (arith, ==_iff b a, e (t.tracee a))

detach-wait_pid :
    (t : Table) (a p b : ℕ) → wait_pid_of (detach_from_ptracer t a p) b ≡ wait_pid_of t b
unfolding detach_from_ptracer
detach-wait_pid t a p b =
    modify-wait_pid (modify t a (set_ptracer none)) p b (set_count (λ n. n - 1)) (λ x. refl)
    ∙ modify-wait_pid t a b (set_ptracer none) (λ x. refl)

free-wait_pid :
    (t : Table) (p a b : ℕ)
    → wait_pid_of (free_zombie (detach_from_ptracer t a p) p a) b ≡ wait_pid_of t b
free-wait_pid t p a b =
    modify-wait_pid (detach_from_ptracer t a p) p b (drop_zombie a) (λ x. refl)
    ∙ detach-wait_pid t a p b

collect-wait_pid : (t : Table) (p a b : ℕ) → wait_pid_of (collect t p a) b ≡ wait_pid_of t b
unfolding collect
collect-wait_pid t p a b = elim (Bool-cases (t.tracee a).as_ptracee.is_zombie) [
  | inl e ↦ rw e (free-wait_pid t p a b)
  | inr e ↦ rw e refl
]

leave-wait_pid : (t : Table) (p a b : ℕ) → wait_pid_of (leave_to_kernel t p a) b ≡ wait_pid_of t b
unfolding leave_to_kernel
leave-wait_pid t p a b =
    let u = add_effect t (Effect.restart_original_syscall p) in
    elim (Bool-cases (t.tracee a).as_ptracee.is_zombie) [
      | inl e ↦ rw e (free-wait_pid u p a b)
      | inr e ↦ rw e (detach-wait_pid u a p b)
    ]

poke-wait_pid :
    (k : Kernel) (t u : Table) (p address value b : ℕ)
    → poke_event k t p address value ≡ ok u
    → wait_pid_of u b ≡ wait_pid_of t b
unfolding poke_event
poke-wait_pid k t u p address value b e = ground arith

-- PRoot does not let the ptracer wait. A stopped ptracee that the wait looks for is found, and its
-- pid is the result; but where it has terminated and is the ptracer's own child, the result is 0,
-- and the wait is restarted in the kernel.
abbrev pub IsOver : Table → ℕ → ℕ → ℕ → Table × Result ℕ → Type 0
IsOver t p pid options (u, status) =
    (wait_pid_of u p ≡ 0)
    × ((a : ℕ) × (get_stopped_ptracee (quiet t p) p pid true options ≡ some a)
        × (((is_left (quiet t p) p a ≡ false) × (status ≡ ok ((quiet t p).tracee a).pid))
            ⊎ ((is_left (quiet t p) p a ≡ true)
                × (status ≡ ok 0)
                × (u.effects ≡ Effect.restart_original_syscall p ∷ t.effects))))

leave-effects :
    (t : Table) (p a : ℕ)
    → (leave_to_kernel t p a).effects ≡ Effect.restart_original_syscall p ∷ t.effects
unfolding leave_to_kernel detach_from_ptracer
leave-effects t p a = elim (Bool-cases (t.tracee a).as_ptracee.is_zombie) [
  | inl e ↦ rw e refl
  | inr e ↦ rw e refl
]

-- What is told of a ptracee.
abbrev IsTold : Table → ℕ → ℕ → Table × Result ℕ → Type 0
IsTold t p a (u, status) =
    (wait_pid_of u p ≡ wait_pid_of t p)
    × (((is_left t p a ≡ false) × (status ≡ ok (t.tracee a).pid))
        ⊎ ((is_left t p a ≡ true)
            × (status ≡ ok 0)
            × (u.effects ≡ Effect.restart_original_syscall p ∷ t.effects)))

poke-ok :
    (k : Kernel) (t : Table) (p address value : ℕ) (code : Errno)
    → k.write_error p address ≡ none
    → poke_event k t p address value ≢ fail code
unfolding poke_event
poke-ok k t p address value code e f = ground arith

update-IsTold :
    (k : Kernel) (t : Table) (p a : ℕ)
    → k.write_error p (t.tracee p).sysarg_2 ≡ none
    → IsTold t p a (update_wait_status k t p a)
update-IsTold k t p a writable = elim (Bool-cases (is_left t p a)) [
  | inl e ↦ rw (update-left k t p a e) (leave-wait_pid t p a p, inr (e, refl, leave-effects t p a))
  | inr e ↦ elim (Result-cases (poke_wait k t p a)) [
    | inr (code, w) ↦ absurd (poke-ok k t p _ _ code writable w)
    | inl (u, w) ↦ rw (update-poked k t u p a e w) (
      collect-wait_pid (modify u a clear_pending) p a p
          ∙ modify-wait_pid u a p clear_pending (λ x. refl)
          ∙ poke-wait_pid k t u p _ _ p w,
      inl (e, refl),
    )
  ]
]

or_else-ne : (o o' : Option ℕ) → o' ≢ none → or_else o o' ≢ none
or_else-ne none o' h e = h e
or_else-ne (some a) o' h e = cc

quiet-finds :
    (t : Table) (p a pid options : ℕ)
    → (t.tracee a).as_ptracee.ptracer_event.pending ≡ true
    → matches p pid options (t.tracee a) ≡ true
    → member a t.tracees ≡ true
    → HasPid t.tracee a (t.tracee a).pid t.tracees
    → get_stopped_ptracee (quiet t p) p pid true options ≢ none
unfolding get_stopped_ptracee get_ptracee
quiet-finds t p a pid options pending m there unique = or_else-ne _ _ (λ e.
    find_ptracee-ne-none t.tracee p pid options a t.tracees m pending unique there (
      sym (
        find_ptracee-same (quiet t p).tracee t.tracee p (for_event pid options) t.tracees
          (quiet_same p pid options t))
      ∙ e))

-- A ptracer that waits for nothing in PRoot asks, by a wait, for a ptracee whose event is pending.
-- PRoot does not let it wait: a stopped ptracee is found at once, and the result is its pid; but if
-- what it has to tell is the end of the ptracer's own child, the result is 0, and the wait is
-- restarted in the kernel, which tells of it. The ptracee that is known to be pending is stopped, is
-- one that the wait looks for, stands in the list of tracees and is the only one there with its pid;
-- no pid there is -1; and the place for the status can be written.
pub translate_wait_exit-IsOver :
    (k : Kernel) (t : Table) (ptracer ptracee : ℕ)
    → (t.tracee ptracer).as_ptracer.wait_pid ≡ 0
    → (t.tracee ptracee).as_ptracee.ptracer_event.pending ≡ true
    → matches ptracer (t.tracee ptracer).sysarg_1 (t.tracee ptracer).sysarg_3 (t.tracee ptracee)
      ≡ true
    → member ptracee t.tracees ≡ true
    → HasPid t.tracee ptracee (t.tracee ptracee).pid t.tracees
    → k.write_error ptracer (t.tracee ptracer).sysarg_2 ≡ none
    → IsOver t ptracer
        (t.tracee ptracer).sysarg_1
        (t.tracee ptracer).sysarg_3
        (translate_wait_exit k t ptracer)
translate_wait_exit-IsOver k t ptracer ptracee idle pending m there unique writable =
    let x = t.tracee ptracer in
    let q = quiet t ptracer in
    let same = modify_self t ptracer (set_waits_in WaitsIn.doesnt_wait) in
    elim (Option-cases (get_stopped_ptracee q ptracer x.sysarg_1 true x.sysarg_3)) [
      | inl nothing ↦
          absurd
            (quiet-finds t ptracer ptracee x.sysarg_1 x.sysarg_3 pending m there unique nothing)
      | inr (a, found) ↦
          let over =
            update-IsTold k q ptracer a
              (ap (λ y. k.write_error ptracer y.sysarg_2) same ∙ writable) in
          rw (wait-finds k t ptracer a found)
            (over.0 ∙ ap (λ y. y.as_ptracer.wait_pid) same ∙ idle, (a, found, over.1))
    ]
