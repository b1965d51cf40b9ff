-- ===== src/Ptrace/Order/Commute.antt =====
-- The collection of an event, and what the ptracer has noted of its own wait, of
-- proot/src/ptrace/wait.c.
use mathlib.Core.Path.{fun_ext}
use doki_proot.Prelude.{
  ◌>>=◌, Option-cases, Result-cases, Errno, ℕ, ◌≡◌, refl, ◌≢◌, Bool, true, false, ◌&&◌, inl, inr,
  ◌==◌, arith, ==_iff, ==_refl, Bool-cases, Result, ok, fail, none, ap, sym, ◌∙◌, ◌-◌,
}
use doki_proot.Ptrace.{
  is_address, Tracee, Table, Kernel, Effect, add_effect, modify, set_ptracer, set_count,
  detach_from_ptracer,
}
use doki_proot.Ptrace.Wait.{
  is_terminating, set_wait, clear_pending, drop_zombie, free_zombie, collect, leave_to_kernel,
  poke_event, update_wait_status,
}

pub Table-ext :
    {s t : Table}
    → ((b : ℕ) → s.tracee b ≡ t.tracee b)
    → s.tracees ≡ t.tracees
    → s.effects ≡ t.effects
    → s ≡ t
Table-ext {s} {t} f l e =
    λ i. record { tracee = fun_ext {f = s.tracee} {g = t.tracee} f i; tracees = l i; effects = e i }

pub modify_comm :
    (t : Table) (a b : ℕ) (f g : Tracee → Tracee)
    → a ≢ b
    → modify (modify t a f) b g ≡ modify (modify t b g) a f
modify_comm t a b f g apart = Table-ext (λ c. ground (arith, ==_iff c a, ==_iff c b)) refl refl

pub modify_swap :
    (t : Table) (a : ℕ) (f g : Tracee → Tracee)
    → ((x : Tracee) → f (g x) ≡ g (f x))
    → modify (modify t a f) a g ≡ modify (modify t a g) a f
modify_swap t a f g swap =
    Table-ext (λ c. ground (arith, ==_iff c a, ==_refl a, swap (t.tracee a))) refl refl

pub modify-other :
    (t : Table) (a b : ℕ) (f : Tracee → Tracee) → a ≢ b → (modify t b f).tracee a ≡ t.tracee a
modify-other t a b f apart = ground (arith, ==_iff a b)

pub modify_self :
    (t : Table) (a : ℕ) (f : Tracee → Tracee) → (modify t a f).tracee a ≡ f (t.tracee a)
modify_self t a f = ground (arith, ==_refl a)

-- What the ptracer notes.
abbrev pub noted : Table → ℕ → ℕ → ℕ → Table
noted t ptracer pid options = modify t ptracer (set_wait pid options)

-- The event goes to the parent through the kernel.
abbrev pub is_left : Table → ℕ → ℕ → Bool
is_left t ptracer ptracee =
    is_address (t.tracee ptracee).parent ptracer
    && is_terminating (t.tracee ptracee).as_ptracee.ptracer_event.value

abbrev pub poke_wait : Kernel → Table → ℕ → ℕ → Result Table
poke_wait k t ptracer ptracee =
    poke_event k t ptracer (t.tracee ptracer).sysarg_2
      (t.tracee ptracee).as_ptracee.ptracer_event.value

left_same :
    (t u : Table) (ptracer ptracee : ℕ)
    → u.tracee ptracee ≡ t.tracee ptracee
    → is_left u ptracer ptracee ≡ is_left t ptracer ptracee
left_same t u ptracer ptracee e =
    ap (λ x. is_address x.parent ptracer && is_terminating x.as_ptracee.ptracer_event.value) e

pub update-left :
    (k : Kernel) (t : Table) (ptracer ptracee : ℕ)
    → is_left t ptracer ptracee ≡ true
    → update_wait_status k t ptracer ptracee ≡ (leave_to_kernel t ptracer ptracee, ok 0)
unfolding update_wait_status
update-left k t ptracer ptracee e = rw e refl

pub update-failed :
    (k : Kernel) (t : Table) (code : Errno) (ptracer ptracee : ℕ)
    → is_left t ptracer ptracee ≡ false
    → poke_wait k t ptracer ptracee ≡ fail code
    → update_wait_status k t ptracer ptracee ≡ (t, fail code)
unfolding update_wait_status
update-failed k t code ptracer ptracee e w = rw (e, w) refl

pub update-poked :
    (k : Kernel) (t u : Table) (ptracer ptracee : ℕ)
    → is_left t ptracer ptracee ≡ false
    → poke_wait k t ptracer ptracee ≡ ok u
    → update_wait_status k t ptracer ptracee
      ≡ (collect (modify u ptracee clear_pending) ptracer ptracee, ok (t.tracee ptracee).pid)
unfolding update_wait_status
update-poked k t u ptracer ptracee e w = rw (e, w) refl

module _ (ptracer ptracee pid options : ℕ) (apart : ptracee ≢ ptracer) where
  detach-noted :
      (t : Table)
      → detach_from_ptracer (noted t ptracer pid options) ptracee ptracer
        ≡ noted (detach_from_ptracer t ptracee ptracer) ptracer pid options
  unfolding detach_from_ptracer
  detach-noted t =
      ap (λ u. modify u ptracer (set_count (λ n. n - 1)))
        (modify_comm t ptracer ptracee (set_wait pid options) (set_ptracer none)
          (λ e. apart (sym e)))
      ∙ modify_swap (modify t ptracee (set_ptracer none)) ptracer (set_wait pid options)
          (set_count (λ n. n - 1)) (λ x. refl)

  free-noted :
      (t : Table)
      → free_zombie (noted t ptracer pid options) ptracer ptracee
        ≡ noted (free_zombie t ptracer ptracee) ptracer pid options
  free-noted t = modify_swap t ptracer (set_wait pid options) (drop_zombie ptracee) (λ x. refl)

  clear-noted :
      (t : Table)
      → modify (noted t ptracer pid options) ptracee clear_pending
        ≡ noted (modify t ptracee clear_pending) ptracer pid options
  clear-noted t =
      modify_comm t ptracer ptracee (set_wait pid options) clear_pending (λ e. apart (sym e))

  noted-zombie :
      (t : Table)
      → ((noted t ptracer pid options).tracee ptracee).as_ptracee.is_zombie
        ≡ (t.tracee ptracee).as_ptracee.is_zombie
  noted-zombie t =
      ap (λ x. x.as_ptracee.is_zombie) (modify-other t ptracee ptracer (set_wait pid options) apart)

  collect-noted :
      (t : Table)
      → collect (noted t ptracer pid options) ptracer ptracee
        ≡ noted (collect t ptracer ptracee) ptracer pid options
  unfolding collect
  collect-noted t = elim (Bool-cases (t.tracee ptracee).as_ptracee.is_zombie) [
    | inl e ↦
        rw (noted-zombie t, e, detach-noted t) (free-noted (detach_from_ptracer t ptracee ptracer))
    | inr e ↦ rw (noted-zombie t, e) refl
  ]

  leave-noted :
      (t : Table)
      → leave_to_kernel (noted t ptracer pid options) ptracer ptracee
        ≡ noted (leave_to_kernel t ptracer ptracee) ptracer pid options
  unfolding leave_to_kernel
  leave-noted t =
      let u = add_effect t (Effect.restart_original_syscall ptracer) in
      elim (Bool-cases (t.tracee ptracee).as_ptracee.is_zombie) [
        | inl e ↦
            rw (noted-zombie t, e, detach-noted u)
              (free-noted (detach_from_ptracer u ptracee ptracer))
        | inr e ↦ rw (noted-zombie t, e) (detach-noted u)
      ]

  poke-noted :
      (k : Kernel) (t : Table) (address value : ℕ)
      → poke_event k (noted t ptracer pid options) ptracer address value
        ≡ (poke_event k t ptracer address value >>= λ u. ok (noted u ptracer pid options))
  unfolding poke_event
  poke-noted k t address value = elim (Bool-cases (address == 0)) [
    | inl e ↦ rw e refl
    | inr e ↦ elim (Option-cases (k.write_error ptracer address)) [
      | inl w ↦ rw (e, w) refl
      | inr (code, w) ↦ rw (e, w) refl
    ]
  ]

  pub update-noted :
      (k : Kernel) (t : Table)
      → update_wait_status k (noted t ptracer pid options) ptracer ptracee ≡ (
        noted (update_wait_status k t ptracer ptracee).0 ptracer pid options,
        (update_wait_status k t ptracer ptracee).1,
      )
  update-noted k t =
      let n = noted t ptracer pid options in
      let same : n.tracee ptracee ≡ t.tracee ptracee =
        modify-other t ptracee ptracer (set_wait pid options) apart in
      elim (Bool-cases (is_left t ptracer ptracee)) [
        | inl e ↦
            rw
              (
                update-left k t ptracer ptracee e,
                update-left k n ptracer ptracee (left_same t n ptracer ptracee same ∙ e),
                leave-noted t,
              )
              refl
        | inr e ↦
            let e' = left_same t n ptracer ptracee same ∙ e in
            let poked : poke_wait k n ptracer ptracee
                ≡ (poke_wait k t ptracer ptracee >>= λ u. ok (noted u ptracer pid options)) =
              rw (same, modify_self t ptracer (set_wait pid options))
                (poke-noted k t (t.tracee ptracer).sysarg_2
                  (t.tracee ptracee).as_ptracee.ptracer_event.value) in
            elim (Result-cases (poke_wait k t ptracer ptracee)) [
              | inl (u, w) ↦
                  rw
                    (
                      update-poked k t u ptracer ptracee e w,
                      update-poked k n (noted u ptracer pid options) ptracer ptracee e'
                          (poked ∙ ap (λ r. r >>= λ u. ok (noted u ptracer pid options)) w),
                      clear-noted u,
                      collect-noted (modify u ptracee clear_pending),
                      same,
                    )
                    refl
              | inr (code, w) ↦
                  rw
                    (
                      update-failed k t code ptracer ptracee e w,
                      update-failed k n code ptracer ptracee e'
                          (poked ∙ ap (λ r. r >>= λ u. ok (noted u ptracer pid options)) w),
                    )
                    refl
            ]
      ]
