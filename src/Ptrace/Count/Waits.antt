-- ===== src/Ptrace/Count/Waits.antt =====
-- The counters of ptracees across a wait, of proot/src/ptrace/wait.c.
use doki_proot.Prelude.{
  ℕ, ◌≡◌, refl, subst, true, false, Option, none, some, List, [], ◌∷◌, ◌==◌, arith, ==_iff, ==_refl,
  inl, inr, Bool-cases, Option-cases, ok, Result-cases, ◌⊎◌,
}
use doki_proot.Ptrace.{
  Tracee, Table, Kernel, Effect, WaitsIn, modify, add_effect, is_address, has_flag,
}
use doki_proot.Ptrace.Search.{Search, find_zombie, find_ptracee, get_ptracee, get_stopped_ptracee}
use doki_proot.Ptrace.Found.{member}
use doki_proot.Ptrace.Wait.{
  set_waits_in, set_wait, clear_pending, collect, leave_to_kernel, poke_event, update_wait_status,
  answer_wait, translate_wait_exit,
}
use doki_proot.Ptrace.Count.{IsCounted, modify-IsCounted}
use doki_proot.Ptrace.Count.Kept.{effect-IsCounted, detach-IsCounted}
use doki_proot.Ptrace.Count.Members.{find_zombie-member, find_ptracee-member}
use doki_proot.Ptrace.Order.Commute.{is_left, poke_wait, update-left, update-failed, update-poked}
use doki_proot.Ptrace.Count.Zombies.{freed-IsCounted}

-- A ptracee of `p`: a zombie on its list, or a live one.
abbrev pub IsPtracee : Table → ℕ → ℕ → Type 0
IsPtracee t p a =
    ((t.tracee a).as_ptracee.is_zombie ≡ true) × (member a (t.tracee p).as_ptracer.zombies ≡ true)
    ⊎ ((t.tracee a).as_ptracee.is_zombie ≡ false)
      × (member a t.tracees ≡ true)
      × ((t.tracee a).as_ptracee.ptracer ≡ some p)

find_ptracee-ptracer :
    (tracee : ℕ → Tracee) (p a : ℕ) (s : Search) (l : List ℕ)
    → find_ptracee tracee p s l ≡ some a
    → is_address (tracee a).as_ptracee.ptracer p ≡ true
unfolding find_ptracee
find_ptracee-ptracer tracee p a s [] h = cc
find_ptracee-ptracer tracee p a s (b ∷ l) h = ground (arith, find_ptracee-ptracer tracee p a s l)

is_address-some : (o : Option ℕ) (p : ℕ) → is_address o p ≡ true → o ≡ some p
is_address-some none p h = cc
is_address-some (some q) p h = ground (arith, ==_iff q p)

found-IsPtracee :
    (t : Table) (p pid options a : ℕ)
    → IsCounted t
    → get_stopped_ptracee t p pid true options ≡ some a
    → IsPtracee t p a
unfolding get_stopped_ptracee get_ptracee
found-IsPtracee t p pid options a c h =
    let zombies = (t.tracee p).as_ptracer.zombies in
    let s : Search = record {
      pid = pid;
      only_stopped = true;
      only_with_pevent = true;
      wait_options = options;
    } in
    elim (Option-cases (find_zombie t.tracee pid options zombies)) [
      | inr (z, e) ↦
          let same : z ≡ a = ground (arith, h, e) in
          let i =
            subst (λ y. member y zombies ≡ true) same
              (find_zombie-member t.tracee pid options z zombies e) in
          inl (c.dead p a i, i)
      | inl e ↦
          let f : find_ptracee t.tracee p s t.tracees ≡ some a = ground (arith, h, e) in
          let i = find_ptracee-member t.tracee p a s t.tracees f in
          inr (
            c.alive a i,
            i,
            is_address-some (t.tracee a).as_ptracee.ptracer p
                (find_ptracee-ptracer t.tracee p a s t.tracees f),
          )
    ]

module _ (p a : ℕ) where
  collect-IsCounted : (t : Table) → IsPtracee t p a → IsCounted t → IsCounted (collect t p a)
  unfolding collect
  collect-IsCounted t (inl (e, i)) c = rw e (freed-IsCounted t p a c i)
  collect-IsCounted t (inr (e, _, _)) c = rw e c

  leave-IsCounted : (t : Table) → IsPtracee t p a → IsCounted t → IsCounted (leave_to_kernel t p a)
  unfolding leave_to_kernel
  leave-IsCounted t (inl (e, i)) c =
      let u = add_effect t (Effect.restart_original_syscall p) in
      rw e (freed-IsCounted u p a (effect-IsCounted t _ c) i)
  leave-IsCounted t (inr (e, i, traced)) c =
      let u = add_effect t (Effect.restart_original_syscall p) in
      rw e (detach-IsCounted u a p i (effect-IsCounted t _ c) traced)

  -- Only an effect, if any, is added.
  poke_cases :
      (k : Kernel) (t u : Table) (address value : ℕ)
      → poke_event k t p address value ≡ ok u
      → (u ≡ t) ⊎ (u ≡ add_effect t (Effect.poke_int32 p address value))
  unfolding poke_event
  poke_cases k t u address value e = elim (Bool-cases (address == 0)) [
    | inl here ↦ inl (ground (arith, e, here))
    | inr there ↦ inr (ground (arith, e, there))
  ]

  cleared-IsPtracee : (t : Table) → IsPtracee t p a → IsPtracee (modify t a clear_pending) p a
  cleared-IsPtracee t (inl (e, i)) =
      inl (ground (arith, e, ==_refl a), ground (arith, i, ==_iff p a))
  cleared-IsPtracee t (inr (e, i, traced)) =
      inr (ground (arith, e, ==_refl a), i, ground (arith, traced, ==_refl a))

  told-IsCounted :
      (t : Table)
      → IsPtracee t p a
      → IsCounted t
      → IsCounted (collect (modify t a clear_pending) p a)
  told-IsCounted t is c =
      collect-IsCounted (modify t a clear_pending) (cleared-IsPtracee t is)
        (modify-IsCounted t a clear_pending (λ x. (refl, refl, refl, refl)) c)

  pub update-IsCounted :
      (k : Kernel) (t : Table)
      → IsPtracee t p a
      → IsCounted t
      → IsCounted (update_wait_status k t p a).0
  update-IsCounted k t is c = elim (Bool-cases (is_left t p a)) [
    | inl e ↦ rw (update-left k t p a e) (leave-IsCounted t is c)
    | inr e ↦ elim (Result-cases (poke_wait k t p a)) [
      | inr (code, w) ↦ rw (update-failed k t code p a e w) c
      | inl (u, w) ↦ rw (update-poked k t u p a e w) (elim (poke_cases k t u _ _ w) [
        | inl same ↦ rw same (told-IsCounted t is c)
        | inr more ↦ rw more (told-IsCounted (add_effect t _) is (effect-IsCounted t _ c))
      ])
    ]
  ]

answer-IsCounted :
    (k : Kernel) (t : Table) (p pid options : ℕ) (o : Option ℕ)
    → ((a : ℕ) → o ≡ some a → IsPtracee t p a)
    → IsCounted t
    → IsCounted (answer_wait k t p pid options o).0
unfolding answer_wait
answer-IsCounted k t p pid options (some a) is c = update-IsCounted p a k t (is a refl) c
answer-IsCounted k t p pid options none is c =
    elim (Bool-cases ((t.tracee p).as_ptracer.nb_ptracees == 0)) [
      | inl e ↦ rw e c
      | inr e ↦ elim (Bool-cases (has_flag options 1)) [
        | inl polls ↦ rw (e, polls) c
        | inr blocks ↦
            rw (e, blocks)
              (modify-IsCounted t p (set_wait pid options) (λ x. (refl, refl, refl, refl)) c)
      ]
    ]

pub wait_exit-IsCounted :
    (k : Kernel) (t : Table) (p : ℕ) → IsCounted t → IsCounted (translate_wait_exit k t p).0
unfolding translate_wait_exit
wait_exit-IsCounted k t p c =
    let q = modify t p (set_waits_in WaitsIn.doesnt_wait) in
    let x = t.tracee p in
    let c' =
      modify-IsCounted t p (set_waits_in WaitsIn.doesnt_wait) (λ y. (refl, refl, refl, refl)) c in
    answer-IsCounted k q p x.sysarg_1 x.sysarg_3 _
      (λ a e. found-IsPtracee q p x.sysarg_1 x.sysarg_3 a c' e) c'
