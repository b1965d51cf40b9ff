-- ===== src/Sysvipc/Semaphore/Waiters.antt =====
-- The invariant of the tracees that wait for a semaphore of
-- proot/src/extension/sysvipc/sysvipc_sem.c, and what waking them does to it.
use doki_proot.Prelude.{
  ℕ, ◌<◌, ◌≡◌, refl, sym, ◌∙◌, ap, true, false, ◌||◌, Option, none, some, List, [], ◌∷◌, All,
  length, ==_iff, Bool-cases, if◌then◌else◌, Result, inl, inr, arith, subst,
}
use mathlib.Core.Bool.{false≢true}
use doki_proot.Sysvipc.{
  Sembuf, Config, WaitState, is_waiting, is_wait_semop, wake_state, wake_tracee, is_entered_ppoll,
  WaitReason, not_waiting, wait_semop, wait_queue_recv, wait_shmat_helper_busy,
}
use doki_proot.Sysvipc.Semaphore.{
  Semaphore, Check, granted, refused, waits_z, waits_n, sem_check, sem_check_loop, check_status,
}
use doki_proot.Sysvipc.Semaphore.Effect.{sem_check_loop-IsEffect}
use doki_proot.Sysvipc.Semaphore.Operations.{waits_on, cons_config, wake_pass}

-- The number of values of a semaphore set, if it is valid.
unfoldable pub valid_size : Option Semaphore → Option ℕ
valid_size none = none
valid_size (some s) = if s.valid then some (length s.sems) else none

-- A tracee that waits for a semaphore can be woken, and its operations are on values of a valid set.
abbrev pub IsFit : (ℕ → Option ℕ) → Config → Type 0
IsFit size c =
    is_wait_semop c.wait_reason ≡ true
    → ((state : WaitState) × (wake_state c.wait_state ≡ some state))
      × ((n : ℕ) × (size c.waiting_object_index ≡ some n)
          × All (λ (s : Sembuf). s.sem_num < n) c.semop_sops)

pub waits_on-index :
    (index : ℕ) (c : Config)
    → waits_on index c ≡ true
    → (is_wait_semop c.wait_reason ≡ true) × (c.waiting_object_index ≡ index)
unfolding waits_on
waits_on-index index c h = (ground arith, ground (arith, (==_iff c.waiting_object_index index).0))

-- A check keeps all of a semaphore but its values, and their number.
pub record IsKept (s t : Semaphore) : Type 0 where
  pub kept_size : length t.sems ≡ length s.sems
  pub kept_valid : t.valid ≡ s.valid
  pub kept_nsems : t.nsems ≡ s.nsems

pub IsKept-trans : (s t u : Semaphore) → IsKept s t → IsKept t u → IsKept s u
IsKept-trans s t u a b = record {
  kept_size = b.kept_size ∙ a.kept_size;
  kept_valid = b.kept_valid ∙ a.kept_valid;
  kept_nsems = b.kept_nsems ∙ a.kept_nsems;
}

IsKept-refl : (s : Semaphore) → IsKept s s
IsKept-refl s = record { kept_size = refl; kept_valid = refl; kept_nsems = refl }

pub sem_check-IsKept :
    (c : Config) (s : Semaphore)
    → All (λ (o : Sembuf). o.sem_num < length s.sems) c.semop_sops
    → IsKept s (sem_check c s).1
unfolding sem_check
sem_check-IsKept c s h = go (sem_check_loop c.semop_sops s.sems) refl
  where
    go :
        (found : Check)
        → sem_check_loop c.semop_sops s.sems ≡ found
        → IsKept s (
            (elim found as (λ x. Check × Semaphore) [
              | granted new_sems ↦ (granted new_sems, record s { sems = new_sems })
              | refused code ↦ (refused code, s)
              | waits_z ↦ (waits_z, s)
              | waits_n ↦ (waits_n, s)
            ]).1)
    go (granted new_sems) e = record {
      kept_size = (sem_check_loop-IsEffect c.semop_sops s.sems new_sems h e).0;
      kept_valid = refl;
      kept_nsems = refl;
    }
    go (refused code) e = IsKept-refl s
    go waits_z e = IsKept-refl s
    go waits_n e = IsKept-refl s

-- What a pass over the tracees yields: no assertion fails, the tracees stay fit.
abbrev pub Passes : (ℕ → Option ℕ) → Semaphore → Option (List Config × Semaphore) → Type 0
Passes size s none = ⊥
Passes size s (some (rest, t)) = All (IsFit size) rest × IsKept s t

Passes-cons :
    (size : ℕ → Option ℕ) (c : Config) (s t : Semaphore) (o : Option (List Config × Semaphore))
    → IsFit size c
    → IsKept s t
    → Passes size t o
    → Passes size s (cons_config c o)
unfolding cons_config
Passes-cons size c s t none f k p = p
Passes-cons size c s t (some (rest, u)) f k p = ((f, p.0), IsKept-trans s t u k p.1)

semop-is_waiting : (r : WaitReason) → is_wait_semop r ≡ true → is_waiting r ≡ true
unfolding is_wait_semop is_waiting
semop-is_waiting wait_semop h = refl
semop-is_waiting not_waiting h = cc
semop-is_waiting wait_queue_recv h = cc
semop-is_waiting wait_shmat_helper_busy h = cc

-- A tracee that waits, and can be woken, is woken and waits no more.
pub wake_tracee-wakes :
    (c : Config) (status : Result ℕ) (state : WaitState)
    → is_wait_semop c.wait_reason ≡ true
    → wake_state c.wait_state ≡ some state
    → (woken : Config) × (wake_tracee c status ≡ some woken) × (woken.wait_reason ≡ not_waiting)
unfolding wake_tracee
wake_tracee-wakes c status state w e =
    let waiting = semop-is_waiting c.wait_reason w in
    let woken = record c {
      wait_reason = not_waiting;
      status_after_wait = status;
      wait_state = state;
      sigstop_ignored = is_entered_ppoll c.wait_state || c.sigstop_ignored;
    } in
    (woken, rw (waiting, e) refl, refl)

pub rested-IsFit : (size : ℕ → Option ℕ) (c : Config) → c.wait_reason ≡ not_waiting → IsFit size c
rested-IsFit size c e = λ w. absurd (false≢true (go (c.wait_reason) e ∙ w))
  where
    go : (r : WaitReason) → r ≡ not_waiting → false ≡ is_wait_semop r
    go r e' = rw e' (unfold is_wait_semop in refl)

wake_tracee-Passes :
    (size : ℕ → Option ℕ) (c : Config) (status : Result ℕ) (s t : Semaphore)
    (o : Option (List Config × Semaphore))
    → IsFit size c
    → is_wait_semop c.wait_reason ≡ true
    → IsKept s t
    → Passes size t o
    → Passes size s (elim (wake_tracee (record c { semop_sops = [] }) status) [
      | none ↦ none
      | some woken ↦ cons_config woken o
    ])
wake_tracee-Passes size c status s t o f w k p =
    let (woken, e, rested) =
      wake_tracee-wakes (record c { semop_sops = [] }) status (f w).0.0 w (f w).0.1 in
    rw e (Passes-cons size woken s t o (rested-IsFit size woken rested) k p)

pub some_injective : {A : Type 0} {a b : A} → some a ≡ some b → a ≡ b
some_injective e = cc

-- The operations of a fit tracee that waits on a set of the given size.
pub waiting_sops :
    (size : ℕ → Option ℕ) (index n : ℕ) (c : Config)
    → IsFit size c
    → waits_on index c ≡ true
    → size index ≡ some n
    → All (λ (o : Sembuf). o.sem_num < n) c.semop_sops
waiting_sops size index n c f h e =
    let (waiting, here) = waits_on-index index c h in
    let (m, e', sops) = (f waiting).1 in
    subst (λ k. All (λ (o : Sembuf). o.sem_num < k) c.semop_sops)
      (some_injective (sym e' ∙ ap size here ∙ e)) sops

wake_found :
    (size : ℕ → Option ℕ) (index : ℕ) (c : Config) (s t : Semaphore)
    (o : Option (List Config × Semaphore)) (found : Option (Result ℕ))
    → IsFit size c
    → is_wait_semop c.wait_reason ≡ true
    → IsKept s t
    → Passes size t o
    → Passes size s (elim found [
      | none ↦ cons_config c o
      | some status ↦ elim (wake_tracee (record c { semop_sops = [] }) status) [
        | none ↦ none
        | some woken ↦ cons_config woken o
      ]
    ])
wake_found size index c s t o none f w k p = Passes-cons size c s t o f k p
wake_found size index c s t o (some status) f w k p = wake_tracee-Passes size c status s t o f w k p

-- The pass of `semop` over fit tracees: no assertion fails, and they stay fit.
pub wake_pass-Passes :
    (size : ℕ → Option ℕ) (index : ℕ) (tracees : List Config) (s : Semaphore)
    → size index ≡ some (length s.sems)
    → All (IsFit size) tracees
    → Passes size s (wake_pass index tracees s)
unfolding wake_pass
wake_pass-Passes size index [] s e h = (tt, IsKept-refl s)
wake_pass-Passes size index (c ∷ rest) s e h = elim (Bool-cases (waits_on index c)) [
  | inr w ↦ rw w (
      Passes-cons size c s s (wake_pass index rest s) h.0 (IsKept-refl s)
        (wake_pass-Passes size index rest s e h.1))
  | inl w ↦
      let kept = sem_check-IsKept c s (waiting_sops size index (length s.sems) c h.0 w e) in
      let after =
        wake_pass-Passes size index rest (sem_check c s).1 (e ∙ ap some (sym kept.kept_size)) h.1 in
      rw w (
        wake_found size index c s (sem_check c s).1 (wake_pass index rest (sem_check c s).1)
          (check_status (sem_check c s).0) h.0 (waits_on-index index c w).0 kept after)
]
