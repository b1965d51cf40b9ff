-- ===== src/Sysvipc/Semaphore/Invariant.antt =====
-- The invariant of the semaphores and the waiting tracees of an IPC namespace of
-- proot/src/extension/sysvipc/sysvipc_sem.c, where sets are written back.
use doki_proot.Prelude.{
  ℕ, zero, suc, ◌<◌, ◌≡◌, refl, sym, ◌∙◌, ap, true, Option, some, List, [], ◌∷◌, All, length, arith,
  subst,
}
use doki_proot.Sysvipc.{Sembuf, Config}
use doki_proot.Sysvipc.Semaphore.{Semaphore, at, put}
use doki_proot.Sysvipc.Semaphore.Operations.{are_in_set}
use doki_proot.Sysvipc.Semaphore.Waiters.{IsFit, IsKept, valid_size, some_injective}

-- A valid semaphore set has as many values as it says.
abbrev pub IsSized : Semaphore → Type 0
IsSized s = s.valid ≡ true → length s.sems ≡ s.nsems

abbrev pub sizes : List Semaphore → ℕ → Option ℕ
sizes semaphores i = valid_size (at semaphores i)

-- The invariant of an IPC namespace: its sets are sized, and its waiting tracees fit.
pub record IsWellFormed (semaphores : List Semaphore) (tracees : List Config) : Type 0 where
  pub sized : All IsSized semaphores
  pub fit : All (IsFit (sizes semaphores)) tracees

pub at-IsSized :
    (l : List Semaphore) (i : ℕ) (s : Semaphore) → All IsSized l → at l i ≡ some s → IsSized s
unfolding at
at-IsSized [] i s h e = cc
at-IsSized (t ∷ l) zero s h e = subst IsSized (some_injective e) h.0
at-IsSized (t ∷ l) (suc i) s h e = at-IsSized l i s h.1 e

pub put-IsSized :
    (l : List Semaphore) (i : ℕ) (t : Semaphore)
    → All IsSized l
    → IsSized t
    → All IsSized (put l i t)
unfolding put
put-IsSized [] i t h k = tt
put-IsSized (s ∷ l) zero t h k = (k, h.1)
put-IsSized (s ∷ l) (suc i) t h k = (h.0, put-IsSized l i t h.1 k)

valid_size-IsKept : (s t : Semaphore) → IsKept s t → valid_size (some t) ≡ valid_size (some s)
unfolding valid_size
valid_size-IsKept s t k = rw (k.kept_valid, k.kept_size) refl

-- Writing back a kept set changes no size.
pub sizes-put :
    (l : List Semaphore) (i : ℕ) (s t : Semaphore)
    → at l i ≡ some s
    → IsKept s t
    → (j : ℕ) → sizes (put l i t) j ≡ sizes l j
unfolding put at
sizes-put [] i s t e k j = cc
sizes-put (u ∷ l) zero s t e k zero = valid_size-IsKept s t k ∙ ap valid_size (sym e)
sizes-put (u ∷ l) zero s t e k (suc j) = refl
sizes-put (u ∷ l) (suc i) s t e k zero = refl
sizes-put (u ∷ l) (suc i) s t e k (suc j) = sizes-put l i s t e k j

pub IsFit-sizes :
    (size size' : ℕ → Option ℕ)
    → ((j : ℕ) → size' j ≡ size j)
    → (c : Config) → IsFit size c
    → IsFit size' c
IsFit-sizes size size' same c f w =
    let (state, rest) = f w in
    let (n, e, sops) = rest in (state, (n, same c.waiting_object_index ∙ e, sops))

pub are_in_set-All :
    (n : ℕ) (sops : List Sembuf)
    → are_in_set n sops ≡ true
    → All (λ (o : Sembuf). o.sem_num < n) sops
unfolding are_in_set
are_in_set-All n [] h = tt
are_in_set-All n (s ∷ sops) h = (ground arith, are_in_set-All n sops (ground arith))
