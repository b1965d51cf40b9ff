-- ===== src/Sysvipc/Semaphore/Removal.antt =====
-- `semctl` of proot/src/extension/sysvipc/sysvipc_sem.c keeps the invariant of the waiting tracees.
use doki_proot.Prelude.{
  ℕ, zero, suc, ◌≡◌, refl, ◌∙◌, Bool, true, false, not, Option, none, some, List, [], ◌∷◌, All,
  All-map, ltb, ◌==◌, Bool-cases, if◌then◌else◌, Result, ok, fail, inl, inr, arith, e_idrm, e_inval,
}
use mathlib.Core.Bool.{false≢true}
use doki_proot.Sysvipc.{ℤ, Config, next_generation}
use doki_proot.Sysvipc.Semaphore.{Semaphore, at, put, set, lookup_semaphore, max_semval}
use doki_proot.Sysvipc.Semaphore.Operations.{
  State, waits_on, wake_all, Command, getval, setval, rmid, unknown, getall, ipc_info, sem_info,
  do_semctl, semctl, is_semnum, semnum_of,
}
use doki_proot.Sysvipc.Semaphore.Effect.{length-set}
use doki_proot.Sysvipc.Semaphore.Waiters.{
  IsFit, IsKept, wake_tracee-wakes, rested-IsFit, waits_on-index,
}
use doki_proot.Sysvipc.Semaphore.Invariant.{
  IsWellFormed, IsSized, IsFit-sizes, at-IsSized, put-IsSized, sizes, sizes-put,
}

-- A write changes no size but the one at its index.
sizes-put_other :
    (l : List Semaphore) (i : ℕ) (t : Semaphore) (j : ℕ)
    → (j == i) ≡ false
    → sizes (put l i t) j ≡ sizes l j
unfolding put at
sizes-put_other [] i t j h = refl
sizes-put_other (s ∷ l) zero t zero h = cc
sizes-put_other (s ∷ l) zero t (suc j) h = refl
sizes-put_other (s ∷ l) (suc i) t zero h = refl
sizes-put_other (s ∷ l) (suc i) t (suc j) h = sizes-put_other l i t j (ground (arith, h))

IsFit-other :
    (size size' : ℕ → Option ℕ) (index : ℕ) (c : Config)
    → ((j : ℕ) → (j == index) ≡ false → size' j ≡ size j)
    → waits_on index c ≡ false
    → IsFit size c
    → IsFit size' c
IsFit-other size size' index c same w f waiting =
    let (state, rest) = f waiting in
    let (n, e, sops) = rest in
    let apart : (c.waiting_object_index == index) ≡ false = unfold waits_on in ground arith in
    (state, (n, same c.waiting_object_index apart ∙ e, sops))

-- The tracees that are left are fit, and no assertion fails.
abbrev AllFit : (ℕ → Option ℕ) → Option (List Config) → Type 0
AllFit size none = ⊥
AllFit size (some tracees) = All (IsFit size) tracees

AllFit-cons :
    (size : ℕ → Option ℕ) (c : Config) (o : Option (List Config))
    → IsFit size c
    → AllFit size o
    → AllFit size (elim o [ none ↦ none | some rest ↦ some (c ∷ rest) ])
AllFit-cons size c none f h = h
AllFit-cons size c (some rest) f h = (f, h)

wake_all-AllFit :
    (size size' : ℕ → Option ℕ) (index : ℕ) (tracees : List Config)
    → ((j : ℕ) → (j == index) ≡ false → size' j ≡ size j)
    → All (IsFit size) tracees
    → AllFit size' (wake_all index tracees)
wake_all-AllFit size size' index [] same h = unfold wake_all in tt
wake_all-AllFit size size' index (c ∷ rest) same h =
    wake_one (wake_all index rest) (wake_all-AllFit size size' index rest same h.1) refl
  where
    wake_one :
        (o : Option (List Config))
        → AllFit size' o
        → wake_all index rest ≡ o
        → AllFit size' (wake_all index (c ∷ rest))
    wake_one none k e = absurd k
    wake_one (some rest') k e = elim (Bool-cases (waits_on index c)) [
      | inr w ↦ unfold wake_all in rw (e, w) (IsFit-other size size' index c same w h.0, k)
      | inl w ↦
          let waiting = (waits_on-index index c w).0 in
          let (woken, e', rested) =
            wake_tracee-wakes c (fail e_idrm) (h.0 waiting).0.0 waiting (h.0 waiting).0.1 in
          unfold wake_all in rw (e, w, e') (rested-IsFit size' woken rested, k)
    ]

-- What a call of `semctl` yields.
abbrev pub IsSafeCall : Option (Result ℕ × State) → Type 0
IsSafeCall none = ⊥
IsSafeCall (some (status, state)) = IsWellFormed state.semaphores state.others

-- Writing back a set that a command has changed, but not resized.
put-IsWellFormed :
    (l : List Semaphore) (i : ℕ) (s t : Semaphore) (tracees : List Config)
    → IsWellFormed l tracees
    → at l i ≡ some s
    → IsKept s t
    → IsSized t
    → IsWellFormed (put l i t) tracees
put-IsWellFormed l i s t tracees h e kept own = record {
  sized = put-IsSized l i t h.sized own;
  fit =
      All-map (IsFit (sizes l)) (IsFit (sizes (put l i t))) tracees
        (λ c. IsFit-sizes (sizes l) (sizes (put l i t)) (sizes-put l i s t e kept) c) h.fit;
}

IsSafeCall-if :
    (b : Bool) (m n : Option (Result ℕ × State))
    → IsSafeCall m
    → IsSafeCall n
    → IsSafeCall (if b then m else n)
IsSafeCall-if true m n h k = h
IsSafeCall-if false m n h k = k

do_semctl-IsSafeCall :
    (state : State) (i : ℕ) (s : Semaphore) (semnum : ℤ) (cmd : Command)
    → IsWellFormed state.semaphores state.others
    → at state.semaphores i ≡ some s
    → IsSafeCall (do_semctl state i s semnum cmd)
unfolding do_semctl
do_semctl-IsSafeCall state i s semnum getval h e =
    IsSafeCall-if (not (is_semnum semnum s.nsems)) _ _ h h
do_semctl-IsSafeCall state i s semnum (setval cmdarg) h e =
    let size = length-set s.sems (semnum_of semnum) cmdarg in
    IsSafeCall-if (ltb max_semval cmdarg) _ _ h (
      IsSafeCall-if (not (is_semnum semnum s.nsems)) _ _ h (
        put-IsWellFormed state.semaphores i s
          (record s { sems = set s.sems (semnum_of semnum) cmdarg }) state.others h e
          (record { kept_size = size; kept_valid = refl; kept_nsems = refl })
          (λ v. size ∙ at-IsSized state.semaphores i s h.sized e v)))
do_semctl-IsSafeCall state i s semnum unknown h e = h
do_semctl-IsSafeCall state i s semnum (getall written) h e = h
do_semctl-IsSafeCall state i s semnum (ipc_info written) h e = h
do_semctl-IsSafeCall state i s semnum (sem_info written) h e = h
do_semctl-IsSafeCall state i s semnum rmid h e =
    let t : Semaphore = record s {
      valid = false;
      generation = next_generation s.generation;
      sems = [];
    } in
    let sized = put-IsSized state.semaphores i t h.sized (λ v. absurd (false≢true v)) in
    go t sized (wake_all i state.others) (
      wake_all-AllFit (sizes state.semaphores) (sizes (put state.semaphores i t)) i state.others
        (sizes-put_other state.semaphores i t) h.fit)
  where
    go :
        (t : Semaphore)
        → All IsSized (put state.semaphores i t)
        → (o : Option (List Config)) → AllFit (sizes (put state.semaphores i t)) o
        → IsSafeCall (elim o [
          | none ↦ none
          | some others ↦
              some (ok 0, record state { others = others; semaphores = put state.semaphores i t })
        ])
    go t sized none k = k
    go t sized (some others) k = record { sized = sized; fit = k }

-- A call of `semctl`, whatever its identifier and its command are, and whether or not data that
-- it writes out reaches the tracee's memory, runs into no failing assertion
-- of `sysvipc_wake_tracee`, and keeps the sets sized and the waiting tracees fit: when a set is
-- removed, no tracee is left waiting on it.
pub semctl-IsSafeCall :
    (state : State) (object_id : ℕ) (semnum : ℤ) (cmd : Command)
    → IsWellFormed state.semaphores state.others
    → IsSafeCall (semctl state object_id semnum cmd)
unfolding semctl
semctl-IsSafeCall state object_id semnum cmd h = go (lookup_semaphore state.semaphores object_id)
  where
    at_index :
        (i : ℕ) (o : Option Semaphore)
        → at state.semaphores i ≡ o
        → IsSafeCall (elim o [
          | none ↦ some (fail e_inval, state)
          | some semaphore ↦ do_semctl state i semaphore semnum cmd
        ])
    at_index i none e = h
    at_index i (some s) e = do_semctl-IsSafeCall state i s semnum cmd h e

    go :
        (o : Option ℕ)
        → IsSafeCall (elim o [
          | none ↦ some (fail e_inval, state)
          | some i ↦ elim (at state.semaphores i) [
            | none ↦ some (fail e_inval, state)
            | some semaphore ↦ do_semctl state i semaphore semnum cmd
          ]
        ])
    go none = h
    go (some i) = at_index i (at state.semaphores i) refl
