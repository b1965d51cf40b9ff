-- ===== src/Sysvipc/Semaphore.antt =====
-- The semaphores of proot/src/extension/sysvipc/sysvipc_sem.c. The tracee's memory and the order
-- of its registers are left out: the operations take their arguments decoded.
pub mod Effect
pub mod Operations
pub mod Waiters
pub mod Invariant
pub mod Safety
pub mod Removal
pub mod Identity
mod Samples
use doki_proot.Prelude.{
  ℕ, zero, suc, get_or, ◌+◌, ◌-◌, ◌%◌, Bool, true, false, not, ◌&&◌, ◌||◌, Option, none, some, List,
  [], ◌∷◌, ◌++◌, length, ltb, leb, ◌==◌, if◌then◌else◌, Errno, Result, ok, fail, e_inval, e_noent,
  e_nospc, e_exist, e_again, e_range, e_2big, e_fbig, e_idrm,
}
use doki_proot.Sysvipc.{
  ℤ, pos, negsuc, Sembuf, Config, WaitReason, not_waiting, wait_semop, is_wait_semop, wake_tracee,
  has_flag, ipc_creat, ipc_excl, ipc_nowait, next_generation, ipc_object_id, lookup_ipc_object,
}

-- struct SysVIpcSemaphore
pub record Semaphore : Type 0 where
  pub key : ℕ
  pub generation : ℕ
  pub valid : Bool
  pub sems : List ℕ
  pub nsems : ℕ

abbrev pub max_sems : ℕ
max_sems = 512

abbrev pub max_nsems : ℕ
max_nsems = 512

abbrev pub max_nsops : ℕ
max_nsops = 512

abbrev pub max_semval : ℕ
max_semval = 28672

-- An array with the value at an index changed.
unfoldable pub set : List ℕ → ℕ → ℕ → List ℕ
set [] n y = []
set (x ∷ xs) zero y = y ∷ xs
set (x ∷ xs) (suc n) y = x ∷ set xs n y

-- What `sysvipc_sem_check` finds: the new values, an error, or that the tracee is to wait ('z', or 'n').
pub data Check : Type 0 where
  granted : List ℕ → Check
  refused : Errno → Check
  waits_z waits_n : Check

unfoldable pub sem_check_loop : List Sembuf → List ℕ → Check
unfolding set has_flag
sem_check_loop [] new_sems = granted new_sems
sem_check_loop (s ∷ ops) new_sems =
    let value = get_or new_sems s.sem_num 0 in
    let wait = λ (c : Check). if has_flag s.sem_flg ipc_nowait then refused e_again else c in
    elim s.sem_op [
      | pos zero ↦ if not (value == 0) then wait waits_z else sem_check_loop ops new_sems
      | pos (suc n) ↦
          if ltb max_semval (value + suc n)
          then refused e_range
          else sem_check_loop ops (set new_sems s.sem_num (value + suc n))
      | negsuc n ↦
          if ltb value (suc n)
          then wait waits_n
          else if ltb max_semval (value - suc n)
          then refused e_range
          else sem_check_loop ops (set new_sems s.sem_num (value - suc n))
    ]

-- sysvipc_sem_check: what is found, and the semaphore, which changes only if all is granted.
unfoldable pub sem_check : Config → Semaphore → Check × Semaphore
unfolding sem_check_loop
sem_check config semaphore = elim (sem_check_loop config.semop_sops semaphore.sems) [
  | granted new_sems ↦ (granted new_sems, record semaphore { sems = new_sems })
  | refused code ↦ (refused code, semaphore)
  | waits_z ↦ (waits_z, semaphore)
  | waits_n ↦ (waits_n, semaphore)
]

-- The result for the tracee, or `none` if it is to wait.
unfoldable pub check_status : Check → Option (Result ℕ)
check_status (granted new_sems) = some (ok 0)
check_status (refused code) = some (fail code)
check_status waits_z = none
check_status waits_n = none

-- The search of `sysvipc_semget` from an index on: the semaphore of the key, and the first unused
-- slot. IPC_PRIVATE is 0.
unfoldable pub find_semaphore : ℕ → ℕ → Option ℕ → List Semaphore → Option ℕ × Option ℕ
find_semaphore key index unused [] = (none, unused)
find_semaphore key index unused (s ∷ rest) =
    if s.valid
    then (if not (key == 0) && s.key == key % 4294967296
        then (some index, unused)
        else find_semaphore key (suc index) unused rest)
    else find_semaphore key (suc index) (elim unused [ none ↦ some index | some u ↦ some u ]) rest

-- memset(semaphore->sems, 0, ...)
unfoldable pub zeros : ℕ → List ℕ
zeros zero = []
zeros (suc n) = 0 ∷ zeros n

unfoldable pub at : List Semaphore → ℕ → Option Semaphore
at [] n = none
at (s ∷ rest) zero = some s
at (s ∷ rest) (suc n) = at rest n

unfoldable pub put : List Semaphore → ℕ → Semaphore → List Semaphore
put [] n t = []
put (s ∷ rest) zero t = t ∷ rest
put (s ∷ rest) (suc n) t = s ∷ put rest n t

-- The initialization of a slot, which keeps its generation.
unfoldable pub create_at : List Semaphore → ℕ → ℕ → ℕ → Result (ℕ × List Semaphore)
unfolding zeros at put
create_at semaphores index key nsems = elim (at semaphores index) [
  | none ↦ fail e_inval
  | some s ↦ ok (
    ipc_object_id index s.generation,
    put semaphores index
        (record s { key = key % 4294967296; valid = true; sems = zeros nsems; nsems = nsems }),
  )
]

abbrev pub unused_semaphore : Semaphore
unused_semaphore = record { key = 0; generation = 0; valid = false; sems = []; nsems = 0 }

-- The opening of a semaphore that was found.
unfoldable pub open_at : List Semaphore → ℕ → ℕ → ℕ → Result (ℕ × List Semaphore)
unfolding at has_flag
open_at semaphores index nsems semflg =
    if has_flag semflg ipc_creat && has_flag semflg ipc_excl
    then fail e_exist
    else elim (at semaphores index) [
      | none ↦ fail e_inval
      | some s ↦
          if ltb s.nsems nsems
          then fail e_inval
          else ok (ipc_object_id index s.generation, semaphores)
    ]

-- sysvipc_semget: the identifier, and the semaphores.
unfoldable pub semget : List Semaphore → ℕ → ℤ → ℕ → Result (ℕ × List Semaphore)
unfolding find_semaphore create_at open_at has_flag
semget semaphores semaphore_id (negsuc n) semflg = fail e_inval
semget semaphores semaphore_id (pos nsems) semflg =
    if nsems == 0 || ltb max_nsems nsems
    then fail e_inval
    else let (found, unused) = find_semaphore semaphore_id 0 none semaphores in
      elim found [
        | some index ↦ open_at semaphores index nsems semflg
        | none ↦ if not (has_flag semflg ipc_creat) then fail e_noent else elim unused [
          | some slot ↦ create_at semaphores slot semaphore_id nsems
          | none ↦
              if leb max_sems (length semaphores)
              then fail e_nospc
              else create_at (semaphores ++ unused_semaphore ∷ []) (length semaphores) semaphore_id
                  nsems
        ]
      ]

-- LOOKUP_IPC_OBJECT for semaphores: the index and the semaphore.
unfoldable pub valid_generation : Option Semaphore → Option ℕ
valid_generation none = none
valid_generation (some s) = if s.valid then some s.generation else none

unfoldable pub lookup_semaphore : List Semaphore → ℕ → Option ℕ
unfolding valid_generation at
lookup_semaphore semaphores object_id =
    lookup_ipc_object object_id (λ index. valid_generation (at semaphores index))
