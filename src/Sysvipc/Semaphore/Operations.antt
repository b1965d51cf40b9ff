-- ===== src/Sysvipc/Semaphore/Operations.antt =====
-- `semop`, its timeout and `semctl` of proot/src/extension/sysvipc/sysvipc_sem.c. What `write_data`
-- answers for a command that writes data out is a parameter. `none` stands for an assertion that
-- fails.
use doki_proot.Prelude.{
  ℕ, Errno, Bool, true, false, not, ◌&&◌, Option, none, some, List, [], ◌∷◌, get_or, ltb, leb, ◌==◌,
  if◌then◌else◌, Result, ok, fail, e_inval, e_2big, e_fbig, e_idrm, e_range,
}
use doki_proot.Sysvipc.{
  ℤ, pos, negsuc, Sembuf, Config, not_waiting, wait_semop, is_wait_semop, wake_tracee,
  next_generation,
}
use doki_proot.Sysvipc.Semaphore.{
  Semaphore, sem_check, check_status, at, put, set, lookup_semaphore, max_nsops, max_semval,
}

-- A tracee that makes a call, the other tracees, in their order, and the semaphores.
pub record State : Type 0 where
  pub semaphores : List Semaphore
  pub config : Config
  pub others : List Config

unfoldable pub waits_on : ℕ → Config → Bool
unfolding is_wait_semop
waits_on semaphore_index config =
    is_wait_semop config.wait_reason && config.waiting_object_index == semaphore_index

unfoldable pub cons_config :
    Config → Option (List Config × Semaphore) → Option (List Config × Semaphore)
cons_config c none = none
cons_config c (some (rest, semaphore)) = some (c ∷ rest, semaphore)

-- The pass of `sysvipc_semop` over the other tracees.
unfoldable pub wake_pass : ℕ → List Config → Semaphore → Option (List Config × Semaphore)
unfolding waits_on cons_config sem_check check_status wake_tracee
wake_pass semaphore_index [] semaphore = some ([], semaphore)
wake_pass semaphore_index (c ∷ rest) semaphore =
    let (found, semaphore') = sem_check c semaphore in
    if not (waits_on semaphore_index c)
    then cons_config c (wake_pass semaphore_index rest semaphore)
    else elim (check_status found) [
      | none ↦ cons_config c (wake_pass semaphore_index rest semaphore')
      | some status ↦ elim (wake_tracee (record c { semop_sops = [] }) status) [
        | none ↦ none
        | some woken ↦ cons_config woken (wake_pass semaphore_index rest semaphore')
      ]
    ]

-- The result for the calling tracee, which waits if there is none.
unfoldable pub settle : Option (Result ℕ) → Config → Result ℕ × Config
settle none config = (ok 0, config)
settle (some status) config = (status, record config { semop_sops = []; wait_reason = not_waiting })

unfoldable pub do_semop : State → ℕ → Semaphore → List Sembuf → Option (Result ℕ × State)
unfolding sem_check wake_pass settle check_status put
do_semop state semaphore_index semaphore sops =
    let config = record state.config {
      wait_reason = wait_semop;
      waiting_object_index = semaphore_index;
      semop_sops = sops;
    } in
    let (found, semaphore') = sem_check config semaphore in
    elim (wake_pass semaphore_index state.others semaphore') [
      | none ↦ none
      | some (others, semaphore'') ↦
          let (status, config') = settle (check_status found) config in
          some (
            status,
            record {
              semaphores = put state.semaphores semaphore_index semaphore'';
              config = config';
              others = others;
            },
          )
    ]

unfoldable pub are_in_set : ℕ → List Sembuf → Bool
are_in_set nsems [] = true
are_in_set nsems (s ∷ sops) =
    let rest = are_in_set nsems sops in if leb nsems s.sem_num then false else rest

-- The operations that are read from the tracee's memory.
unfoldable pub semop_read : State → ℕ → Semaphore → Result (List Sembuf) → Option (Result ℕ × State)
unfolding do_semop are_in_set
semop_read state semaphore_index semaphore (fail code) = some (fail code, state)
semop_read state semaphore_index semaphore (ok sops) =
    if not (are_in_set semaphore.nsems sops)
    then some (fail e_fbig, state)
    else do_semop state semaphore_index semaphore sops

unfoldable pub semop_at :
    State → ℕ → Option Semaphore → ℕ → Result (List Sembuf) → Option (Result ℕ × State)
unfolding semop_read
semop_at state semaphore_index none nsops read_sops = some (fail e_inval, state)
semop_at state semaphore_index (some semaphore) nsops read_sops =
    if ltb max_nsops nsops
    then some (fail e_2big, state)
    else if nsops == 0
    then some (fail e_inval, state)
    else semop_read state semaphore_index semaphore read_sops

-- sysvipc_semop, where `read_sops` is what `read_data` answers.
unfoldable pub semop : State → ℕ → ℕ → Result (List Sembuf) → Option (Result ℕ × State)
unfolding semop_at lookup_semaphore at
semop state object_id nsops read_sops = elim (lookup_semaphore state.semaphores object_id) [
  | none ↦ some (fail e_inval, state)
  | some semaphore_index ↦
      semop_at state semaphore_index (at state.semaphores semaphore_index) nsops read_sops
]

unfoldable pub semop_timedout : Config → Config
semop_timedout config = record config { semop_sops = []; wait_reason = not_waiting }

-- Waking every tracee that waits on a semaphore that is removed.
unfoldable pub wake_all : ℕ → List Config → Option (List Config)
unfolding waits_on wake_tracee
wake_all semaphore_index [] = some []
wake_all semaphore_index (c ∷ rest) = elim (wake_all semaphore_index rest) [
  | none ↦ none
  | some rest' ↦
      if not (waits_on semaphore_index c)
      then some (c ∷ rest')
      else elim (wake_tracee c (fail e_idrm)) [ none ↦ none | some woken ↦ some (woken ∷ rest') ]
]

-- The commands that write data out come with the error of `write_data`, if it fails.
pub data Command : Type 0 where
  getval rmid unknown : Command
  setval : ℕ → Command
  getall ipc_info sem_info : Option Errno → Command

-- The status of a command that only writes data out.
unfoldable pub written_out : Option Errno → Result ℕ
written_out none = ok 0
written_out (some code) = fail code

unfoldable pub is_semnum : ℤ → ℕ → Bool
is_semnum (pos n) nsems = ltb n nsems
is_semnum (negsuc n) nsems = false

unfoldable pub semnum_of : ℤ → ℕ
semnum_of (pos n) = n
semnum_of (negsuc n) = 0

unfoldable pub do_semctl : State → ℕ → Semaphore → ℤ → Command → Option (Result ℕ × State)
unfolding is_semnum semnum_of set put wake_all next_generation written_out
do_semctl state index semaphore semnum getval =
    if not (is_semnum semnum semaphore.nsems)
    then some (fail e_inval, state)
    else some (ok (get_or semaphore.sems (semnum_of semnum) 0), state)
do_semctl state index semaphore semnum (setval cmdarg) =
    if ltb max_semval cmdarg
    then some (fail e_range, state)
    else if not (is_semnum semnum semaphore.nsems)
    then some (fail e_inval, state)
    else some (
      ok 0,
      record state {
        semaphores =
            put state.semaphores index
              (record semaphore { sems = set semaphore.sems (semnum_of semnum) cmdarg });
      },
    )
do_semctl state index semaphore semnum rmid = elim (wake_all index state.others) [
  | none ↦ none
  | some others ↦ some (
    ok 0,
    record state {
      others = others;
      semaphores = put state.semaphores index (record semaphore {
        valid = false;
        generation = next_generation semaphore.generation;
        sems = [];
      });
    },
  )
]
do_semctl state index semaphore semnum (getall written) = some (written_out written, state)
do_semctl state index semaphore semnum (ipc_info written) = some (written_out written, state)
do_semctl state index semaphore semnum (sem_info written) = some (written_out written, state)
do_semctl state index semaphore semnum unknown = some (fail e_inval, state)

unfoldable pub semctl : State → ℕ → ℤ → Command → Option (Result ℕ × State)
unfolding do_semctl lookup_semaphore at
semctl state object_id semnum cmd = elim (lookup_semaphore state.semaphores object_id) [
  | none ↦ some (fail e_inval, state)
  | some index ↦ elim (at state.semaphores index) [
    | none ↦ some (fail e_inval, state)
    | some semaphore ↦ do_semctl state index semaphore semnum cmd
  ]
]
