-- ===== src/Sysvipc.antt =====
-- The System V IPC emulation (proot/src/extension/sysvipc): what its parts share. The state of a
-- waiting tracee, `sysvipc_wake_tracee` (sysvipc.c), and the identifiers of the objects
-- (sysvipc_internal.h). All tracees are of one IPC namespace.
pub mod Semaphore
pub mod Message
pub mod Events
use doki_proot.Prelude.{
  ℕ, zero, suc, ◌+◌, ◌-◌, ◌*◌, ◌/◌, ◌%◌, Bool, true, false, not, ◌&&◌, ◌||◌, Option, none, some,
  List, [], ◌∷◌, length, ltb, leb, ◌==◌, if◌then◌else◌, Result,
}

pub data WaitReason : Type 0 where
  not_waiting wait_queue_recv wait_semop wait_shmat_helper_busy : WaitReason

pub data WaitState : Type 0 where
  state_not_waiting restarted_into_ppoll_canceled restarted_into_ppoll : WaitState
  entered_ppoll signaled_ppoll entered_getpid : WaitState

-- The operand of a semaphore operation is signed.
pub data ℤ : Type 0 where
  pos : ℕ → ℤ
  negsuc : ℕ → ℤ

-- struct SysVIpcSembuf
pub record Sembuf : Type 0 where
  pub sem_num : ℕ
  pub sem_op : ℤ
  pub sem_flg : ℕ

-- struct SysVIpcConfig, as far as the modelled operations use it, where `msgrcv_retry` stands for
-- the chain state CSTATE_MSGRCV_RETRY, and whether its tracee was stopped by the SIGSTOP of `sysvipc_wake_tracee`.
pub record Config : Type 0 where
  pub wait_reason : WaitReason
  pub wait_state : WaitState
  pub status_after_wait : Result ℕ
  pub waiting_object_index : ℕ
  pub semop_sops : List Sembuf
  pub sigstop_ignored : Bool
  pub msgrcv_msgsz : ℕ
  pub msgrcv_msgtyp : ℤ
  pub msgrcv_msgflg : ℕ
  pub msgrcv_retry : Bool

unfoldable pub is_waiting : WaitReason → Bool
is_waiting not_waiting = false
is_waiting _ = true

unfoldable pub is_wait_semop : WaitReason → Bool
is_wait_semop wait_semop = true
is_wait_semop _ = false

unfoldable pub wake_state : WaitState → Option WaitState
wake_state entered_ppoll = some signaled_ppoll
wake_state restarted_into_ppoll = some restarted_into_ppoll_canceled
wake_state _ = none

unfoldable pub is_entered_ppoll : WaitState → Bool
is_entered_ppoll entered_ppoll = true
is_entered_ppoll _ = false

-- `none` where one of the assertions fails.
unfoldable pub wake_tracee : Config → Result ℕ → Option Config
unfolding is_waiting wake_state is_entered_ppoll
wake_tracee config status =
    if not (is_waiting config.wait_reason) then none else elim (wake_state config.wait_state) [
      | none ↦ none
      | some state ↦ some (record config {
        wait_reason = not_waiting;
        status_after_wait = status;
        wait_state = state;
        sigstop_ignored = is_entered_ppoll config.wait_state || config.sigstop_ignored;
      })
    ]

-- The end of `sysvipc_syscall_common`, for a handler that has set up no chain of system calls.
unfoldable pub finish_syscall : Bool → Result ℕ → Config → Config
unfolding is_waiting
finish_syscall from_sigsys status config =
    if is_waiting config.wait_reason
    then record config { wait_state = if from_sigsys then restarted_into_ppoll else entered_ppoll }
    else if from_sigsys
    then config
    else record config { status_after_wait = status; wait_state = entered_getpid }

-- A flag of one bit, whose value is `bit`.
unfoldable pub has_flag : ℕ → ℕ → Bool
has_flag flags bit = flags / bit % 2 == 1

abbrev pub ipc_creat : ℕ
ipc_creat = 512

abbrev pub ipc_excl : ℕ
ipc_excl = 1024

abbrev pub ipc_nowait : ℕ
ipc_nowait = 2048

-- A generation counts modulo 2^16, and is read as a signed number.
abbrev pub generations : ℕ
generations = 65536

unfoldable pub next_generation : ℕ → ℕ
next_generation generation = (generation + 1) % generations

-- `(index + 1) | (generation << 12)` as a 32-bit pattern, for `index + 1` below 2^12, which keeps
-- the two apart. A negative generation is extended by its sign.
unfoldable pub ipc_object_id : ℕ → ℕ → ℕ
ipc_object_id index generation =
    index
    + 1
    + (if ltb generation 32768 then generation * 4096 else (generation + 983040) % 1048576 * 4096)

-- LOOKUP_IPC_OBJECT: the index of an identifier, given the generation of the valid objects.
unfoldable pub lookup_ipc_object : ℕ → (ℕ → Option ℕ) → Option ℕ
lookup_ipc_object object_id generation_at =
    let object_index = object_id % 4096 in
    if object_index == 0 then none else elim (generation_at (object_index - 1)) [
      | none ↦ none
      | some generation ↦
          if ltb generation 32768 && generation == object_id / 4096 % 65536
          then some (object_index - 1)
          else none
    ]
