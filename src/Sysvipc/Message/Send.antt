-- ===== src/Sysvipc/Message/Send.antt =====
-- Sending messages, of proot/src/extension/sysvipc/sysvipc_msg.c.
use doki_proot.Prelude.{
  ℕ, ◌+◌, Bool, true, false, ◌&&◌, ◌||◌, Option, none, some, List, [], ◌∷◌, ◌++◌, Bytes, length,
  ltb, ◌==◌, if◌then◌else◌, Result, ok, fail, e_inval, e_again,
}
use doki_proot.Sysvipc.{ℤ, pos, negsuc, Config, WaitReason, wait_queue_recv, wake_tracee}
use doki_proot.Sysvipc.Message.{Item, Queue, Environment, msg_match, to_int, max_msg_size}

-- The end of msgsnd: the statistics, and the item at the tail.
unfoldable pub enqueue : Environment → Queue → Item → Queue
enqueue env queue item = record queue {
  msg_lspid = env.pid;
  msg_stime = env.current_time;
  items = queue.items ++ item ∷ [];
  msg_qnum = queue.msg_qnum + 1;
  msg_cbytes = queue.msg_cbytes + length item.mtext;
}

unfoldable pub is_wait_queue_recv : WaitReason → Bool
is_wait_queue_recv wait_queue_recv = true
is_wait_queue_recv _ = false

-- The first receiver that waits for the item is woken, to try again.
unfoldable pub wake_receiver : ℕ → Item → List Config → Option (List Config)
unfolding is_wait_queue_recv msg_match to_int wake_tracee
wake_receiver queue_index item [] = some []
wake_receiver queue_index item (c ∷ rest) =
    let later = wake_receiver queue_index item rest in
    if is_wait_queue_recv c.wait_reason
      && c.waiting_object_index == queue_index
      && msg_match (to_int item.mtype) c.msgrcv_msgtyp c.msgrcv_msgflg
    then elim (wake_tracee (record c { msgrcv_retry = true }) (fail e_again)) [
      | none ↦ none
      | some woken ↦ some (woken ∷ rest)
    ]
    else elim later [ none ↦ none | some rest' ↦ some (c ∷ rest') ]

-- sysvipc_msgsnd behind the lookup of the queue: `read_type` and `read_text` are what `read_data`
-- answers for the type (a signed number) and for the text.
unfoldable pub msgsnd :
    Environment
    → ℕ
    → Queue
    → List Config
    → ℕ
    → Result ℤ
    → Result Bytes
    → Option (Result ℕ × Queue × List Config)
unfolding enqueue wake_receiver
msgsnd env queue_index queue tracees msgsz (fail code) read_text =
    if ltb max_msg_size msgsz
    then some (fail e_inval, queue, tracees)
    else some (fail code, queue, tracees)
msgsnd env queue_index queue tracees msgsz (ok (negsuc n)) read_text =
    some (fail e_inval, queue, tracees)
msgsnd env queue_index queue tracees msgsz (ok (pos mtype)) (fail code) =
    if ltb max_msg_size msgsz || ltb mtype 1
    then some (fail e_inval, queue, tracees)
    else some (fail code, queue, tracees)
msgsnd env queue_index queue tracees msgsz (ok (pos mtype)) (ok mtext) =
    let item : Item = record { mtype = mtype; mtext = mtext } in
    if ltb max_msg_size msgsz || ltb mtype 1
    then some (fail e_inval, queue, tracees)
    else elim (wake_receiver queue_index item tracees) [
      | none ↦ none
      | some tracees' ↦ some (ok 0, enqueue env queue item, tracees')
    ]
