-- ===== src/Sysvipc/Message/Receive.antt =====
-- Receiving messages, of proot/src/extension/sysvipc/sysvipc_msg.c.
use doki_proot.Prelude.{
  ℕ, ◌-◌, ◌%◌, ◌/◌, Bool, true, false, not, ◌&&◌, ◌||◌, none, some, List, ◌++◌, length, ltb, leb,
  ◌==◌, if◌then◌else◌, Result, ok, fail, e_inval, e_2big, e_nomsg, e_again, e_intr,
}
use doki_proot.Sysvipc.{ℤ, Config, not_waiting, is_waiting, wait_queue_recv, has_flag, ipc_nowait}
use doki_proot.Sysvipc.Message.{
  Item, Queue, Environment, find_message, msg_copy, msg_except, msg_noerror,
}

-- The length that is delivered, and the queue.
unfoldable pub msg_deliver : Environment → Config → Queue → Item → Result ℕ × Queue
unfolding has_flag
msg_deliver env config queue msg =
    let msgsz =
      if ltb config.msgrcv_msgsz (length msg.mtext)
      then config.msgrcv_msgsz
      else length msg.mtext in
    if ltb config.msgrcv_msgsz (length msg.mtext) && not (has_flag config.msgrcv_msgflg msg_noerror)
    then (fail e_2big, queue)
    else elim (env.write_data msg msgsz) [
      | some code ↦ (fail code, queue)
      | none ↦ (ok msgsz, record queue { msg_lrpid = env.pid; msg_rtime = env.current_time })
    ]

unfoldable pub has_unknown_flags : ℕ → Bool
has_unknown_flags flags = not (flags % 2048 == 0) || not (flags / 32768 == 0)

unfoldable pub is_refused : Config → Bool
unfolding has_unknown_flags has_flag
is_refused config =
    let flags = config.msgrcv_msgflg in
    leb 2147483648 (config.msgrcv_msgsz % 4294967296)
    || has_unknown_flags flags
    || (has_flag flags msg_copy && (not (has_flag flags ipc_nowait) || has_flag flags msg_except))

-- The removal of a message that has been delivered.
unfoldable pub remove_item :
    Bool → Result ℕ × Queue → List Item → Item → List Item → Result ℕ × Queue
remove_item copy (fail code, queue) before found after = (fail code, queue)
remove_item copy (ok msgsz, queue) before found after = if copy then (ok msgsz, queue) else (
  ok msgsz,
  record queue {
    msg_qnum = queue.msg_qnum - 1;
    msg_cbytes = queue.msg_cbytes - length found.mtext;
    items = before ++ after;
  },
)

-- The receiver when no message is found: it waits, unless it does not want to.
unfoldable pub or_wait : ℕ → Config → Result ℕ × Config
unfolding has_flag
or_wait queue_index config =
    if has_flag config.msgrcv_msgflg ipc_nowait
    then (fail e_nomsg, config)
    else (ok 0, record config { wait_reason = wait_queue_recv; waiting_object_index = queue_index })

unfoldable pub do_msgrcv : Environment → Config → ℕ → Queue → Result ℕ × Config × Queue
unfolding is_refused find_message msg_deliver remove_item or_wait has_flag
do_msgrcv env config queue_index queue =
    if is_refused config
    then (fail e_inval, config, queue)
    else elim (find_message config queue.items) [
      | none ↦ let (status, config') = or_wait queue_index config in (status, config', queue)
      | some (before, found, after) ↦
          let (status, queue') =
            remove_item (has_flag config.msgrcv_msgflg msg_copy)
              (msg_deliver env config queue found) before found after in
          (status, config, queue')
    ]

-- sysvipc_msgrcv behind the lookup of the queue.
unfoldable pub msgrcv : Environment → Config → ℕ → Queue → ℕ → ℤ → ℕ → Result ℕ × Config × Queue
unfolding do_msgrcv
msgrcv env config queue_index queue msgsz msgtyp msgflg =
    do_msgrcv env
      (record config { msgrcv_msgsz = msgsz; msgrcv_msgtyp = msgtyp; msgrcv_msgflg = msgflg })
      queue_index queue

unfoldable pub is_again : Result ℕ → Bool
is_again (fail e_again) = true
is_again _ = false

-- A retry that would wait again is interrupted instead.
unfoldable pub interrupt : Result ℕ × Config × Queue → Result ℕ × Config × Queue
unfolding is_waiting
interrupt (status, config, queue) =
    if is_waiting config.wait_reason
    then (fail e_intr, record config { wait_reason = not_waiting; msgrcv_retry = false }, queue)
    else (status, record config { msgrcv_retry = false }, queue)

-- sysvipc_msgrcv_retry, on the queue at the index that the receiver has waited for.
unfoldable pub msgrcv_retry : Environment → Config → Queue → Result ℕ × Config × Queue
unfolding do_msgrcv is_again interrupt
msgrcv_retry env config queue =
    if is_again config.status_after_wait
    then interrupt (do_msgrcv env config config.waiting_object_index queue)
    else (config.status_after_wait, record config { msgrcv_retry = false }, queue)
