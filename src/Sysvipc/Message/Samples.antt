-- ===== src/Sysvipc/Message/Samples.antt =====
-- Tests of the message queues of proot/src/extension/sysvipc/sysvipc_msg.c, and the witnesses of
-- the theorems about them: a queue with a message of type 5, one of type 2 and one of type 1.
use doki_proot.Prelude.{◌≡◌, refl, false, none, [], ◌∷◌, codes, ok}
use doki_proot.Sysvipc.{pos, negsuc, Config, not_waiting, state_not_waiting}
use doki_proot.Sysvipc.Message.{Item, Queue, Environment, to_int}
use doki_proot.Sysvipc.Message.Receive.{do_msgrcv}
use doki_proot.Sysvipc.Message.Send.{msgsnd}
use doki_proot.Sysvipc.Message.Counts.{
  IsCounted, CountsIn, total, do_msgrcv-IsCounted, msgsnd-IsCounted,
}

abbrev five : Item
five = record { mtype = 5; mtext = codes "five" }

abbrev two : Item
two = record { mtype = 2; mtext = codes "two" }

abbrev one : Item
one = record { mtype = 1; mtext = codes "one" }

abbrev three_items : Queue
three_items = record {
  items = five ∷ two ∷ one ∷ [];
  msg_qnum = 3;
  msg_cbytes = 10;
  msg_lspid = 0;
  msg_lrpid = 0;
  msg_stime = 0;
  msg_rtime = 0;
}

abbrev env : Environment
env = record { pid = 100; current_time = 7; write_data = λ item n. none }

-- A receiver of the types up to 2.
abbrev up_to_two : Config
up_to_two = record {
  wait_reason = not_waiting;
  wait_state = state_not_waiting;
  status_after_wait = ok 0;
  waiting_object_index = 0;
  semop_sops = [];
  sigstop_ignored = false;
  msgrcv_msgsz = 100;
  msgrcv_msgtyp = negsuc 1;
  msgrcv_msgflg = 0;
  msgrcv_retry = false;
}

-- The first message of a type up to 2 is taken, although one of the lower type 1 follows.
takes_two : do_msgrcv env up_to_two 0 three_items ≡ (
  ok 3,
  up_to_two,
  record three_items {
    items = five ∷ one ∷ [];
    msg_qnum = 2;
    msg_cbytes = 7;
    msg_lrpid = 100;
    msg_rtime = 7;
  },
)
unfolding do_msgrcv to_int
takes_two = refl

three_items-IsCounted : IsCounted three_items
unfolding total
three_items-IsCounted = (refl, refl)

do_msgrcv-IsCounted_example : IsCounted (do_msgrcv env up_to_two 0 three_items).2
do_msgrcv-IsCounted_example = do_msgrcv-IsCounted env up_to_two 0 three_items three_items-IsCounted

msgsnd-IsCounted_example :
    CountsIn (msgsnd env 0 three_items (up_to_two ∷ []) 3 (ok (pos 4)) (ok (codes "new")))
msgsnd-IsCounted_example =
    msgsnd-IsCounted env 0 three_items (up_to_two ∷ []) 3 (ok (pos 4)) (ok (codes "new"))
      three_items-IsCounted
