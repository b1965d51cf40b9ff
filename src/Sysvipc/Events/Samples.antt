-- ===== src/Sysvipc/Events/Samples.antt =====
-- A tracee of proot/src/extension/sysvipc that waits in semop and is woken there.
use doki_proot.Prelude.{false, true, none, [], ok}
use doki_proot.Sysvipc.{
  Config, pos, state_not_waiting, entered_ppoll, signaled_ppoll, not_waiting, wait_semop,
}
use doki_proot.Sysvipc.Events.{Handled, Outcome, as_is, ppoll}

abbrev resting : Config
resting = record {
  wait_reason = not_waiting;
  wait_state = state_not_waiting;
  status_after_wait = ok 0;
  waiting_object_index = 0;
  semop_sops = [];
  sigstop_ignored = false;
  msgrcv_msgsz = 0;
  msgrcv_msgtyp = pos 0;
  msgrcv_msgflg = 0;
  msgrcv_retry = false;
}

abbrev asleep : Config
asleep = record resting { wait_reason = wait_semop }

abbrev unused : Handled
unused = (ok 0, resting)

abbrev in_ppoll : Outcome
in_ppoll = record {
  config = record asleep { wait_state = entered_ppoll };
  sysnum = ppoll;
  result = none;
  returned = ok 1;
}

abbrev signaled : Outcome
signaled = record {
  config = record resting {
    wait_state = signaled_ppoll;
    status_after_wait = ok 5;
    sigstop_ignored = true;
  };
  sysnum = as_is;
  result = none;
  returned = ok 0;
}
