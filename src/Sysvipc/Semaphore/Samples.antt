-- ===== src/Sysvipc/Semaphore/Samples.antt =====
-- Tests of the semaphores of proot/src/extension/sysvipc/sysvipc_sem.c, and the witnesses of the
-- theorems about them: a set of two values, and two tracees that wait for it.
use doki_proot.Prelude.{◌≡◌, refl, true, false, some, List, [], ◌∷◌, arith, ok}
use doki_proot.Sysvipc.{
  pos, negsuc, Sembuf, Config, wait_semop, not_waiting, state_not_waiting, entered_ppoll,
  signaled_ppoll, wake_tracee, lookup_ipc_object, wake_state, ipc_object_id,
}
use doki_proot.Sysvipc.Semaphore.{Semaphore, granted, sem_check_loop, semget, sem_check, at}
use doki_proot.Sysvipc.Semaphore.Effect.{
  IsEffect, IsBounded, sem_check_loop-IsEffect, sem_check_loop-IsBounded,
}
use doki_proot.Sysvipc.Semaphore.Operations.{State, semop, semctl, rmid}
use doki_proot.Sysvipc.Semaphore.Waiters.{valid_size}
use doki_proot.Sysvipc.Semaphore.Safety.{IsSafe, semop-IsSafe}
use doki_proot.Sysvipc.Semaphore.Invariant.{IsWellFormed}
use doki_proot.Sysvipc.Semaphore.Removal.{IsSafeCall, semctl-IsSafeCall}
use doki_proot.Sysvipc.Semaphore.Identity.{IsOpen, semget-IsOpen}

abbrev down_0 : Sembuf
down_0 = record { sem_num = 0; sem_op = negsuc 0; sem_flg = 0 }

abbrev up_0 : Sembuf
up_0 = record { sem_num = 0; sem_op = pos 1; sem_flg = 0 }

abbrev down_1 : Sembuf
down_1 = record { sem_num = 1; sem_op = negsuc 0; sem_flg = 0 }

abbrev up_1 : Sembuf
up_1 = record { sem_num = 1; sem_op = pos 1; sem_flg = 0 }

abbrev two_values : Semaphore
two_values = record { key = 7; generation = 3; valid = true; sems = 0 ∷ 0 ∷ []; nsems = 2 }

abbrev running : Config
running = record {
  wait_reason = not_waiting;
  wait_state = state_not_waiting;
  status_after_wait = ok 0;
  waiting_object_index = 0;
  semop_sops = [];
  sigstop_ignored = false;
  msgrcv_msgsz = 0;
  msgrcv_msgtyp = pos 0;
  msgrcv_msgflg = 0;
  msgrcv_retry = false;
}

abbrev waiting_for : List Sembuf → Config
waiting_for sops = record running {
  wait_reason = wait_semop;
  wait_state = entered_ppoll;
  semop_sops = sops;
}

-- The first tracee waits for the value 0, the second one for the value 1, upon which it raises the
-- value 0.
abbrev waiting : State
waiting = record {
  semaphores = two_values ∷ [];
  config = running;
  others = waiting_for (down_0 ∷ []) ∷ waiting_for (down_1 ∷ up_0 ∷ []) ∷ [];
}

abbrev after_up : State
after_up = record {
  semaphores = record two_values { sems = 1 ∷ 0 ∷ [] } ∷ [];
  config = record running { waiting_object_index = 0 };
  others =
      waiting_for (down_0 ∷ [])
      ∷ record running { wait_state = signaled_ppoll; sigstop_ignored = true }
      ∷ [];
}

-- The single pass wakes the second tracee, and leaves the first one waiting, although the value 0
-- now suffices for it.
one_pass : semop waiting 12289 1 (ok (up_1 ∷ [])) ≡ some (ok 0, after_up)
unfolding semop lookup_ipc_object sem_check wake_tracee
one_pass = refl

first_is_ready : sem_check_loop (down_0 ∷ []) (1 ∷ 0 ∷ []) ≡ granted (0 ∷ 0 ∷ [])
unfolding sem_check_loop
first_is_ready = refl

waiting-IsWellFormed : IsWellFormed waiting.semaphores waiting.others
unfolding valid_size at wake_state
waiting-IsWellFormed = record {
  sized = ((λ _. refl), tt);
  fit = (
    (λ _. ((signaled_ppoll, refl), (2, refl, (omega arith, tt)))),
    ((λ _. ((signaled_ppoll, refl), (2, refl, (omega arith, (omega arith, tt))))), tt),
  );
}

semop-IsSafe_example : IsSafe true (semop waiting 12289 1 (ok (up_1 ∷ [])))
semop-IsSafe_example = semop-IsSafe true waiting 12289 1 (ok (up_1 ∷ [])) waiting-IsWellFormed refl

moved : sem_check_loop (up_1 ∷ down_1 ∷ up_0 ∷ []) (4 ∷ 0 ∷ []) ≡ granted (5 ∷ 0 ∷ [])
unfolding sem_check_loop
moved = refl

sem_check_loop-IsEffect_example : IsEffect (up_1 ∷ down_1 ∷ up_0 ∷ []) (4 ∷ 0 ∷ []) (5 ∷ 0 ∷ [])
sem_check_loop-IsEffect_example =
    sem_check_loop-IsEffect (up_1 ∷ down_1 ∷ up_0 ∷ []) (4 ∷ 0 ∷ []) (5 ∷ 0 ∷ [])
      (omega arith, (omega arith, (omega arith, tt))) moved

sem_check_loop-IsBounded_example : IsBounded (5 ∷ 0 ∷ [])
sem_check_loop-IsBounded_example =
    sem_check_loop-IsBounded (up_1 ∷ down_1 ∷ up_0 ∷ []) (4 ∷ 0 ∷ []) (5 ∷ 0 ∷ [])
      (omega arith, (omega arith, tt)) moved

opened : semget (two_values ∷ []) 7 (pos 2) 0 ≡ ok (12289, two_values ∷ [])
unfolding semget ipc_object_id
opened = refl

semget-IsOpen_example : IsOpen 7 2 (12289, two_values ∷ [])
semget-IsOpen_example =
    semget-IsOpen (two_values ∷ []) 7 2 0 (12289, two_values ∷ []) (omega arith) (omega arith, tt)
      opened

semctl-IsSafeCall_example : IsSafeCall (semctl waiting 12289 (pos 0) rmid)
semctl-IsSafeCall_example = semctl-IsSafeCall waiting 12289 (pos 0) rmid waiting-IsWellFormed
