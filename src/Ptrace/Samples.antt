-- ===== src/Ptrace/Samples.antt =====
-- A ptracer that waits for its ptracee, which stops by a signal, as instances of the theorems about
-- proot/src/ptrace.
use doki_proot.Prelude.{
  Bool, ◌||◌, ℕ, ◌/◌, ◌≡◌, refl, true, false, none, some, [], ◌∷◌, ◌==◌, if◌then◌else◌, ok, arith,
}
use doki_proot.Ptrace.{
  modify, Tracee, AsPtracer, Table, Kernel, WaitsIn, Seccomp, Sigstop, no_ptracee, any_pid,
}
use doki_proot.Ptrace.Search.{
  get_stopped_ptracee, expected_wait_clone, is_wanted, get_ptracee, find_zombie, find_ptracee, wall,
}
use doki_proot.Ptrace.Events.{Report, report_of}
use doki_proot.Ptrace.Told.{IsOver, translate_wait_exit-IsOver}
use doki_proot.Ptrace.Wait.{set_ptracer_event, translate_wait_exit, handle_ptracee_event}
use doki_proot.Ptrace.Order.{event-wait_order}
use doki_proot.Ptrace.Order.Arrival.{resumed, with_wait_options}
use doki_proot.Ptrace.Child.{inherit_ptracer}
use doki_proot.Ptrace.Count.Handled.{add_tracee}
use doki_proot.Ptrace.Found.{member}
use doki_proot.Ptrace.Requests.{is_traced}

abbrev no_ptracer : AsPtracer
no_ptracer = record {
  nb_ptracees = 0;
  zombies = [];
  wait_pid = 0;
  wait_options = 0;
  waits_in = WaitsIn.doesnt_wait;
}

abbrev some_tracee : ℕ → Tracee
some_tracee n = record {
  pid = n;
  running = false;
  parent = none;
  clone = false;
  as_ptracer = no_ptracer;
  as_ptracee = no_ptracee;
  in_sysexit = true;
  restart_how = 7;
  last_restart_how = 7;
  seccomp = Seccomp.disabled;
  sigstop = Sigstop.sigstop_allowed;
  sysarg_1 = any_pid;
  sysarg_2 = 4096;
  sysarg_3 = wall;
}

-- Tracee 1 has the ptracee 2.
abbrev two_tracees : ℕ → Tracee
two_tracees a =
    if a == 1
    then record (some_tracee 101) { as_ptracer = record no_ptracer { nb_ptracees = 1 } }
    else if a == 2
    then record (some_tracee 102) {
      as_ptracee = record no_ptracee { ptracer = some 1; tracing_started = true };
    }
    else some_tracee 0

abbrev two : Table
two = record { tracee = two_tracees; tracees = 2 ∷ 1 ∷ []; effects = [] }

abbrev willing : Kernel
willing = record {
  restarts = λ a. true;
  kills = λ pid. true;
  kills_ptracee = λ a. true;
  write_error = λ a address. none;
  seccomp_after_enter_sigtrap = false;
}

-- PRoot passes on the signal.
abbrev as_is : Table → ℕ → ℕ → Table × ℕ
as_is t a event = (t, event / 256)

-- The status of a stop by SIGINT.
abbrev sigint : ℕ
sigint = 639

abbrev sigint_report : Report
sigint_report = record {
  event = sigint;
  tracing_started = true;
  keep_stopped = true;
  handled_by_proot_first = false;
  may_suppress = false;
}

reported : report_of (two_tracees 2).as_ptracee true sigint ≡ some sigint_report
unfolding report_of
reported = refl

nothing_yet : get_stopped_ptracee two 1 any_pid true wall ≡ none
unfolding get_stopped_ptracee get_ptracee find_zombie find_ptracee is_wanted expected_wait_clone
nothing_yet = refl

expected : expected_wait_clone wall false ≡ true
unfolding expected_wait_clone
expected = refl

wanted : is_wanted any_pid 102 ≡ true
unfolding is_wanted
wanted = refl

event-wait_order_example :
    ((translate_wait_exit willing two 1).1 ≡ ok 0)
    × ((handle_ptracee_event willing as_is (translate_wait_exit willing two 1).0 1 2 sigint).0
        ≡ with_wait_options
            (resumed willing 1
              (translate_wait_exit willing (handle_ptracee_event willing as_is two 1 2 sigint).0 1))
            1
            wall)
event-wait_order_example =
    event-wait_order willing as_is two 1 2 sigint sigint_report (omega arith) reported refl refl
      refl (omega arith) (omega arith) refl nothing_yet refl
      (
        λ e. refl,
        (λ e. absurd (omega (arith, e))),
        ((λ e. absurd (omega (arith, e))), (λ e. absurd (omega (arith, e))), tt),
      )
      (rw (wanted, expected) refl)

-- At each event, PRoot finds a new child of the tracee, as tracee 3, if there is none yet.
abbrev is_used : Table → Bool
is_used t = member 3 t.tracees || (is_traced (t.tracee 3) || (t.tracee 3).as_ptracee.is_zombie)

abbrev forks : Table → ℕ → ℕ → Table × ℕ
forks t a event = (if is_used t then t else inherit_ptracer (add_tracee t 3) a 3 17, event / 256)

-- The event comes, is waited for, and the ptracee goes on without its ptracer.
abbrev stopped_once : Table
stopped_once = (handle_ptracee_event willing forks two 1 2 sigint).0

abbrev told_once : Table
told_once = (translate_wait_exit willing stopped_once 1).0

-- The signal stop of tracee 2 stands there for its ptracer.
abbrev two_pending : Table
two_pending = modify two 2 (set_ptracer_event sigint true)

translate_wait_exit-IsOver_example :
    IsOver two_pending 1 any_pid wall (translate_wait_exit willing two_pending 1)
translate_wait_exit-IsOver_example =
    translate_wait_exit-IsOver willing two_pending 1 2 refl refl (rw (wanted, expected) refl) refl
      (
        λ e. refl,
        (λ e. absurd (omega (arith, e))),
        ((λ e. absurd (omega (arith, e))), (λ e. absurd (omega (arith, e))), tt),
      )
      refl
