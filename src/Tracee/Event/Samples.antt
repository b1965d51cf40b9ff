-- ===== src/Tracee/Event/Samples.antt =====
-- The loop on concrete stops.
use doki_proot.Prelude.{Bool, true, false, some, [], ◌≡◌, refl}
use doki_proot.Ptrace.{enabled, sigstop_allowed}
use doki_proot.Ptrace.Events.{syscall_stop, event_stop, is_exited, is_signaled, is_stopped}
use doki_proot.Syscall.Chain.{Args, Regs}
use doki_proot.Tracee.Event.{
  Tracer, Traced, Asks, RestartHow, ptrace_cont, ptrace_syscall, is_unset, is_cont, is_syscall,
  is_enabled, is_disabling, translate_syscall, translate_enter, translate_exit, exit_call,
  end_seccomp, is_some, push_specific_regs, set_stage, enter_call, apply_handler, register_all,
}
use doki_proot.Tracee.Event.Answers.{
  default_restart, check_order, detect, restart_traced, with_tracer, expect_stage, mark_void,
  redeliver, is_redelivered, finish_disabling,
}
use doki_proot.Tracee.Event.Accelerate.{is_exit_wanted, restart_of, Reaches-restart}
use doki_proot.Tracee.Event.Born.{new_child-order}
use doki_proot.Tracee.Event.Child.{new_tracee, stop_first, event_first}
use doki_proot.Tracee.Event.Handle.{
  handle_tracee_event, handle_stop, handle_seccomp_stop, after_detection, handle_syscall_stop,
  pass_stage, translate_stage,
}
use doki_proot.Tracee.Event.Kernel.{
  in_user, after_entry, in_call, entry, filter_after, exit, run_stop, stop_status, is_ready,
}
use doki_proot.Tracee.Event.Reach.{Reaches, first, stops, Reaches-is_ready}

abbrev no_args : Args
no_args = record {
  sysarg_1 = 0;
  sysarg_2 = 0;
  sysarg_3 = 0;
  sysarg_4 = 0;
  sysarg_5 = 0;
  sysarg_6 = 0;
}

abbrev no_regs : Regs
no_regs = record {
  args = no_args;
  systrap_num = 0;
  sysarg_result = 0;
  instr_pointer = 100;
  restore_original_regs = false;
  restart_at_exit = false;
}

abbrev first_tracer : Tracer
first_tracer = record {
  seccomp_detected = false;
  seccomp_after_ptrace_enter = false;
  seccomp_after_ptrace_enter_checked = true;
  deliver_sigtrap = true;
}

abbrev first_tracee : Traced
first_tracee = record (new_tracee no_regs) {
  has_exe = true;
  running = true;
  last_restart_how = ptrace_syscall;
}

abbrev no_asks : Asks
no_asks = record {
  takes_seccomp_option = true;
  takes_options = true;
  filter_flags = some 1;
  is_seccomp_signal = false;
  is_avoider = false;
  fails = false;
  voids = false;
  wants_sysexit = false;
  wants_syscall = false;
  ends_seccomp = false;
  starts_wait = false;
  chained = [];
  restarts_syscall = false;
  seccomp_signal = 0;
}

first_reached : (is_new : Bool) → Reaches (λ n. n) 2 is_new false in_user first_tracer first_tracee
first_reached is_new = first first_tracer first_tracee (record {
  deliver = refl;
  undetected = refl;
  exe = refl;
  waiting = refl;
  unaccelerated = refl;
  outside = refl;
  unhandled = refl;
  unset = refl;
  last = refl;
})

abbrev entered_tracee : Traced
entered_tracee = record first_tracee { in_sysexit = true }

entered_runs :
    run_stop (λ n. n) 2 false first_tracer no_asks (stop_status syscall_stop) first_tracee
    ≡ some (first_tracer, (entered_tracee, true))
unfolding run_stop handle_tracee_event default_restart check_order handle_stop with_tracer
    handle_syscall_stop expect_stage pass_stage translate_stage mark_void redeliver is_redelivered
    finish_disabling restart_traced translate_syscall translate_enter push_specific_regs set_stage
    enter_call apply_handler register_all is_some is_unset is_cont is_enabled is_disabling is_exited
    is_signaled is_stopped
entered_runs = refl

entered_reached : Reaches (λ n. n) 2 true false after_entry first_tracer entered_tracee
unfolding is_syscall
entered_reached =
    stops in_user after_entry first_tracer first_tracer first_tracee entered_tracee no_asks
      syscall_stop (first_reached true) (entry refl refl) entered_runs

Reaches-is_ready_example :
    is_ready true first_tracer ptrace_syscall after_entry entered_tracee ≡ true
Reaches-is_ready_example =
    Reaches-is_ready (λ n. n) 2 true false after_entry first_tracer entered_tracee entered_reached

new_child-order_example :
    (s' : Tracer) × (child : Traced) × (how : RestartHow) × (stop_first
        (λ n. n)
        2
        false
        first_tracer
        no_asks
        entered_tracee
        no_regs
      ≡ some (s', child))
    × (event_first (λ n. n) 2 false first_tracer no_asks entered_tracee no_regs
        ≡ some (s', record child { last_restart_how = how }))
    × (child.sigstop ≡ sigstop_allowed)
    × (child.running ≡ true)
    × (is_ready true s' child.last_restart_how in_user child ≡ true)
    × (is_ready true s' how in_user (record child { last_restart_how = how }) ≡ true)
new_child-order_example =
    new_child-order (λ n. n) 2 true false after_entry first_tracer entered_tracee entered_reached
      no_asks no_regs

abbrev detected_tracer : Tracer
detected_tracer = record first_tracer { seccomp_detected = true; seccomp_after_ptrace_enter = true }

abbrev filtered_tracee : Traced
filtered_tracee = record entered_tracee { seccomp = enabled }

filtered_runs :
    run_stop (λ n. n) 2 false first_tracer no_asks (stop_status (event_stop 7)) entered_tracee
    ≡ some (detected_tracer, (filtered_tracee, true))
unfolding run_stop handle_tracee_event default_restart check_order handle_stop handle_seccomp_stop
    detect after_detection restart_traced is_some is_unset is_cont is_enabled is_disabling is_exited
    is_signaled is_stopped
filtered_runs = refl

abbrev accelerated_tracee : Traced
accelerated_tracee = record filtered_tracee {
  in_sysexit = false;
  last_restart_how = ptrace_cont;
  regs = record no_regs { restore_original_regs = true };
}

accelerated_runs :
    run_stop (λ n. n) 2 false detected_tracer no_asks (stop_status syscall_stop) filtered_tracee
    ≡ some (detected_tracer, (accelerated_tracee, true))
unfolding run_stop handle_tracee_event default_restart check_order handle_stop with_tracer
    handle_syscall_stop expect_stage pass_stage translate_stage mark_void redeliver is_redelivered
    finish_disabling restart_traced translate_syscall translate_exit exit_call end_seccomp
    push_specific_regs set_stage apply_handler register_all is_some is_unset is_cont is_enabled
    is_disabling is_exited is_signaled is_stopped
accelerated_runs = refl

accelerated_reached : Reaches (λ n. n) 2 true false in_user detected_tracer accelerated_tracee
unfolding is_syscall
accelerated_reached =
    stops in_call in_user detected_tracer detected_tracer filtered_tracee accelerated_tracee no_asks
      syscall_stop
      (stops after_entry in_call first_tracer detected_tracer entered_tracee filtered_tracee no_asks
        (event_stop 7) entered_reached (filter_after refl) filtered_runs)
      (exit refl refl) accelerated_runs

Reaches-restart_example :
    (s' : Tracer) × (t' : Traced) × (run_stop
        (λ n. n)
        2
        false
        detected_tracer
        no_asks
        (stop_status (event_stop 7))
        accelerated_tracee
      ≡ some (s', (t', true)))
    × (t'.last_restart_how ≡ restart_of (is_exit_wanted 1 no_asks accelerated_tracee))
unfolding is_cont
Reaches-restart_example =
    Reaches-restart (λ n. n) 2 false detected_tracer accelerated_tracee no_asks 1
      accelerated_reached refl refl
