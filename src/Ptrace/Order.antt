-- ===== src/Ptrace/Order.antt =====
-- The two orders of a wait and the event that it is for, of proot/src/ptrace/wait.c.
pub mod Commute
pub mod Arrival
pub mod Search
use doki_proot.Prelude.{
  ℕ, ◌≡◌, refl, ◌≢◌, Bool, true, false, not, ◌&&◌, ◌||◌, Option, none, some, List, [], ◌∷◌, ◌==◌,
  sym, ◌∙◌, ap, subst, if◌then◌else◌, arith, ==_iff, ==_refl, inl, inr, Option-cases, Bool-cases,
  Result, ok, fail,
}
use doki_proot.Ptrace.{
  Tracee, Table, Kernel, Effect, WaitsIn, update, modify, add_effect, any_pid, has_flag,
  restart_tracee,
}
use doki_proot.Ptrace.Search.{
  get_stopped_ptracee, get_ptracee, find_zombie, find_ptracee, is_wanted,
}
use doki_proot.Ptrace.Events.{Report, report_of}
use doki_proot.Ptrace.Wait.{
  set_waits_in, set_wait, set_wait_pid, set_proot_event, set_started, set_ptracer_event, sigchld,
  waits_for, wake_ptracer, pass_event, report_event, poke_status, update_wait_status,
  translate_wait_exit, answer_wait, handle_ptracee_event,
}
use doki_proot.Ptrace.Found.{
  member, HasPid, matches, for_event, find_ptracee-update, find_ptracee-same, find_zombie-same,
  HasPid-same, or_else-none, IsSameFor,
}
use doki_proot.Ptrace.Order.Commute.{
  Table-ext, noted, modify_comm, modify-other, modify_self, update-noted,
}
use doki_proot.Ptrace.Order.Arrival.{
  arrive, posted, quiet, arrival, handle-plain, resumed, with_wait_options, posted-noted,
  quiet-posted, wake-noted, arrival-waits, arrival-quiet,
}
use doki_proot.Ptrace.Order.Search.{
  wait-blocks, wait-finds, quiet_same, quiet-none, posted-found, wait_search,
}

waits-set_wait :
    (x y : Tracee) (ptracer pid options : ℕ)
    → matches ptracer pid options y ≡ true
    → waits_for (set_wait pid options x) y ≡ true
unfolding waits_for is_wanted
waits-set_wait x y ptracer pid options m = ground (arith, m)

waits-idle : (x y : Tracee) → x.as_ptracer.wait_pid ≡ 0 → y.pid ≢ 0 → waits_for x y ≡ false
unfolding waits_for
waits-idle x y idle pid = ground arith

module _ (k : Kernel) (handle : Table → ℕ → ℕ → Table × ℕ) (ptracer ptracee event : ℕ) (r : Report)
    (apart : ptracee ≢ ptracer) (started : r.tracing_started ≡ true)
    (plain : r.handled_by_proot_first ≡ false) where
  -- The event comes after the wait.
  wait_first :
      (q : Table) (pid options : ℕ)
      → report_of (q.tracee ptracee).as_ptracee (q.tracee ptracee).in_sysexit event ≡ some r
      → matches ptracer pid options (q.tracee ptracee) ≡ true
      → (handle_ptracee_event k handle (noted q ptracer pid options) ptracer ptracee event).0
        ≡ with_wait_options
            (resumed k ptracer
              (update_wait_status k (posted q ptracer ptracee event r) ptracer ptracee))
            ptracer
            options
  wait_first q pid options e m =
      let n = noted q ptracer pid options in
      let u = posted q ptracer ptracee event r in
      let same = modify-other q ptracee ptracer (set_wait pid options) apart in
      let come : u.tracee ptracee ≡ arrive event r (q.tracee ptracee) =
        modify_self q ptracee (arrive event r) in
      ap (λ v. v.0)
        (handle-plain k handle ptracer ptracee event r apart n
          (ap (λ x. report_of x.as_ptracee x.in_sysexit event) same ∙ e) started plain)
      ∙ ap (λ v. (arrival k handle ptracer ptracee event r apart v).0)
          (posted-noted k handle ptracer ptracee event r apart q pid options)
      ∙ arrival-waits k handle ptracer ptracee event r apart (noted u ptracer pid options) (
          rw
            (
              modify_self u ptracer (set_wait pid options),
              modify-other u ptracee ptracer (set_wait pid options) apart,
              come,
            )
            (waits-set_wait (u.tracee ptracer) (arrive event r (q.tracee ptracee)) ptracer pid
              options m))
      ∙ wake-noted k handle ptracer ptracee event r apart u pid options r.keep_stopped

  -- The event comes before the wait.
  event_first :
      (t : Table)
      → report_of (t.tracee ptracee).as_ptracee (t.tracee ptracee).in_sysexit event ≡ some r
      → (t.tracee ptracer).as_ptracer.wait_pid ≡ 0
      → (t.tracee ptracee).pid ≢ 0
      → (handle_ptracee_event k handle t ptracer ptracee event).0 ≡ posted t ptracer ptracee event r
  event_first t e idle pid =
      ap (λ v. v.0) (handle-plain k handle ptracer ptracee event r apart t e started plain)
      ∙ arrival-quiet k handle ptracer ptracee event r apart (posted t ptracer ptracee event r) (
          rw
            (
              modify-other t ptracer ptracee (arrive event r) (λ w. apart (sym w)),
              modify_self t ptracee (arrive event r),
            )
            (waits-idle (t.tracee ptracer) (arrive event r (t.tracee ptracee)) idle pid))

  wait_after :
      (t : Table)
      → get_stopped_ptracee t ptracer (t.tracee ptracer).sysarg_1 true (t.tracee ptracer).sysarg_3
        ≡ none
      → member ptracee t.tracees ≡ true
      → HasPid t.tracee ptracee (t.tracee ptracee).pid t.tracees
      → matches ptracer (t.tracee ptracer).sysarg_1 (t.tracee ptracer).sysarg_3 (t.tracee ptracee)
        ≡ true
      → translate_wait_exit k (posted t ptracer ptracee event r) ptracer
        ≡ update_wait_status k (posted (quiet t ptracer) ptracer ptracee event r) ptracer ptracee
  wait_after t nothing there unique m =
      let x = t.tracee ptracer in
      let q = quiet t ptracer in
      let same = modify-other t ptracee ptracer (set_waits_in WaitsIn.doesnt_wait) apart in
      let swap = quiet-posted k handle ptracer ptracee event r apart t in
      let found =
        posted-found ptracer x.sysarg_1 x.sysarg_3 q ptracee event r apart
          (quiet-none ptracer x.sysarg_1 x.sysarg_3 t nothing) there
          (subst (λ y. HasPid q.tracee ptracee y.pid t.tracees) (sym same)
            (HasPid-same t.tracee q.tracee ptracee (t.tracee ptracee).pid t.tracees
              (quiet_same ptracer x.sysarg_1 x.sysarg_3 t).same_pid unique))
          (subst (λ y. matches ptracer x.sysarg_1 x.sysarg_3 y ≡ true) (sym same) m) in
      wait-finds k (posted t ptracer ptracee event r) ptracer ptracee (
        subst
          (λ (y : Tracee).
            get_stopped_ptracee (quiet (posted t ptracer ptracee event r) ptracer) ptracer
              y.sysarg_1 true y.sysarg_3
            ≡ some ptracee)
          (sym (modify-other t ptracer ptracee (arrive event r) (λ w. apart (sym w))))
          (ap (λ u. get_stopped_ptracee u ptracer x.sysarg_1 true x.sysarg_3) swap ∙ found))
      ∙ ap (λ u. update_wait_status k u ptracer ptracee) swap

-- A wait that looks for a ptracee, and is not a polling one, returns 0 without an event while there
-- is none. If an event comes then, all tracees and all effects, in their order, are in the end those
-- of a wait that comes after the event, once its result is stored and the ptracer restarted, but for
-- the wait_options of the ptracer: only the wait that comes first sets them, to its own. The
-- ptracer has ptracees, and waits for none before; the ptracee is another tracee, stopped, stands in
-- the list, and is the only one there with its pid, which is not 0, nor is any pid -1. The event is
-- one that the ptracer may see and that PRoot does not handle first.
pub event-wait_order :
    (k : Kernel) (handle : Table → ℕ → ℕ → Table × ℕ) (t : Table) (ptracer ptracee event : ℕ)
    (r : Report)
    → ptracee ≢ ptracer
    → report_of (t.tracee ptracee).as_ptracee (t.tracee ptracee).in_sysexit event ≡ some r
    → r.tracing_started ≡ true
    → r.handled_by_proot_first ≡ false
    → (t.tracee ptracer).as_ptracer.wait_pid ≡ 0
    → (t.tracee ptracee).pid ≢ 0
    → (t.tracee ptracer).as_ptracer.nb_ptracees ≢ 0
    → has_flag (t.tracee ptracer).sysarg_3 1 ≡ false
    → get_stopped_ptracee t ptracer (t.tracee ptracer).sysarg_1 true (t.tracee ptracer).sysarg_3
      ≡ none
    → member ptracee t.tracees ≡ true
    → HasPid t.tracee ptracee (t.tracee ptracee).pid t.tracees
    → matches ptracer (t.tracee ptracer).sysarg_1 (t.tracee ptracer).sysarg_3 (t.tracee ptracee)
      ≡ true
    → ((translate_wait_exit k t ptracer).1 ≡ ok 0)
      × ((handle_ptracee_event k handle (translate_wait_exit k t ptracer).0 ptracer ptracee event).0
          ≡ with_wait_options
              (resumed k ptracer (
                translate_wait_exit k
                  (handle_ptracee_event k handle t ptracer ptracee event).0
                  ptracer))
              ptracer
              (t.tracee ptracer).sysarg_3)
event-wait_order k handle t ptracer ptracee event r apart e started plain idle pid some_ptracees
      blocking nothing there unique m =
    let x = t.tracee ptracer in
    let q = quiet t ptracer in
    let blocks =
      wait-blocks k t ptracer some_ptracees blocking
        (quiet-none ptracer x.sysarg_1 x.sysarg_3 t nothing) in
    let same = modify-other t ptracee ptracer (set_waits_in WaitsIn.doesnt_wait) apart in
    (
      ap (λ v. v.1) blocks,
      ap (λ v. (handle_ptracee_event k handle v.0 ptracer ptracee event).0) blocks
          ∙ wait_first k handle ptracer ptracee event r apart started plain q x.sysarg_1 x.sysarg_3
              (ap (λ y. report_of y.as_ptracee y.in_sysexit event) same ∙ e)
              (subst (λ y. matches ptracer x.sysarg_1 x.sysarg_3 y ≡ true) (sym same) m)
          ∙ sym (
              ap (λ u. with_wait_options (resumed k ptracer u) ptracer x.sysarg_3)
                (ap (λ u. translate_wait_exit k u ptracer)
                    (event_first k handle ptracer ptracee event r apart started plain t e idle pid)
                  ∙ wait_after k handle ptracer ptracee event r apart started plain t nothing there
                      unique m)),
    )
