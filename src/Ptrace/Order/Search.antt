-- ===== src/Ptrace/Order/Search.antt =====
-- What a wait finds, before an event and after it, of proot/src/ptrace/wait.c.
use doki_proot.Prelude.{
  ℕ, ◌≡◌, refl, ◌≢◌, true, false, Option, none, some, sym, ◌∙◌, ap, arith, ==_iff, ok,
}
use doki_proot.Ptrace.{Table, Kernel, WaitsIn, update, has_flag}
use doki_proot.Ptrace.Search.{get_stopped_ptracee, get_ptracee, find_zombie, find_ptracee}
use doki_proot.Ptrace.Events.{Report}
use doki_proot.Ptrace.Wait.{set_waits_in, update_wait_status, translate_wait_exit, answer_wait}
use doki_proot.Ptrace.Found.{
  member, HasPid, matches, for_event, find_ptracee-update, find_ptracee-same, find_zombie-same,
  or_else-none, IsSameFor,
}
use doki_proot.Ptrace.Order.Commute.{noted, modify-other, modify_self}
use doki_proot.Ptrace.Order.Arrival.{arrive, posted, quiet}

answer-none :
    (k : Kernel) (u : Table) (ptracer pid options : ℕ)
    → (u.tracee ptracer).as_ptracer.nb_ptracees ≢ 0
    → has_flag options 1 ≡ false
    → answer_wait k u ptracer pid options none ≡ (noted u ptracer pid options, ok 0)
unfolding answer_wait
answer-none k u ptracer pid options n blocking = ground (arith, blocking)

module _ (k : Kernel) (t : Table) (ptracer : ℕ) where
  abbrev pub wait_search : Table → Option ℕ
  wait_search u =
      get_stopped_ptracee u ptracer (t.tracee ptracer).sysarg_1 true (t.tracee ptracer).sysarg_3

  pub wait-blocks :
      (t.tracee ptracer).as_ptracer.nb_ptracees ≢ 0
      → has_flag (t.tracee ptracer).sysarg_3 1 ≡ false
      → wait_search (quiet t ptracer) ≡ none
      → translate_wait_exit k t ptracer ≡ (
        noted (quiet t ptracer) ptracer (t.tracee ptracer).sysarg_1 (t.tracee ptracer).sysarg_3,
        ok 0,
      )
  unfolding translate_wait_exit
  wait-blocks some_ptracees blocking e =
      let x = t.tracee ptracer in
      ap (answer_wait k (quiet t ptracer) ptracer x.sysarg_1 x.sysarg_3) e
      ∙ answer-none k (quiet t ptracer) ptracer x.sysarg_1 x.sysarg_3
          (λ q. some_ptracees (
            ap (λ y. y.as_ptracer.nb_ptracees)
              (sym (modify_self t ptracer (set_waits_in WaitsIn.doesnt_wait)))
            ∙ q))
          blocking

  pub wait-finds :
      (a : ℕ)
      → wait_search (quiet t ptracer) ≡ some a
      → translate_wait_exit k t ptracer ≡ update_wait_status k (quiet t ptracer) ptracer a
  unfolding translate_wait_exit answer_wait
  wait-finds a e =
      let x = t.tracee ptracer in
      ap (answer_wait k (quiet t ptracer) ptracer x.sysarg_1 x.sysarg_3) e

module _ (ptracer pid options : ℕ) where
  before :
      (t : Table)
      → get_stopped_ptracee t ptracer pid true options ≡ none
      → (find_zombie t.tracee pid options (t.tracee ptracer).as_ptracer.zombies ≡ none)
        × (find_ptracee t.tracee ptracer (for_event pid options) t.tracees ≡ none)
  unfolding get_stopped_ptracee get_ptracee
  before t e = or_else-none _ _ e

  pub quiet_same : (t : Table) → IsSameFor (quiet t ptracer).tracee t.tracee
  quiet_same t = record {
    same_ptracer = λ b. ground (arith, ==_iff b ptracer);
    same_pid = λ b. ground (arith, ==_iff b ptracer);
    same_clone = λ b. ground (arith, ==_iff b ptracer);
    same_running = λ b. ground (arith, ==_iff b ptracer);
    same_pending = λ b. ground (arith, ==_iff b ptracer);
  }

  pub quiet-none :
      (t : Table)
      → get_stopped_ptracee t ptracer pid true options ≡ none
      → get_stopped_ptracee (quiet t ptracer) ptracer pid true options ≡ none
  unfolding get_stopped_ptracee get_ptracee
  quiet-none t e =
      let q = quiet t ptracer in
      rw
        (
          modify_self t ptracer (set_waits_in WaitsIn.doesnt_wait),
          find_zombie-same q.tracee t.tracee pid options (t.tracee ptracer).as_ptracer.zombies
              (quiet_same t).same_pid (quiet_same t).same_clone,
          (before t e).0,
          find_ptracee-same q.tracee t.tracee ptracer (for_event pid options) t.tracees
              (quiet_same t),
          (before t e).1,
        )
        refl

  -- The search finds the event that has come.
  pub posted-found :
      (t : Table) (ptracee event : ℕ) (r : Report)
      → ptracee ≢ ptracer
      → get_stopped_ptracee t ptracer pid true options ≡ none
      → member ptracee t.tracees ≡ true
      → HasPid t.tracee ptracee (t.tracee ptracee).pid t.tracees
      → matches ptracer pid options (t.tracee ptracee) ≡ true
      → get_stopped_ptracee (posted t ptracer ptracee event r) ptracer pid true options
        ≡ some ptracee
  unfolding get_stopped_ptracee get_ptracee
  posted-found t ptracee event r apart e there unique m =
      let x = t.tracee ptracee in
      rw
        (
          modify-other t ptracer ptracee (arrive event r) (λ q. apart (sym q)),
          find_zombie-same (update t.tracee ptracee (arrive event r x)) t.tracee pid options
              (t.tracee ptracer).as_ptracer.zombies (λ b. ground (arith, ==_iff b ptracee))
              (λ b. ground (arith, ==_iff b ptracee)),
          (before t e).0,
          find_ptracee-update t.tracee ptracer pid options ptracee (arrive event r x) t.tracees m
              refl unique there (before t e).1,
        )
        refl
