-- ===== src/Ptrace/Order/Arrival.antt =====
-- What the arrival of an event does, where PRoot does not handle it first, of
-- proot/src/ptrace/wait.c.
use doki_proot.Prelude.{
  ℕ, ◌≡◌, refl, ◌≢◌, Bool, true, false, not, ◌||◌, some, ◌∷◌, ◌==◌, sym, ◌∙◌, ap, if◌then◌else◌,
  arith, ==_iff, ==_refl, inl, inr, Bool-cases, Result, ok, fail,
}
use doki_proot.Ptrace.{
  Tracee, Table, Kernel, Effect, WaitsIn, modify, add_effect, restart_tracee, any_pid,
}
use doki_proot.Ptrace.Events.{Report, report_of}
use doki_proot.Ptrace.Wait.{
  set_waits_in, set_wait, set_wait_pid, set_proot_event, set_started, set_ptracer_event, sigchld,
  waits_for, wake_ptracer, pass_event, report_event, poke_status, update_wait_status,
  handle_ptracee_event,
}
use doki_proot.Ptrace.Order.Commute.{Table-ext, noted, modify_comm, modify_self, update-noted}

abbrev pub arrive : ℕ → Report → Tracee → Tracee
arrive event r x =
    set_ptracer_event r.event true (set_started r.tracing_started (set_proot_event event true x))

-- The table once the event stands there for the ptracer.
abbrev pub posted : Table → ℕ → ℕ → ℕ → Report → Table
posted t ptracer ptracee event r =
    add_effect (modify t ptracee (arrive event r)) (Effect.kill (t.tracee ptracer).pid sigchld)

abbrev pub quiet : Table → ℕ → Table
quiet t ptracer = modify t ptracer (set_waits_in WaitsIn.doesnt_wait)

marks_lem :
    (t : Table) (a event : ℕ) (r : Report)
    → modify
        (modify (modify t a (set_proot_event event true)) a (set_started r.tracing_started))
        a
        (set_ptracer_event r.event true)
      ≡ modify t a (arrive event r)
marks_lem t a event r = Table-ext (λ c. ground (arith, ==_iff c a, ==_refl a)) refl refl

abbrev marked : Table → ℕ → ℕ → Report → Table
marked t a event r =
    modify (modify t a (set_proot_event event true)) a (set_started r.tracing_started)

marked-other :
    (t : Table) (a b event : ℕ) (r : Report) → b ≢ a → (marked t a event r).tracee b ≡ t.tracee b
marked-other t a b event r apart = ground (arith, ==_iff b a)

abbrev sent : Table → ℕ → ℕ → ℕ → Table
sent u ptracer a event =
    add_effect (modify u a (set_ptracer_event event true))
      (Effect.kill (u.tracee ptracer).pid sigchld)

sent-marked :
    (t : Table) (ptracer a event : ℕ) (r : Report)
    → a ≢ ptracer
    → sent (marked t a event r) ptracer a r.event ≡ posted t ptracer a event r
sent-marked t ptracer a event r apart =
    Table-ext (λ c. ground (arith, ==_iff c a, ==_refl a)) refl
      (ap (λ x. Effect.kill x.pid sigchld ∷ t.effects)
        (marked-other t a ptracer event r (λ q. apart (sym q))))

module _ (k : Kernel) (handle : Table → ℕ → ℕ → Table × ℕ) (ptracer ptracee event : ℕ) (r : Report)
    (apart : ptracee ≢ ptracer) where
  abbrev pub arrival : Table → Table × Bool
  arrival u =
      if waits_for (u.tracee ptracer) (u.tracee ptracee)
      then wake_ptracer k u ptracer ptracee r.keep_stopped
      else (u, r.keep_stopped)

  report-plain :
      (u : Table)
      → r.tracing_started ≡ true
      → r.handled_by_proot_first ≡ false
      → report_event k handle u ptracer ptracee (some r)
        ≡ pass_event k
            (modify u ptracee (set_started r.tracing_started))
            ptracer
            ptracee
            r.event
            r.keep_stopped
  unfolding report_event
  report-plain u started plain = rw (started, plain) refl

  pass_lem :
      (u : Table)
      → pass_event k u ptracer ptracee r.event r.keep_stopped
        ≡ arrival (sent u ptracer ptracee r.event)
  unfolding pass_event
  pass_lem u = refl

  pub handle-plain :
      (t : Table)
      → report_of (t.tracee ptracee).as_ptracee (t.tracee ptracee).in_sysexit event ≡ some r
      → r.tracing_started ≡ true
      → r.handled_by_proot_first ≡ false
      → handle_ptracee_event k handle t ptracer ptracee event
        ≡ arrival (posted t ptracer ptracee event r)
  unfolding handle_ptracee_event
  handle-plain t e started plain =
      ap (report_event k handle (modify t ptracee (set_proot_event event true)) ptracer ptracee) e
      ∙ report-plain (modify t ptracee (set_proot_event event true)) started plain
      ∙ pass_lem (marked t ptracee event r)
      ∙ ap arrival (sent-marked t ptracer ptracee event r apart)

-- What the exit of the system call does with the result of a wait that is over.
abbrev pub resumed : Kernel → ℕ → Table × Result ℕ → Table
resumed k ptracer (t, status) =
    (restart_tracee k (modify (poke_status t ptracer status) ptracer (set_wait_pid 0)) ptracer 0).0

abbrev set_wait_options : ℕ → Tracee → Tracee
set_wait_options options x = record x {
  as_ptracer = record x.as_ptracer { wait_options = options };
}

-- The table, but for the options that the ptracer has noted of its wait.
abbrev pub with_wait_options : Table → ℕ → ℕ → Table
with_wait_options t ptracer options = modify t ptracer (set_wait_options options)

restart-with_wait_options :
    (k : Kernel) (t : Table) (ptracer options : ℕ)
    → (restart_tracee k (with_wait_options t ptracer options) ptracer 0).0
      ≡ with_wait_options (restart_tracee k t ptracer 0).0 ptracer options
unfolding restart_tracee
restart-with_wait_options k t ptracer options =
    elim (Bool-cases (not ((t.tracee ptracer).as_ptracer.wait_pid == 0) || 0 == any_pid)) [
      | inl e ↦ rw (modify_self t ptracer (set_wait_options options), e) refl
      | inr e ↦ elim (Bool-cases (k.restarts ptracer)) [
        | inr f ↦ rw (modify_self t ptracer (set_wait_options options), e, f) refl
        | inl f ↦
            rw (modify_self t ptracer (set_wait_options options), e, f)
              (Table-ext (λ c. ground (arith, ==_iff c ptracer, ==_refl ptracer)) refl refl)
      ]
    ]

resumed-noted :
    (t : Table) (ptracer pid options : ℕ) (status : Result ℕ)
    → modify (poke_status (noted t ptracer pid options) ptracer status) ptracer (set_wait_pid 0)
      ≡ with_wait_options
          (modify (poke_status t ptracer status) ptracer (set_wait_pid 0))
          ptracer
          options
resumed-noted t ptracer pid options (fail code) =
    Table-ext (λ c. ground (arith, ==_iff c ptracer, ==_refl ptracer)) refl refl
resumed-noted t ptracer pid options (ok status) = elim (Bool-cases (status == 0)) [
  | inl e ↦ rw e (Table-ext (λ c. ground (arith, ==_iff c ptracer, ==_refl ptracer)) refl refl)
  | inr e ↦ rw e (Table-ext (λ c. ground (arith, ==_iff c ptracer, ==_refl ptracer)) refl refl)
]

module _ (k : Kernel) (handle : Table → ℕ → ℕ → Table × ℕ) (ptracer ptracee event : ℕ) (r : Report)
    (apart : ptracee ≢ ptracer) where
  apart' : ptracer ≢ ptracee
  apart' q = apart (sym q)

  pub posted-noted :
      (t : Table) (pid options : ℕ)
      → posted (noted t ptracer pid options) ptracer ptracee event r
        ≡ noted (posted t ptracer ptracee event r) ptracer pid options
  posted-noted t pid options =
      ap
        (λ x. add_effect x (Effect.kill ((noted t ptracer pid options).tracee ptracer).pid sigchld))
        (modify_comm t ptracer ptracee (set_wait pid options) (arrive event r) apart')
      ∙ ap
          (λ n.
            add_effect (noted (modify t ptracee (arrive event r)) ptracer pid options)
              (Effect.kill n sigchld))
          (ap (λ x. x.pid) (modify_self t ptracer (set_wait pid options)))

  pub quiet-posted :
      (t : Table)
      → quiet (posted t ptracer ptracee event r) ptracer
        ≡ posted (quiet t ptracer) ptracer ptracee event r
  quiet-posted t =
      ap (λ x. add_effect x (Effect.kill (t.tracee ptracer).pid sigchld))
        (modify_comm t ptracee ptracer (arrive event r) (set_waits_in WaitsIn.doesnt_wait) apart)
      ∙ ap
          (λ n.
            add_effect (modify (quiet t ptracer) ptracee (arrive event r)) (Effect.kill n sigchld))
          (ap (λ x. x.pid) (sym (modify_self t ptracer (set_waits_in WaitsIn.doesnt_wait))))

  wake_lem :
      (u : Table) (keep : Bool)
      → (wake_ptracer k u ptracer ptracee keep).0
        ≡ (restart_tracee k
            (modify
              (poke_status
                (update_wait_status k u ptracer ptracee).0
                ptracer
                (update_wait_status k u ptracer ptracee).1)
              ptracer
              (set_wait_pid 0))
            ptracer
            0).0
  unfolding wake_ptracer
  wake_lem u keep = refl

  pub wake-noted :
      (u : Table) (pid options : ℕ) (keep : Bool)
      → (wake_ptracer k (noted u ptracer pid options) ptracer ptracee keep).0
        ≡ with_wait_options
            (resumed k ptracer (update_wait_status k u ptracer ptracee))
            ptracer
            options
  wake-noted u pid options keep =
      let s = update_wait_status k u ptracer ptracee in
      wake_lem (noted u ptracer pid options) keep
      ∙ ap
          (λ (v : Table × Result ℕ).
            (restart_tracee k (modify (poke_status v.0 ptracer v.1) ptracer (set_wait_pid 0))
              ptracer 0).0)
          (update-noted ptracer ptracee pid options apart k u)
      ∙ ap (λ v. (restart_tracee k v ptracer 0).0) (resumed-noted s.0 ptracer pid options s.1)
      ∙ restart-with_wait_options k (modify (poke_status s.0 ptracer s.1) ptracer (set_wait_pid 0))
          ptracer options

  pub arrival-waits :
      (u : Table)
      → waits_for (u.tracee ptracer) (u.tracee ptracee) ≡ true
      → (arrival k handle ptracer ptracee event r apart u).0
        ≡ (wake_ptracer k u ptracer ptracee r.keep_stopped).0
  arrival-waits u e = rw e refl

  pub arrival-quiet :
      (u : Table)
      → waits_for (u.tracee ptracer) (u.tracee ptracee) ≡ false
      → (arrival k handle ptracer ptracee event r apart u).0 ≡ u
  arrival-quiet u e = rw e refl
