-- ===== src/Ptrace/Count/Reach.antt =====
-- The counters through any course of requests, waits and events, of proot/src/ptrace.
use doki_proot.Prelude.{ℕ, ◌≡◌, true}
use doki_proot.Ptrace.{Table, Kernel}
use doki_proot.Ptrace.Found.{member}
use doki_proot.Ptrace.Requests.{Request, translate_ptrace_exit}
use doki_proot.Ptrace.Wait.{handle_ptracee_event, translate_wait_enter, translate_wait_exit}
use doki_proot.Ptrace.Count.Waits.{IsPtracee}

-- What can happen to a table: a request of ptrace(2) by a tracee of the list, the entry and the
-- exit of its wait, and an event of a ptracee.
pub data Happens (k : Kernel) (handle : Table → ℕ → ℕ → Table × ℕ) (t : Table)
    : Table → Type 0 where
  requests :
      (tracee pid : ℕ) (request : Request)
      → member tracee t.tracees ≡ true
      → Happens k handle t (translate_ptrace_exit k handle t tracee pid request).0
  enters : (tracee : ℕ) → Happens k handle t (translate_wait_enter t tracee).0
  waits : (tracee : ℕ) → Happens k handle t (translate_wait_exit k t tracee).0
  comes :
      (ptracer ptracee event : ℕ)
      → IsPtracee t ptracer ptracee
      → Happens k handle t (handle_ptracee_event k handle t ptracer ptracee event).0

pub data Reaches (k : Kernel) (handle : Table → ℕ → ℕ → Table × ℕ) (t : Table)
    : Table → Type 0 where
  here : Reaches k handle t t
  next : {u v : Table} → Reaches k handle t u → Happens k handle u v → Reaches k handle t v
