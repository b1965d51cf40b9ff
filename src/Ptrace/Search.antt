-- ===== src/Ptrace/Search.antt =====
-- The search for a tracee, and for a ptracee that is stopped or has an event for its ptracer, of
-- proot/src/tracee/tracee.c and proot/src/ptrace/wait.h.
use doki_proot.Prelude.{
  ℕ, Bool, true, false, not, ◌&&◌, ◌||◌, Option, none, some, List, [], ◌∷◌, ◌==◌, if◌then◌else◌,
}
use doki_proot.Ptrace.{Tracee, Table, any_pid, is_address, has_flag}

abbrev pub wall : ℕ
wall = 1073741824

abbrev pub wclone : ℕ
wclone = 2147483648

unfoldable pub expected_wait_clone : ℕ → Bool → Bool
expected_wait_clone options clone =
    has_flag options wall
    || (has_flag options wclone && clone)
    || (not (has_flag options wclone) && not clone)

unfoldable pub is_wanted : ℕ → ℕ → Bool
is_wanted pid pid' = pid == pid' || pid == any_pid

unfoldable pub find_zombie : (ℕ → Tracee) → ℕ → ℕ → List ℕ → Option ℕ
find_zombie tracee pid options [] = none
find_zombie tracee pid options (z ∷ zombies) =
    if not (is_wanted pid (tracee z).pid)
    then find_zombie tracee pid options zombies
    else if not (expected_wait_clone options (tracee z).clone)
    then find_zombie tracee pid options zombies
    else some z

-- What is asked of a ptracee, beside its pid.
pub record Search : Type 0 where
  pub pid : ℕ
  pub only_stopped : Bool
  pub only_with_pevent : Bool
  pub wait_options : ℕ

unfoldable pub find_ptracee : (ℕ → Tracee) → ℕ → Search → List ℕ → Option ℕ
find_ptracee tracee ptracer s [] = none
find_ptracee tracee ptracer s (a ∷ tracees) =
    let rest = find_ptracee tracee ptracer s tracees in
    if not (is_address (tracee a).as_ptracee.ptracer ptracer)
    then rest
    else if not (is_wanted s.pid (tracee a).pid)
    then rest
    else if not (expected_wait_clone s.wait_options (tracee a).clone)
    then rest
    else if not s.only_stopped
    then some a
    else if (tracee a).running
    then rest
    else if (tracee a).as_ptracee.ptracer_event.pending || not s.only_with_pevent
    then some a
    else if s.pid == (tracee a).pid
    then none
    else rest

abbrev pub or_else : Option ℕ → Option ℕ → Option ℕ
or_else none o = o
or_else (some a) o = some a

unfoldable pub get_ptracee : Table → ℕ → Search → Option ℕ
get_ptracee t ptracer s =
    or_else (find_zombie t.tracee s.pid s.wait_options (t.tracee ptracer).as_ptracer.zombies)
      (find_ptracee t.tracee ptracer s t.tracees)

unfoldable pub get_stopped_ptracee : Table → ℕ → ℕ → Bool → ℕ → Option ℕ
get_stopped_ptracee t ptracer pid only_with_pevent options = get_ptracee t ptracer (record {
  pid = pid;
  only_stopped = true;
  only_with_pevent = only_with_pevent;
  wait_options = options;
})

unfoldable pub has_ptracees : Table → ℕ → ℕ → ℕ → Bool
has_ptracees t ptracer pid options =
    elim (get_ptracee t ptracer (record {
      pid = pid;
      only_stopped = false;
      only_with_pevent = false;
      wait_options = options;
    })) [ none ↦ false | some a ↦ true ]

unfoldable pub find_tracee : (ℕ → Tracee) → ℕ → List ℕ → Option ℕ
find_tracee tracee pid [] = none
find_tracee tracee pid (a ∷ tracees) =
    if (tracee a).pid == pid then some a else find_tracee tracee pid tracees

-- Without the creation of a tracee that is not there.
unfoldable pub get_tracee : Table → ℕ → ℕ → Option ℕ
get_tracee t current pid =
    if (t.tracee current).pid == pid then some current else find_tracee t.tracee pid t.tracees
