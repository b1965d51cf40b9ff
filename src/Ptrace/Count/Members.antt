-- ===== src/Ptrace/Count/Members.antt =====
-- Where the tracees stand that the searches of proot/src/tracee/tracee.c find.
use doki_proot.Prelude.{ℕ, ◌≡◌, Bool, true, false, none, some, List, [], ◌∷◌, arith, ==_refl}
use doki_proot.Ptrace.{Tracee, Table}
use doki_proot.Ptrace.Search.{
  Search, find_zombie, find_ptracee, find_tracee, get_tracee, get_ptracee, get_stopped_ptracee,
}
use doki_proot.Ptrace.Found.{member}
use doki_proot.Ptrace.Count.{IsCounted}
use doki_proot.Ptrace.Requests.{is_traced}

pub ptracer-none : (x : Tracee) → is_traced x ≡ false → x.as_ptracee.ptracer ≡ none
ptracer-none x h = ground arith

find_tracee-member :
    (tracee : ℕ → Tracee) (pid a : ℕ) (l : List ℕ)
    → find_tracee tracee pid l ≡ some a
    → member a l ≡ true
unfolding find_tracee
find_tracee-member tracee pid a [] h = cc
find_tracee-member tracee pid a (b ∷ l) h =
    ground (arith, ==_refl a, find_tracee-member tracee pid a l)

pub find_ptracee-member :
    (tracee : ℕ → Tracee) (ptracer a : ℕ) (s : Search) (l : List ℕ)
    → find_ptracee tracee ptracer s l ≡ some a
    → member a l ≡ true
unfolding find_ptracee
find_ptracee-member tracee ptracer a s [] h = cc
find_ptracee-member tracee ptracer a s (b ∷ l) h =
    ground (arith, ==_refl a, find_ptracee-member tracee ptracer a s l)

pub find_zombie-member :
    (tracee : ℕ → Tracee) (pid options a : ℕ) (l : List ℕ)
    → find_zombie tracee pid options l ≡ some a
    → member a l ≡ true
unfolding find_zombie
find_zombie-member tracee pid options a [] h = cc
find_zombie-member tracee pid options a (b ∷ l) h =
    ground (arith, ==_refl a, find_zombie-member tracee pid options a l)

-- A ptracee that is found and is no zombie stands in the list of tracees.
pub found-member :
    (t : Table) (ptracer pid options a : ℕ) (only : Bool)
    → IsCounted t
    → get_stopped_ptracee t ptracer pid only options ≡ some a
    → (t.tracee a).as_ptracee.is_zombie ≡ false
    → member a t.tracees ≡ true
unfolding get_stopped_ptracee get_ptracee
found-member t ptracer pid options a only c h z =
    let zs = (t.tracee ptracer).as_ptracer.zombies in
    let s : Search = record {
      pid = pid;
      only_stopped = true;
      only_with_pevent = only;
      wait_options = options;
    } in
    ground (
      arith,
      h,
      find_zombie-member t.tracee pid options a zs,
      c.dead ptracer a,
      find_ptracee-member t.tracee ptracer a s t.tracees,
    )

pub get_tracee-member :
    (t : Table) (p pid a : ℕ)
    → member p t.tracees ≡ true
    → get_tracee t p pid ≡ some a
    → member a t.tracees ≡ true
unfolding get_tracee
get_tracee-member t p pid a there found =
    ground (arith, found, there, ==_refl p, find_tracee-member t.tracee pid a t.tracees)
