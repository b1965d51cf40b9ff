-- ===== src/Ptrace/Found.antt =====
-- What the search for a stopped ptracee finds, of get_ptracee in proot/src/tracee/tracee.c.
use doki_proot.Prelude.{
  sym, ◌∙◌, ℕ, ◌≡◌, refl, ◌≢◌, Bool, true, false, not, ◌&&◌, Option, none, some, List, [], ◌∷◌,
  ◌==◌, if◌then◌else◌, arith, ==_iff, ==_refl,
}
use doki_proot.Ptrace.{Tracee, update, is_address, any_pid}
use doki_proot.Ptrace.Search.{
  Search, is_wanted, expected_wait_clone, find_zombie, find_ptracee, or_else,
}

abbrev pub member : ℕ → List ℕ → Bool
member a [] = false
member a (b ∷ l) = if a == b then true else member a l

-- No other tracee of the list has the pid, and none has the pid -1.
abbrev pub HasPid : (ℕ → Tracee) → ℕ → ℕ → List ℕ → Type 0
HasPid tracee a pid [] = Unit
HasPid tracee a pid (b ∷ l) =
    ((tracee b).pid ≡ pid → b ≡ a) × ((tracee b).pid ≢ any_pid) × HasPid tracee a pid l

-- A search for a stopped ptracee with a pending event.
abbrev pub for_event : ℕ → ℕ → Search
for_event pid options = record {
  pid = pid;
  only_stopped = true;
  only_with_pevent = true;
  wait_options = options;
}

-- A tracee that a search for an event of `ptracer` looks for.
abbrev pub matches : ℕ → ℕ → ℕ → Tracee → Bool
matches ptracer pid options x =
    is_address x.as_ptracee.ptracer ptracer
    && is_wanted pid x.pid
    && expected_wait_clone options x.clone
    && not x.running

pub find_ptracee-ne-none :
    (tracee : ℕ → Tracee) (ptracer pid options a : ℕ) (l : List ℕ)
    → matches ptracer pid options (tracee a) ≡ true
    → (tracee a).as_ptracee.ptracer_event.pending ≡ true
    → HasPid tracee a (tracee a).pid l
    → member a l ≡ true
    → find_ptracee tracee ptracer (for_event pid options) l ≢ none
unfolding find_ptracee is_wanted
find_ptracee-ne-none tracee ptracer pid options a [] m e h i = cc
find_ptracee-ne-none tracee ptracer pid options a (b ∷ l) m e h i =
    ground
      (arith, (==_iff a b).0, h.0, h.1, find_ptracee-ne-none tracee ptracer pid options a l m e h.2)

-- An event that comes to a search that found none is found.
pub find_ptracee-update :
    (tracee : ℕ → Tracee) (ptracer pid options a : ℕ) (x : Tracee) (l : List ℕ)
    → matches ptracer pid options x ≡ true
    → x.as_ptracee.ptracer_event.pending ≡ true
    → HasPid tracee a x.pid l
    → member a l ≡ true
    → find_ptracee tracee ptracer (for_event pid options) l ≡ none
    → find_ptracee (update tracee a x) ptracer (for_event pid options) l ≡ some a
unfolding find_ptracee is_wanted
find_ptracee-update tracee ptracer pid options a x [] m e h i n = cc
find_ptracee-update tracee ptracer pid options a x (b ∷ l) m e h i n = ground (
  arith,
  (==_iff a b).0,
  (==_iff b a).0,
  (==_refl a),
  h.0,
  h.1,
  find_ptracee-update tracee ptracer pid options a x l m e h.2,
)

pub find_zombie-same :
    (f g : ℕ → Tracee) (pid options : ℕ) (zombies : List ℕ)
    → ((z : ℕ) → (f z).pid ≡ (g z).pid)
    → ((z : ℕ) → (f z).clone ≡ (g z).clone)
    → find_zombie f pid options zombies ≡ find_zombie g pid options zombies
unfolding find_zombie
find_zombie-same f g pid options [] p c = refl
find_zombie-same f g pid options (z ∷ zombies) p c =
    rw (p z, c z, find_zombie-same f g pid options zombies p c) refl

-- Two tables in which a search sees the same.
pub record IsSameFor (f g : ℕ → Tracee) : Type 0 where
  pub same_ptracer : (b : ℕ) → (f b).as_ptracee.ptracer ≡ (g b).as_ptracee.ptracer
  pub same_pid : (b : ℕ) → (f b).pid ≡ (g b).pid
  pub same_clone : (b : ℕ) → (f b).clone ≡ (g b).clone
  pub same_running : (b : ℕ) → (f b).running ≡ (g b).running
  pub same_pending :
      (b : ℕ) → (f b).as_ptracee.ptracer_event.pending ≡ (g b).as_ptracee.ptracer_event.pending

pub find_ptracee-same :
    (f g : ℕ → Tracee) (ptracer : ℕ) (s : Search) (l : List ℕ)
    → IsSameFor f g
    → find_ptracee f ptracer s l ≡ find_ptracee g ptracer s l
unfolding find_ptracee
find_ptracee-same f g ptracer s [] e = refl
find_ptracee-same f g ptracer s (b ∷ l) e =
    rw
      (
        e.same_ptracer b,
        e.same_pid b,
        e.same_clone b,
        e.same_running b,
        e.same_pending b,
        find_ptracee-same f g ptracer s l e,
      )
      refl

pub HasPid-same :
    (f g : ℕ → Tracee) (a pid : ℕ) (l : List ℕ)
    → ((b : ℕ) → (g b).pid ≡ (f b).pid)
    → HasPid f a pid l
    → HasPid g a pid l
HasPid-same f g a pid [] e h = tt
HasPid-same f g a pid (b ∷ l) e h =
    (λ q. h.0 (sym (e b) ∙ q), λ q. h.1 (sym (e b) ∙ q), HasPid-same f g a pid l e h.2)

pub or_else-none : (o o' : Option ℕ) → or_else o o' ≡ none → (o ≡ none) × (o' ≡ none)
or_else-none none o' e = (refl, e)
or_else-none (some a) o' e = cc
