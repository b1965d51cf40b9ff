-- ===== src/Ptrace/Count/Handled.antt =====
-- What PRoot makes of an event keeps the counters of ptracees and the bond of the tracee that the
-- event is of: changes of tracees, new tracees, and the ptracer that a child gets in `new_child` of
-- proot/src/tracee/tracee.c.
use doki_proot.Prelude.{
  ℕ, ◌+◌, List, Option, length, ◌≡◌, refl, Bool, true, false, none, some, ◌∷◌, ◌||◌, ◌==◌,
  if◌then◌else◌, arith, ==_iff, inl, inr, Bool-cases, ◌%◌, sym, ap, ◌∙◌, subst,
}
use doki_proot.Ptrace.{
  Tracee, Table, Effect, modify, add_effect, attach_to_ptracer, detach_from_ptracer, has_flag,
}
use doki_proot.Ptrace.Found.{member}
use doki_proot.Ptrace.Requests.{set_options}
use doki_proot.Ptrace.Child.{ptrace_options, inherit_ptracer}
use doki_proot.Ptrace.Count.{IsCounted, IsBlind, modify-IsCounted, count}
use doki_proot.Ptrace.Count.Kept.{effect-IsCounted, attach-IsCounted, detach-IsCounted}
use doki_proot.Ptrace.Count.Waits.{IsPtracee}

-- A tracee that is alive and has no ptracer, as `new_child` asserts of a child.
pub record IsFree (t : Table) (child : ℕ) : Type 0 where
  pub untraced : (t.tracee child).as_ptracee.ptracer ≡ none
  pub living : (t.tracee child).as_ptracee.is_zombie ≡ false

abbrev pub add_tracee : Table → ℕ → Table
add_tracee t child = record t { tracees = child ∷ t.tracees }

-- The tables that PRoot's own handling of an event of tracee `a` may lead to: each step is a change
-- of a tracee that leaves its ptracer, zombies and number of ptracees, an effect, a new tracee, what
-- `new_child` does for ptrace, or the bond of a request of ptrace(2) that is made on the way: a
-- tracee without a ptracer is attached, or another one than `a` is detached.
pub data Makes (a : ℕ) (t : Table) : Table → Type 0 where
  nothing : Makes a t t
  changes :
      {u : Table}
      → Makes a t u
      → (b : ℕ) (f : Tracee → Tracee) → IsBlind f
      → Makes a t (modify u b f)
  acts : {u : Table} → Makes a t u → (e : Effect) → Makes a t (add_effect u e)
  creates :
      {u : Table}
      → Makes a t u
      → (child : ℕ) → member child u.tracees ≡ false
      → IsFree u child
      → Makes a t (add_tracee u child)
  inherits :
      {u : Table}
      → Makes a t u
      → (parent child clone_flags : ℕ) → member child u.tracees ≡ true
      → IsFree u child
      → Makes a t (inherit_ptracer u parent child clone_flags)
  attaches :
      {u : Table}
      → Makes a t u
      → (child q : ℕ) → member child u.tracees ≡ true
      → IsFree u child
      → Makes a t (attach_to_ptracer u child q)
  detaches :
      {u : Table}
      → Makes a t u
      → (b q : ℕ) → (a == b) ≡ false
      → member b u.tracees ≡ true
      → (u.tracee b).as_ptracee.ptracer ≡ some q
      → Makes a t (detach_from_ptracer u b q)

-- A handler that does nothing else to the table.
abbrev pub Handles : (Table → ℕ → ℕ → Table × ℕ) → Type 0
Handles handle = (t : Table) (a event : ℕ) → Makes a t (handle t a event).0

count-untraced :
    (tracee : ℕ → Tracee) (p child : ℕ) (l : List ℕ)
    → (tracee child).as_ptracee.ptracer ≡ none
    → count tracee p (child ∷ l) ≡ count tracee p l
unfolding count
count-untraced tracee p child l untraced = rw untraced (omega arith)

add-IsCounted :
    (t : Table) (child : ℕ)
    → member child t.tracees ≡ false
    → IsFree t child
    → IsCounted t
    → IsCounted (add_tracee t child)
add-IsCounted t child new free c = record {
  distinct = (new, c.distinct);
  alive = λ a i. elim (Bool-cases (a == child)) [
    | inl e ↦
        subst (λ b. (t.tracee b).as_ptracee.is_zombie ≡ false) (sym ((==_iff a child).0 e))
          free.living
    | inr e ↦ c.alive a (ground (arith, i, e))
  ];
  dead = c.dead;
  owned = c.owned;
  once = c.once;
  counted = λ p.
      c.counted p
      ∙ ap (λ n. n + length (t.tracee p).as_ptracer.zombies)
          (sym (count-untraced t.tracee p child t.tracees free.untraced));
}

set_options-IsBlind : (options : ℕ) → IsBlind (set_options options)
set_options-IsBlind options x = (refl, refl, refl, refl)

either : (P : Table → Type 0) (b : Bool) (x y : Table) → P x → P y → P (if b then x else y)
either P true x y h k = h
either P false x y h k = k

-- The child is attached to its parent's ptracer, or nothing is done.
inherit-keeps :
    (P : Table → Type 0) (t : Table) (parent child clone_flags : ℕ)
    → P t
    → ((q : ℕ)
        → P (
            modify
              (attach_to_ptracer t child q)
              child
              (set_options ((t.tracee parent).as_ptracee.options % 128))))
    → P (inherit_ptracer t parent child clone_flags)
unfolding inherit_ptracer
inherit-keeps P t parent child clone_flags same attached = go (t.tracee parent).as_ptracee.ptracer
  where
    options : ℕ
    options = (t.tracee parent).as_ptracee.options

    go :
        (o : Option ℕ)
        → P (elim o [
          | none ↦ t
          | some q ↦
              if has_flag options (ptrace_options clone_flags) || has_flag clone_flags 8192
              then modify (attach_to_ptracer t child q) child (set_options (options % 128))
              else t
        ])
    go none = same
    go (some q) =
        either P (has_flag options (ptrace_options clone_flags) || has_flag clone_flags 8192) _ _
          (attached q) same

inherit-IsCounted :
    (t : Table) (parent child clone_flags : ℕ)
    → member child t.tracees ≡ true
    → IsFree t child
    → IsCounted t
    → IsCounted (inherit_ptracer t parent child clone_flags)
inherit-IsCounted t parent child clone_flags there free c =
    let options = (t.tracee parent).as_ptracee.options % 128 in
    let f = set_options options in
    inherit-keeps IsCounted t parent child clone_flags c (λ q.
      modify-IsCounted (attach_to_ptracer t child q) child f (set_options-IsBlind options)
        (attach-IsCounted t child q there c free.untraced))

-- Where the two tables agree on the tracee and on the zombies of its ptracer.
same-IsPtracee :
    (t u : Table) (p a : ℕ)
    → (u.tracee a).as_ptracee.is_zombie ≡ (t.tracee a).as_ptracee.is_zombie
    → (u.tracee a).as_ptracee.ptracer ≡ (t.tracee a).as_ptracee.ptracer
    → (u.tracee p).as_ptracer.zombies ≡ (t.tracee p).as_ptracer.zombies
    → (member a t.tracees ≡ true → member a u.tracees ≡ true)
    → IsPtracee t p a
    → IsPtracee u p a
same-IsPtracee t u p a zombie ptracer zombies there (inl (e, i)) =
    inl (zombie ∙ e, ap (member a) zombies ∙ i)
same-IsPtracee t u p a zombie ptracer zombies there (inr (e, i, traced)) =
    inr (zombie ∙ e, there i, ptracer ∙ traced)

change-IsPtracee :
    (t : Table) (b : ℕ) (f : Tracee → Tracee) (p a : ℕ)
    → IsBlind f
    → IsPtracee t p a
    → IsPtracee (modify t b f) p a
change-IsPtracee t b f p a blind is =
    let (ptracer, zombie, zombies, count) = blind (t.tracee b) in
    same-IsPtracee t (modify t b f) p a (ground (arith, ==_iff a b, zombie))
      (ground (arith, ==_iff a b, ptracer)) (ground (arith, ==_iff p b, zombies)) (λ i. i) is

-- A tracee that is traced, or dead, is not the child.
free-apart : (t : Table) (p a child : ℕ) → IsFree t child → IsPtracee t p a → (a == child) ≡ false
free-apart t p a child free (inl (e, i)) =
    let living = free.living in ground (arith, ==_iff a child, e, living)
free-apart t p a child free (inr (e, i, traced)) =
    let untraced = free.untraced in ground (arith, ==_iff a child, traced, untraced)

attach-IsPtracee :
    (t : Table) (child q p a : ℕ)
    → IsFree t child
    → IsPtracee t p a
    → IsPtracee (attach_to_ptracer t child q) p a
unfolding attach_to_ptracer
attach-IsPtracee t child q p a free is =
    let apart = free-apart t p a child free is in
    same-IsPtracee t (attach_to_ptracer t child q) p a (ground (arith, apart, ==_iff a q))
      (ground (arith, apart, ==_iff a q)) (ground (arith, ==_iff p q, ==_iff p child)) (λ i. i) is

inherit-IsPtracee :
    (t : Table) (parent child clone_flags p a : ℕ)
    → IsFree t child
    → IsPtracee t p a
    → IsPtracee (inherit_ptracer t parent child clone_flags) p a
inherit-IsPtracee t parent child clone_flags p a free is =
    let options = (t.tracee parent).as_ptracee.options % 128 in
    let f = set_options options in
    inherit-keeps (λ u. IsPtracee u p a) t parent child clone_flags is
      (λ q.
        change-IsPtracee (attach_to_ptracer t child q) child f p a (set_options-IsBlind options)
          (attach-IsPtracee t child q p a free is))

detach-IsPtracee :
    (t : Table) (b q p a : ℕ)
    → (a == b) ≡ false
    → IsPtracee t p a
    → IsPtracee (detach_from_ptracer t b q) p a
unfolding detach_from_ptracer
detach-IsPtracee t b q p a apart is =
    same-IsPtracee t (detach_from_ptracer t b q) p a (ground (arith, apart, ==_iff a q))
      (ground (arith, apart, ==_iff a q)) (ground (arith, ==_iff p q, ==_iff p b)) (λ i. i) is

-- The counters stay right.
pub Makes-IsCounted : {a : ℕ} {t u : Table} → Makes a t u → IsCounted t → IsCounted u
Makes-IsCounted nothing c = c
Makes-IsCounted (changes {u} m b f blind) c = modify-IsCounted u b f blind (Makes-IsCounted m c)
Makes-IsCounted (acts {u} m e) c = effect-IsCounted u e (Makes-IsCounted m c)
Makes-IsCounted (creates {u} m child new free) c =
    add-IsCounted u child new free (Makes-IsCounted m c)
Makes-IsCounted (inherits {u} m parent child clone_flags there free) c =
    inherit-IsCounted u parent child clone_flags there free (Makes-IsCounted m c)
Makes-IsCounted (attaches {u} m child q there free) c =
    attach-IsCounted u child q there (Makes-IsCounted m c) free.untraced
Makes-IsCounted (detaches {u} m b q apart there traced) c =
    detach-IsCounted u b q there (Makes-IsCounted m c) traced

-- A ptracee stays one of the same ptracer.
pub Makes-IsPtracee : (p a : ℕ) {t u : Table} → Makes a t u → IsPtracee t p a → IsPtracee u p a
Makes-IsPtracee p a nothing is = is
Makes-IsPtracee p a (changes {u} m b f blind) is =
    change-IsPtracee u b f p a blind (Makes-IsPtracee p a m is)
Makes-IsPtracee p a (acts {u} m e) is =
    same-IsPtracee u (add_effect u e) p a refl refl refl (λ i. i) (Makes-IsPtracee p a m is)
Makes-IsPtracee p a (creates {u} m child new free) is =
    same-IsPtracee u (add_tracee u child) p a refl refl refl (λ i. ground (arith, i))
      (Makes-IsPtracee p a m is)
Makes-IsPtracee p a (inherits {u} m parent child clone_flags there free) is =
    inherit-IsPtracee u parent child clone_flags p a free (Makes-IsPtracee p a m is)
Makes-IsPtracee p a (attaches {u} m child q there free) is =
    attach-IsPtracee u child q p a free (Makes-IsPtracee p a m is)
Makes-IsPtracee p a (detaches {u} m b q apart there traced) is =
    detach-IsPtracee u b q p a apart (Makes-IsPtracee p a m is)
