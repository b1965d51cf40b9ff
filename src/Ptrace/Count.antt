-- ===== src/Ptrace/Count.antt =====
-- The number of ptracees that a ptracer keeps, of proot/src/ptrace/ptrace.c, against the tracees
-- that it traces.
mod Members
mod Zombies
pub mod Waits
pub mod Reach
pub mod Kept
pub mod Handled
use doki_proot.Prelude.{
  ◌<◌, ℕ, ◌+◌, ◌-◌, ◌≡◌, refl, sym, ap, ◌∙◌, subst, ◌≢◌, Bool, true, false, not, ◌&&◌, ◌||◌, Option,
  none, some, List, [], ◌∷◌, ◌==◌, if◌then◌else◌, arith, ==_iff, ==_refl, length, inl, inr,
  Bool-cases, Option-cases,
}
use doki_proot.Ptrace.{
  Tracee, Table, Kernel, update, modify, add_effect, no_ptracee, set_ptracer, set_count, is_address,
  attach_to_ptracer, detach_from_ptracer, restart_tracee,
}
use doki_proot.Ptrace.Search.{
  Search, wall, find_zombie, find_ptracee, find_tracee, get_tracee, get_ptracee,
  get_stopped_ptracee,
}
use doki_proot.Ptrace.Found.{member}

abbrev pub IsDistinct : List ℕ → Type 0
IsDistinct [] = Unit
IsDistinct (a ∷ l) = (member a l ≡ false) × IsDistinct l

abbrev pub one : Option ℕ → ℕ → ℕ
one o p = if is_address o p then 1 else 0

-- The tracees of the list that a tracer traces.
unfoldable pub count : (ℕ → Tracee) → ℕ → List ℕ → ℕ
count tracee p [] = 0
count tracee p (a ∷ l) = one (tracee a).as_ptracee.ptracer p + count tracee p l

pub count-update :
    (tracee : ℕ → Tracee) (p a : ℕ) (x : Tracee) (l : List ℕ)
    → IsDistinct l
    → count (update tracee a x) p l
        + (if member a l then one (tracee a).as_ptracee.ptracer p else 0)
      ≡ count tracee p l + (if member a l then one x.as_ptracee.ptracer p else 0)
unfolding count
count-update tracee p a x [] d = refl
count-update tracee p a x (b ∷ l) d =
    ground (arith, ==_iff b a, ==_iff a b, count-update tracee p a x l d.1)

-- The counter of each tracer is the number of the tracees that it traces, the dead ones included
-- of which it has not been told.
pub record IsCounted (t : Table) : Type 0 where
  pub distinct : IsDistinct t.tracees
  pub alive : (a : ℕ) → member a t.tracees ≡ true → (t.tracee a).as_ptracee.is_zombie ≡ false
  pub dead :
      (p z : ℕ)
      → member z (t.tracee p).as_ptracer.zombies ≡ true
      → (t.tracee z).as_ptracee.is_zombie ≡ true
  pub owned :
      (p z : ℕ)
      → member z (t.tracee p).as_ptracer.zombies ≡ true
      → (t.tracee z).as_ptracee.ptracer ≡ some p
  pub once : (p : ℕ) → IsDistinct (t.tracee p).as_ptracer.zombies
  pub counted :
      (p : ℕ)
      → (t.tracee p).as_ptracer.nb_ptracees
        ≡ count t.tracee p t.tracees + length (t.tracee p).as_ptracer.zombies

-- A change of one tracee that the count does not see.
abbrev pub IsBlind : (Tracee → Tracee) → Type 0
IsBlind f =
    (x : Tracee)
    → ((f x).as_ptracee.ptracer ≡ x.as_ptracee.ptracer)
      × ((f x).as_ptracee.is_zombie ≡ x.as_ptracee.is_zombie)
      × ((f x).as_ptracer.zombies ≡ x.as_ptracer.zombies)
      × ((f x).as_ptracer.nb_ptracees ≡ x.as_ptracer.nb_ptracees)

pub count-same :
    (f g : ℕ → Tracee) (p : ℕ) (l : List ℕ)
    → ((b : ℕ) → (f b).as_ptracee.ptracer ≡ (g b).as_ptracee.ptracer)
    → count f p l ≡ count g p l
unfolding count
count-same f g p [] e = refl
count-same f g p (b ∷ l) e = rw (e b, count-same f g p l e) refl

pub modify-IsCounted :
    (t : Table) (a : ℕ) (f : Tracee → Tracee) → IsBlind f → IsCounted t → IsCounted (modify t a f)
modify-IsCounted t a f blind c =
    let u = modify t a f in
    let ptracers : (b : ℕ) → (u.tracee b).as_ptracee.ptracer ≡ (t.tracee b).as_ptracee.ptracer =
      λ b. ground (arith, ==_iff b a, (blind (t.tracee a)).0) in
    let zombie : (b : ℕ) → (u.tracee b).as_ptracee.is_zombie ≡ (t.tracee b).as_ptracee.is_zombie =
      λ b. ground (arith, ==_iff b a, (blind (t.tracee a)).1) in
    let zombies : (b : ℕ) → (u.tracee b).as_ptracer.zombies ≡ (t.tracee b).as_ptracer.zombies =
      λ b. ground (arith, ==_iff b a, (blind (t.tracee a)).2) in
    let counts : (b : ℕ)
        → (u.tracee b).as_ptracer.nb_ptracees ≡ (t.tracee b).as_ptracer.nb_ptracees =
      λ b. ground (arith, ==_iff b a, (blind (t.tracee a)).3) in
    record {
      distinct = c.distinct;
      alive = λ b i. zombie b ∙ c.alive b i;
      dead = λ p z i. zombie z ∙ c.dead p z (subst (λ l. member z l ≡ true) (zombies p) i);
      owned = λ p z i. ptracers z ∙ c.owned p z (subst (λ l. member z l ≡ true) (zombies p) i);
      once = λ p. subst IsDistinct (sym (zombies p)) (c.once p);
      counted = λ p.
          counts p
          ∙ c.counted p
          ∙ sym (
              ap (λ n. n + length (t.tracee p).as_ptracer.zombies)
                (count-same u.tracee t.tracee p t.tracees ptracers))
          ∙ ap (λ l. count u.tracee p t.tracees + length l) (sym (zombies p));
    }

-- The assertion of detach_from_ptracer.
pub count-pos :
    (tracee : ℕ → Tracee) (p a : ℕ) (l : List ℕ)
    → member a l ≡ true
    → (tracee a).as_ptracee.ptracer ≡ some p
    → 0 < count tracee p l
unfolding count
count-pos tracee p a [] i e = cc
count-pos tracee p a (b ∷ l) i e = elim (Bool-cases (a == b)) [
  | inl q ↦
      let e' : (tracee b).as_ptracee.ptracer ≡ some p =
        subst (λ c. (tracee c).as_ptracee.ptracer ≡ some p) ((==_iff a b).0 q) e in
      rw (e', ==_refl p) (omega arith)
  | inr q ↦ omega (arith, count-pos tracee p a l (ground (arith, i, q)) e)
]

-- What is needed of a change of the bond of a live tracee with `p`.
pub record IsBond (t : Table) (a p : ℕ) (g : Tracee → Tracee) (f : ℕ → ℕ) : Type 0 where
  pub there : member a t.tracees ≡ true
  pub same_tracer : (x : Tracee) → (g x).as_ptracer ≡ x.as_ptracer
  pub living : (g (t.tracee a)).as_ptracee.is_zombie ≡ false
  pub adjusted :
      f (t.tracee p).as_ptracer.nb_ptracees + one (t.tracee a).as_ptracee.ptracer p
      ≡ (t.tracee p).as_ptracer.nb_ptracees + one (g (t.tracee a)).as_ptracee.ptracer p
  pub others :
      (q : ℕ)
      → q ≢ p
      → one (t.tracee a).as_ptracee.ptracer q ≡ one (g (t.tracee a)).as_ptracee.ptracer q

module _ (t : Table) (a p : ℕ) (g : Tracee → Tracee) (f : ℕ → ℕ) (b : IsBond t a p g f)
    (c : IsCounted t) where
  abbrev pub bonded : Table
  bonded = modify (modify t a g) p (set_count f)

  same_as_ptracee : (q : ℕ) → (bonded.tracee q).as_ptracee ≡ ((modify t a g).tracee q).as_ptracee
  same_as_ptracee q = ground (arith, ==_iff q p)

  bonded-zombies : (q : ℕ) → (bonded.tracee q).as_ptracer.zombies ≡ (t.tracee q).as_ptracer.zombies
  bonded-zombies q =
      ground (arith, ==_iff q p, ==_iff q a, ap (λ x. x.zombies) (b.same_tracer (t.tracee a)))

  bonded-number :
      (q : ℕ)
      → (bonded.tracee q).as_ptracer.nb_ptracees ≡ (
          if q == p
          then f (t.tracee p).as_ptracer.nb_ptracees
          else (t.tracee q).as_ptracer.nb_ptracees)
  bonded-number q = ground (
    arith,
    ==_iff q p,
    ==_iff q a,
    ==_iff p a,
    ap (λ x. x.nb_ptracees) (b.same_tracer (t.tracee a)),
  )

  bonded-count :
      (q : ℕ)
      → count bonded.tracee q t.tracees + one (t.tracee a).as_ptracee.ptracer q
        ≡ count t.tracee q t.tracees + one (g (t.tracee a)).as_ptracee.ptracer q
  bonded-count q =
      ap (λ n. n + one (t.tracee a).as_ptracee.ptracer q)
        (count-same bonded.tracee (modify t a g).tracee q t.tracees
          (λ d. ap (λ x. x.ptracer) (same_as_ptracee d)))
      ∙ ground (arith, count-update t.tracee q a (g (t.tracee a)) t.tracees c.distinct, b.there)

  bonded-counted :
      (q : ℕ)
      → (bonded.tracee q).as_ptracer.nb_ptracees
        ≡ count bonded.tracee q t.tracees + length (bonded.tracee q).as_ptracer.zombies
  bonded-counted q =
      bonded-number q
      ∙ ground (
        arith,
        ==_iff q p,
        bonded-count q,
        c.counted q,
        b.adjusted,
        b.others q,
        ap length (bonded-zombies q),
      )

  zombie-after :
      (z : ℕ)
      → (bonded.tracee z).as_ptracee.is_zombie
        ≡ (if z == a then false else (t.tracee z).as_ptracee.is_zombie)
  zombie-after z = ap (λ x. x.is_zombie) (same_as_ptracee z) ∙ ground (arith, ==_iff z a, b.living)

  pub bond-IsCounted : IsCounted bonded
  bond-IsCounted = record {
    distinct = c.distinct;
    alive = λ d i. zombie-after d ∙ ground (arith, c.alive d i);
    dead = λ q z i.
        let i' = subst (λ l. member z l ≡ true) (bonded-zombies q) i in
        zombie-after z ∙ ground (arith, ==_iff z a, c.dead q z i', c.alive a b.there);
    owned = λ q z i.
        let i' = subst (λ l. member z l ≡ true) (bonded-zombies q) i in
        ap (λ x. x.ptracer) (same_as_ptracee z)
        ∙ ground (arith, ==_iff z a, c.dead q z i', c.alive a b.there, c.owned q z i');
    once = λ q. subst IsDistinct (sym (bonded-zombies q)) (c.once q);
    counted = bonded-counted;
  }
