-- ===== src/Ptrace/Count/Zombies.antt =====
-- The counters of ptracees when a zombie is taken off its ptracer's list, of remove_zombie in
-- proot/src/tracee/tracee.c.
use doki_proot.Prelude.{
  ℕ, ◌+◌, ◌-◌, ◌≡◌, sym, ap, ◌∙◌, subst, ◌≢◌, true, false, none, List, [], ◌∷◌, ◌==◌, if◌then◌else◌,
  arith, ==_iff, ==_refl, length, inl, inr, Bool-cases,
}
use doki_proot.Ptrace.{Table, update, set_ptracer, detach_from_ptracer}
use doki_proot.Ptrace.Found.{member}
use doki_proot.Ptrace.Wait.{free_zombie, remove_zombie}
use doki_proot.Ptrace.Count.{IsCounted, IsDistinct, count, count-same, count-update}

length-remove : (z : ℕ) (l : List ℕ) → member z l ≡ true → length (remove_zombie z l) + 1 ≡ length l
unfolding remove_zombie
length-remove z [] i = cc
length-remove z (a ∷ l) i = ground (arith, ==_iff z a, ==_iff a z, length-remove z l)

member-remove :
    (z w : ℕ) (l : List ℕ)
    → IsDistinct l
    → member w (remove_zombie z l) ≡ (if w == z then false else member w l)
unfolding remove_zombie
member-remove z w [] d = ground arith
member-remove z w (a ∷ l) d =
    ground (arith, ==_iff w z, ==_iff w a, ==_iff a z, member-remove z w l d.1, d.0)

IsDistinct-remove : (z : ℕ) (l : List ℕ) → IsDistinct l → IsDistinct (remove_zombie z l)
unfolding remove_zombie
IsDistinct-remove z [] d = tt
IsDistinct-remove z (a ∷ l) d = elim (Bool-cases (a == z)) [
  | inl e ↦ rw e d.1
  | inr e ↦ rw e (member-remove z a l d.1 ∙ ground (arith, d.0), IsDistinct-remove z l d.1)
]

module _ (t : Table) (p z : ℕ) (c : IsCounted t)
    (i : member z (t.tracee p).as_ptracer.zombies ≡ true) where
  abbrev pub freed : Table
  freed = free_zombie (detach_from_ptracer t z p) p z

  absent : member z t.tracees ≡ false
  absent = elim (Bool-cases (member z t.tracees)) [
    | inl there ↦ absurd (ground (arith, c.alive z there, c.dead p z i))
    | inr gone ↦ gone
  ]

  freed-ptracee :
      (q : ℕ)
      → (freed.tracee q).as_ptracee ≡ (
          if q == z
          then record (t.tracee z).as_ptracee { ptracer = none }
          else (t.tracee q).as_ptracee)
  unfolding detach_from_ptracer
  freed-ptracee q = ground (arith, ==_iff q p, ==_iff q z, ==_refl p, ==_refl z)

  freed-zombies :
      (q : ℕ)
      → (freed.tracee q).as_ptracer.zombies ≡ (
          if q == p
          then remove_zombie z (t.tracee p).as_ptracer.zombies
          else (t.tracee q).as_ptracer.zombies)
  unfolding detach_from_ptracer
  freed-zombies q = ground (arith, ==_iff q p, ==_iff q z, ==_iff p z, ==_refl p)

  freed-number :
      (q : ℕ)
      → (freed.tracee q).as_ptracer.nb_ptracees ≡ (
          if q == p
          then (t.tracee p).as_ptracer.nb_ptracees - 1
          else (t.tracee q).as_ptracer.nb_ptracees)
  unfolding detach_from_ptracer
  freed-number q = ground (arith, ==_iff q p, ==_iff q z, ==_iff p z, ==_refl p)

  freed-count : (q : ℕ) → count freed.tracee q t.tracees ≡ count t.tracee q t.tracees
  freed-count q =
      let x = set_ptracer none (t.tracee z) in
      count-same freed.tracee (update t.tracee z x) q t.tracees
        (λ b. ap (λ y. y.ptracer) (freed-ptracee b) ∙ ground (arith, ==_iff b z))
      ∙ ground (arith, count-update t.tracee q z x t.tracees c.distinct, absent)

  -- What is left on the lists of zombies.
  left_over :
      (q w : ℕ)
      → member w (freed.tracee q).as_ptracer.zombies ≡ true
      → (member w (t.tracee q).as_ptracer.zombies ≡ true) × (w ≢ z)
  left_over q w j =
      let j' = subst (λ l. member w l ≡ true) (freed-zombies q) j in
      elim (Bool-cases (q == p)) [
        | inl e ↦
            let e' = (==_iff q p).0 e in
            rw e' (
              ground (
                arith,
                e,
                j',
                member-remove z w (t.tracee p).as_ptracer.zombies (c.once p),
                ==_iff w z,
              ))
        | inr e ↦
            let k : member w (t.tracee q).as_ptracer.zombies ≡ true = ground (arith, e, j') in
            (
              k,
              λ same. absurd (
                  ground (
                    arith,
                    e,
                    ==_iff q p,
                    c.owned p z i,
                    c.owned q z
                        (subst (λ y. member y (t.tracee q).as_ptracer.zombies ≡ true) same k),
                  )),
            )
      ]

  freed-zombie : (w : ℕ) → (freed.tracee w).as_ptracee.is_zombie ≡ (t.tracee w).as_ptracee.is_zombie
  freed-zombie w = ap (λ y. y.is_zombie) (freed-ptracee w) ∙ ground (arith, ==_iff w z)

  pub freed-IsCounted : IsCounted freed
  unfolding detach_from_ptracer
  freed-IsCounted = record {
    distinct = c.distinct;
    alive = λ a j. freed-zombie a ∙ c.alive a j;
    dead = λ q w j. freed-zombie w ∙ c.dead q w (left_over q w j).0;
    owned = λ q w j.
        let (j', other) = left_over q w j in
        ap (λ y. y.ptracer) (freed-ptracee w) ∙ ground (arith, ==_iff w z, c.owned q w j', other);
    once = λ q. subst IsDistinct (sym (freed-zombies q)) (elim (Bool-cases (q == p)) [
      | inl e ↦ rw e (IsDistinct-remove z (t.tracee p).as_ptracer.zombies (c.once p))
      | inr e ↦ rw e (c.once q)
    ]);
    counted = λ q.
        freed-number q
        ∙ ground (
          arith,
          ==_iff q p,
          c.counted q,
          freed-count q,
          ap length (freed-zombies q),
          length-remove z (t.tracee p).as_ptracer.zombies i,
        );
  }
