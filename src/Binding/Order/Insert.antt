-- ===== src/Binding/Order/Insert.antt =====
-- Insertion into an ordered list of bindings, and replacement of the binding of the same place.
use doki_proot.Prelude.{
  ℕ, zero, suc, ◌≡◌, refl, sym, ◌∙◌, subst, ◌⊎◌, inl, inr, true, false, none, some, List, [], ◌∷◌,
  arith, All, All-map, Bool-cases, Option-cases, Bytes, ◌==◌, ==_refl,
}
use doki_proot.Path.Compare.{
  Comparison, paths_are_equal, path1_is_prefix, path2_is_prefix, paths_are_not_comparable,
}
use doki_proot.Path.Compare.Relate.{
  relate, Within, Within-trans, Within-irrefl, relate-equal→, relate_refl,
}
use doki_proot.Binding.{Side, guest, host, pending, Binding, is_equal, is_inside}
use doki_proot.Binding.Insort.{compare_bindings, unlink, insert_before}
use doki_proot.Binding.Keys.{IsSound, key, Inside, compare_bindings-relate, is_inside-relate}
use doki_proot.Binding.Order.{Distinct, Apart, IsOrdered}
use doki_proot.Binding.Order.Scan.{same_place, Found, nothing, at, first_equal, last_inside}

-- A property of the whole list passes to the list with one more binding.
pub All-insert_before {ℓ} :
    (P : Binding → Type ℓ) (n : ℕ) (b : Binding) (l : List Binding)
    → All P l
    → P b
    → All P (insert_before n b l)
All-insert_before P zero b l h p = (p, h)
All-insert_before P (suc n) b [] h p = (p, tt)
All-insert_before P (suc n) b (c ∷ l) h p = (h.0, All-insert_before P n b l h.1 p)

pub All-unlink {ℓ} :
    (P : Binding → Type ℓ) (a : ℕ) (l : List Binding) → All P l → All P (unlink a l)
unfolding unlink
All-unlink P a [] h = tt
All-unlink P a (c ∷ l) h = elim (Bool-cases (c.address == a)) [
  | inl e ↦ rw e (All-unlink P a l h.1)
  | inr e ↦ rw e (h.0, All-unlink P a l h.1)
]

pub unlink-IsOrdered :
    (side : Side) (a : ℕ) (l : List Binding) → IsOrdered side l → IsOrdered side (unlink a l)
unfolding unlink
unlink-IsOrdered side a [] h = tt
unlink-IsOrdered side a (c ∷ l) h = elim (Bool-cases (c.address == a)) [
  | inl e ↦ rw e (unlink-IsOrdered side a l h.1)
  | inr e ↦ rw e (All-unlink (Apart side c) a l h.0, unlink-IsOrdered side a l h.1)
]

equal_keys :
    (side : Side) (b c : Binding)
    → IsSound b
    → IsSound c
    → key side b ≡ key side c
    → is_equal (compare_bindings side b c) ≡ true
unfolding is_equal
equal_keys side b c sb sc e =
    rw (compare_bindings-relate side b c sb sc, e, relate_refl (key side c))

not_same_place :
    (side : Side) (b c : Binding)
    → IsSound b
    → IsSound c
    → same_place side b c ≡ false
    → Distinct side c b
unfolding same_place
not_same_place host b c sb sc h = tt
not_same_place guest b c sb sc h = λ e. cc (equal_keys guest b c sb sc (sym e))
not_same_place pending b c sb sc h = λ e. cc (equal_keys pending b c sb sc (sym e))

equal→ : (a b : Bytes) → is_equal (relate a b) ≡ true → a ≡ b
unfolding is_equal
equal→ a b h = go (relate a b) refl h
  where
    go : (c : Comparison) → relate a b ≡ c → is_equal c ≡ true → a ≡ b
    go paths_are_equal e h = relate-equal→ a b e
    go path1_is_prefix e h = cc
    go path2_is_prefix e h = cc
    go paths_are_not_comparable e h = cc

same_place→ :
    (side : Side) (b c : Binding)
    → IsSound b
    → IsSound c
    → same_place side b c ≡ true
    → key side b ≡ key side c
unfolding same_place
same_place→ host b c sb sc h = cc
same_place→ guest b c sb sc h =
    equal→ (key guest b) (key guest c) (cc (compare_bindings-relate guest b c sb sc))
same_place→ pending b c sb sc h =
    equal→ (key pending b) (key pending c) (cc (compare_bindings-relate pending b c sb sc))

-- The tests of the loop, read as relations of the keys.
module _ (side : Side) (b : Binding) (sb : IsSound b) where
  inside→ :
      (c : Binding)
      → IsSound c
      → is_inside (compare_bindings side b c) ≡ true
      → Inside (key side b) (key side c)
  inside→ c sc h =
      (is_inside-relate (key side b) (key side c)).0 (cc (compare_bindings-relate side b c sb sc))

  outside→ :
      (c : Binding)
      → IsSound c
      → is_inside (compare_bindings side b c) ≡ false
      → ¬ Inside (key side b) (key side c)
  outside→ c sc h k =
      let e = (is_inside-relate (key side b) (key side c)).1 k in
      cc (compare_bindings-relate side b c sb sc)

  last_inside-none :
      (l : List Binding)
      → All IsSound l
      → last_inside side b l ≡ none
      → All (λ c. ¬ Inside (key side b) (key side c)) l
  unfolding last_inside
  last_inside-none [] s h = tt
  last_inside-none (c ∷ l) s h =
      (outside→ c s.0 (ground arith), last_inside-none l s.1 (ground arith))

  last_inside-some {ℓ} :
      (P : Binding → Type ℓ) (l : List Binding) {k : ℕ}
      → All IsSound l
      → All P l
      → last_inside side b l ≡ some k
      → (c : Binding) × P c × Inside (key side b) (key side c)
  unfolding last_inside
  last_inside-some P [] s p h = cc
  last_inside-some P (c ∷ l) s p h = elim (Option-cases (last_inside side b l)) [
    | inl e ↦ (c, p.0, inside→ c s.0 (ground arith))
    | inr (k, e) ↦ last_inside-some P l s.1 p.1 e
  ]

-- A binding that does not lie inside the new one stands well behind it.
outside-Apart : (side : Side) (b c : Binding) → ¬ Inside (key side b) (key side c) → Apart side b c
outside-Apart host b c h = (λ w. h (inr w), tt)
outside-Apart guest b c h = (λ w. h (inr w), λ e. h (inl e))
outside-Apart pending b c h = (λ w. h (inr w), λ e. h (inl e))

-- What stands before something inside `b` is not above `b`.
not_above : (x b z : Bytes) → ¬ Within x z → Inside b z → ¬ Within x b
not_above x b z h (inl e) w = h (subst (Within x) e w)
not_above x b z h (inr i) w = h (Within-trans x b z w i)

Found-cases : (f : Found) → (f ≡ nothing) ⊎ ((k : ℕ) × (c : Binding) × (f ≡ at k c))
Found-cases nothing = inl refl
Found-cases (at k c) = inr (k, c, refl)

first_equal-nothing :
    (side : Side) (b c : Binding) (l : List Binding)
    → first_equal side b (c ∷ l) ≡ nothing
    → (same_place side b c ≡ false) × (first_equal side b l ≡ nothing)
unfolding first_equal
first_equal-nothing side b c l h = ground arith

module _ (side : Side) (b : Binding) (sb : IsSound b) where
  pub insert_head-IsOrdered :
      (l : List Binding)
      → All IsSound l
      → IsOrdered side l
      → last_inside side b l ≡ none
      → IsOrdered side (b ∷ l)
  insert_head-IsOrdered l s o h =
      (All-map _ _ l (outside-Apart side b) (last_inside-none side b sb l s h), o)

  pub insert-IsOrdered :
      (l : List Binding) (k : ℕ)
      → All IsSound l
      → IsOrdered side l
      → first_equal side b l ≡ nothing
      → last_inside side b l ≡ some k
      → IsOrdered side (insert_before (suc k) b l)
  unfolding last_inside
  insert-IsOrdered [] k s o n h = cc
  insert-IsOrdered (c ∷ l) k s o n h =
      let (sp, rest) = first_equal-nothing side b c l n in
      let d : Distinct side c b = not_same_place side b c sb s.0 sp in
      elim (Option-cases (last_inside side b l)) [
        | inl e ↦
            let zero_at : k ≡ 0 = ground arith in
            let below : Inside (key side b) (key side c) = inside→ side b sb c s.0 (ground arith) in
            rw zero_at (
              (
                (
                  not_above (key side c) (key side b) (key side c) (Within-irrefl (key side c))
                      below,
                  d,
                ),
                o.0,
              ),
              insert_head-IsOrdered l s.1 o.1 e,
            )
        | inr (j, e) ↦
            let suc_at : k ≡ suc j = ground arith in
            let (z, apart, below) = last_inside-some side b sb (Apart side c) l s.1 o.0 e in
            rw suc_at (
              All-insert_before (Apart side c) (suc j) b l o.0
                  (not_above (key side c) (key side b) (key side z) apart.0 below, d),
              insert-IsOrdered l j s.1 o.1 rest e,
            )
      ]

-- Two bindings of one place are apart from the same others.
Apart-left :
    (side : Side) (b c x : Binding) → key side b ≡ key side c → Apart side c x → Apart side b x
Apart-left host b c x e a = (λ w. a.0 (subst (λ t. Within t (key host x)) e w), tt)
Apart-left guest b c x e a =
    (λ w. a.0 (subst (λ t. Within t (key guest x)) e w), λ p. a.1 (sym e ∙ p))
Apart-left pending b c x e a =
    (λ w. a.0 (subst (λ t. Within t (key pending x)) e w), λ p. a.1 (sym e ∙ p))

Apart-right :
    (side : Side) (b c x : Binding) → key side b ≡ key side c → Apart side x c → Apart side x b
Apart-right host b c x e a = (λ w. a.0 (subst (Within (key host x)) e w), tt)
Apart-right guest b c x e a = (λ w. a.0 (subst (Within (key guest x)) e w), λ p. a.1 (p ∙ e))
Apart-right pending b c x e a = (λ w. a.0 (subst (Within (key pending x)) e w), λ p. a.1 (p ∙ e))

first_equal_cases :
    (side : Side) (b x : Binding) (l : List Binding) (k : ℕ) (c : Binding)
    → first_equal side b (x ∷ l) ≡ at k c
    → ((k ≡ 0) × (c ≡ x) × (same_place side b x ≡ true))
      ⊎ ((j : ℕ) × (k ≡ suc j) × (first_equal side b l ≡ at j c))
unfolding first_equal
first_equal_cases side b x l k c h = elim (Bool-cases (same_place side b x)) [
  | inl e ↦ inl (ground arith, ground arith, e)
  | inr e ↦ elim (Found-cases (first_equal side b l)) [
    | inl none_left ↦ cc
    | inr (j, y, f) ↦ inr (j, ground arith, ground arith)
  ]
]

unlink_self : (x : Binding) (l : List Binding) → unlink x.address (x ∷ l) ≡ unlink x.address l
unfolding unlink
unlink_self x l = rw (==_refl x.address)

unlink-cons-IsOrdered :
    (side : Side) (a : ℕ) (x : Binding) (l : List Binding)
    → IsOrdered side (x ∷ unlink a l)
    → IsOrdered side (unlink a (x ∷ l))
unfolding unlink
unlink-cons-IsOrdered side a x l h = elim (Bool-cases (x.address == a)) [
  | inl e ↦ rw e h.1
  | inr e ↦ rw e h
]

module _ (side : Side) (b : Binding) (sb : IsSound b) where
  first_equal-at {ℓ} :
      (P : Binding → Type ℓ) (l : List Binding) (k : ℕ) (c : Binding)
      → All IsSound l
      → All P l
      → first_equal side b l ≡ at k c
      → P c × (key side b ≡ key side c)
  first_equal-at P [] k c s p h = unfold first_equal in cc
  first_equal-at P (x ∷ l) k c s p h = elim (first_equal_cases side b x l k c h) [
    | inl (_, e, h) ↦ rw e (p.0, same_place→ side b x sb s.0 h)
    | inr (j, _, h) ↦ first_equal-at P l j c s.1 p.1 h
  ]

  pub replace-IsOrdered :
      (l : List Binding) (k : ℕ) (c : Binding)
      → All IsSound l
      → IsOrdered side l
      → first_equal side b l ≡ at k c
      → IsOrdered side (unlink c.address (insert_before (suc k) b l))
  replace-IsOrdered [] k c s o h = unfold first_equal in cc
  replace-IsOrdered (x ∷ l) k c s o h = elim (first_equal_cases side b x l k c h) [
    | inl (k0, e, same) ↦
        let eq = same_place→ side b x sb s.0 same in
        rw (k0, e, unlink_self)
          (unlink-IsOrdered side x.address (b ∷ l)
            (All-map (Apart side x) (Apart side b) l (λ y. Apart-left side b x y eq) o.0, o.1))
    | inr (j, kj, f) ↦
        let (apart, eq) = first_equal-at (Apart side x) l j c s.1 o.0 f in
        rw kj (
          unlink-cons-IsOrdered side c.address x (insert_before (suc j) b l) (
            All-unlink (Apart side x) c.address (insert_before (suc j) b l) (
                All-insert_before (Apart side x) (suc j) b l o.0 (Apart-right side b c x eq apart)),
            replace-IsOrdered l j c s.1 o.1 f,
          ))
  ]
