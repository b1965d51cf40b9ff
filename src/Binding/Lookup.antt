-- ===== src/Binding/Lookup.antt =====
-- `get_binding` finds the deepest binding that holds a path, and `substitute_binding` moves the
-- path along it.
use doki_proot.Prelude.{
  ◌≡◌, ◌<◌, refl, sym, ◌∙◌, subst, inl, inr, ◌↔◌, Bool, true, false, none, some, List, [], ◌∷◌,
  Bytes, All, length, arith, Bool-cases,
}
use mathlib.Core.Bool.{false≢true}
use mathlib.Core.List.{Mem, mem-cons_self, mem-cons_of_mem}
use doki_proot.Path.Compare.{compare_paths2}
use doki_proot.Path.Compare.Relate.{Within, Within-linear}
use doki_proot.Path.Compare.Laws.{IsText, strip}
use doki_proot.Binding.{
  Side, guest, host, Binding, Bindings, head, ref, find_binding, get_binding, false_positive,
  is_inside,
}
use doki_proot.Binding.Keys.{IsSound, key, ref-IsSized, compare_sized, Inside, is_inside-relate}
use doki_proot.Binding.Order.{Apart, IsOrdered}
use doki_proot.Binding.Preserve.{IsWellFormed}

-- The binding holds the path: it is the path's place or a directory above it.
abbrev pub Holds : Side → Bytes → Binding → Type 0
Holds side path b = Inside (key side b) (strip path)

-- A linked binding that holds the path, and lies inside every other that does.
pub record IsDeepest (side : Side) (path : Bytes) (l : List Binding) (b : Binding) : Type 0 where
  pub listed : Mem b l
  pub holds : Holds side path b
  pub deepest : All (λ c. Holds side path c → Inside (key side c) (key side b)) l

-- The test of the loop.
abbrev test : Side → Bytes → Binding → Bool
test side path b =
    is_inside (compare_paths2 (ref side b).path (ref side b).cached_length path (length path))

module _ (side : Side) (path : Bytes) (t : IsText path) (n : 0 < length path) where
  test_iff : (b : Binding) → IsSound b → (test side path b ≡ true) ↔ Holds side path b
  unfolding key
  test_iff b s =
      rw (compare_sized (ref side b) path (ref-IsSized side b s) t n)
        (is_inside-relate (strip (ref side b).path) (strip path))

  -- Of two directories above a path the one that is not below the other is above it.
  deeper :
      (b c : Binding)
      → Apart side b c
      → Holds side path b
      → Holds side path c
      → Inside (key side c) (key side b)
  deeper b c a (inl e) (inl f) = inl (f ∙ sym e)
  deeper b c a (inl e) (inr f) = inr (subst (Within (key side c)) (sym e) f)
  deeper b c a (inr e) (inl f) = absurd (a.0 (subst (Within (key side b)) (sym f) e))
  deeper b c a (inr e) (inr f) = elim (Within-linear (key side b) (key side c) (strip path) e f) [
    | inl same ↦ inl (sym same)
    | inr (inl below) ↦ absurd (a.0 below)
    | inr (inr above) ↦ inr above
  ]

  All-deeper :
      (b : Binding) (l : List Binding)
      → All (Apart side b) l
      → Holds side path b
      → All (λ c. Holds side path c → Inside (key side c) (key side b)) l
  All-deeper b [] a h = tt
  All-deeper b (c ∷ l) a h = (deeper b c a.0 h, All-deeper b l a.1 h)

  find_binding-some :
      (l : List Binding) (b : Binding)
      → All IsSound l
      → IsOrdered side l
      → find_binding side false path l ≡ some b
      → IsDeepest side path l b
  unfolding find_binding
  find_binding-some [] b s o h = cc
  find_binding-some (c ∷ l) b s o h = elim (Bool-cases (test side path c)) [
    | inl e ↦
        let same : c ≡ b = ground arith in
        let holds : Holds side path c = (test_iff c s.0).0 e in
        rw (← same) (record {
          listed = mem-cons_self;
          holds = holds;
          deepest = (λ _. inl refl, All-deeper c l o.0 holds);
        })
    | inr e ↦
        let d = find_binding-some l b s.1 o.1 (ground arith) in
        record {
          listed = mem-cons_of_mem c d.listed;
          holds = d.holds;
          deepest = (λ h'. absurd (false≢true (sym e ∙ (test_iff c s.0).1 h')), d.deepest);
        }
  ]

  find_binding-none :
      (l : List Binding)
      → All IsSound l
      → find_binding side false path l ≡ none
      → All (λ c. ¬ Holds side path c) l
  unfolding find_binding
  find_binding-none [] s h = tt
  find_binding-none (c ∷ l) s h = elim (Bool-cases (test side path c)) [
    | inl e ↦ cc
    | inr e ↦ (
      λ h'. absurd (false≢true (sym e ∙ (test_iff c s.0).1 h')),
      find_binding-none l s.1 (ground arith),
    )
  ]

-- A search that skips what it finds finds nothing.
find_binding-skip :
    (side : Side) (path : Bytes) (l : List Binding) → find_binding side true path l ≡ none
unfolding find_binding
find_binding-skip side path [] = refl
find_binding-skip side path (c ∷ l) = ground (arith, find_binding-skip side path l)

module _ (fs : Bindings) (w : IsWellFormed fs) (path : Bytes) (t : IsText path)
    (n : 0 < length path) where
  -- The binding found for a guest path is linked on the guest side, holds the path, and lies
  -- inside every other binding that holds it.
  pub get_binding-IsDeepest :
      (b : Binding) → get_binding fs guest path ≡ some b → IsDeepest guest path (head fs guest) b
  unfolding get_binding
  get_binding-IsDeepest b h =
      find_binding-some guest path t n (head fs guest) b w.guest_good.0 w.guest_good.1 h

  -- Nothing is found for a guest path only if no binding of the guest side holds it.
  pub get_binding-none :
      get_binding fs guest path ≡ none → All (λ c. ¬ Holds guest path c) (head fs guest)
  unfolding get_binding
  get_binding-none h = find_binding-none guest path t n (head fs guest) w.guest_good.0 h

  -- In well-formed lists of bindings, for a non-empty host path with no NUL byte: the binding
  -- found is linked on the host side, holds the path, and lies inside every other binding that
  -- holds it, and the path is no false positive.
  pub get_binding_host :
      (b : Binding)
      → get_binding fs host path ≡ some b
      → IsDeepest host path (head fs host) b × (false_positive fs host path ≡ false)
  unfolding get_binding
  get_binding_host b h = elim (Bool-cases (false_positive fs host path)) [
    | inl e ↦ cc (find_binding-skip host path (head fs host))
    | inr e ↦ (find_binding-some host path t n (head fs host) b w.host_good.0 w.host_good.1 (cc), e)
  ]
