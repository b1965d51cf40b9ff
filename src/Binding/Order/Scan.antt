-- ===== src/Binding/Order/Scan.antt =====
-- The loop of `insort_binding`, as two plain searches: the first binding of the same place, and
-- the last one that lies inside the new binding.
use doki_proot.Prelude.{
  ℕ, suc, ◌+◌, ◌≡◌, refl, Bool, false, Option, none, some, List, [], ◌∷◌, arith, if◌then◌else◌,
}
use doki_proot.Binding.{Side, guest, host, pending, Binding, is_equal, is_inside}
use doki_proot.Binding.Insort.{Spot, insert_at, replace, finish, compare_bindings, scan}

unfoldable pub same_place : Side → Binding → Binding → Bool
unfolding is_equal
same_place host b c = false
same_place guest b c = is_equal (compare_bindings guest b c)
same_place pending b c = is_equal (compare_bindings pending b c)

pub data Found : Type 0 where
  nothing : Found
  at : ℕ → Binding → Found

abbrev later : Found → Found
later nothing = nothing
later (at k b) = at (suc k) b

unfoldable pub first_equal : Side → Binding → List Binding → Found
unfolding same_place
first_equal side b [] = nothing
first_equal side b (c ∷ l) = if same_place side b c then at 0 c else later (first_equal side b l)

unfoldable pub last_inside : Side → Binding → List Binding → Option ℕ
unfolding is_inside
last_inside side b [] = none
last_inside side b (c ∷ l) = elim (last_inside side b l) [
  | some k ↦ some (suc k)
  | none ↦ if is_inside (compare_bindings side b c) then some 0 else none
]

unfoldable pub outcome : ℕ → Option ℕ → Option ℕ → Found → Option ℕ → Spot
unfolding finish
outcome i previous next (at k c) l = replace (i + k) c
outcome i previous next nothing (some k) = insert_at (suc (i + k))
outcome i previous next nothing none = finish previous next

pub scan-outcome :
    (side : Side) (b : Binding) (i : ℕ) (previous : Option ℕ) (n : ℕ) (l : List Binding)
    → scan side b i previous (some n) l
      ≡ outcome i previous (some n) (first_equal side b l) (last_inside side b l)
unfolding scan outcome first_equal last_inside
scan-outcome side b i previous n [] = refl
scan-outcome side b i previous n (c ∷ l) =
    ground
      (arith, scan-outcome side b (suc i) (some i) n l, scan-outcome side b (suc i) previous n l)
