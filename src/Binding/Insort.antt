-- ===== src/Binding/Insort.antt =====
-- `insort_binding`, `insort_binding2`, `insort_binding3` and `remove_binding_from_all_lists` of
-- proot/src/path/binding.c. The pointers `previous` and `next` of the loop are positions in the
-- list; a binding is unlinked by its address.
use doki_proot.Prelude.{
  ℕ, suc, false, not, Option, none, some, List, [], ◌∷◌, ◌++◌, Bytes, length, take, drop, ◌==◌,
  if◌then◌else◌,
}
use doki_proot.Path.Compare.{
  Comparison, paths_are_equal, path1_is_prefix, path2_is_prefix, paths_are_not_comparable,
  compare_paths, compare_paths2,
}
use doki_proot.Binding.{
  Side, guest, host, pending, Binding, Bindings, head, set_head, ref, is_equal,
}

-- Unlinking; a list that does not link the binding stays as it is.
unfoldable pub unlink : ℕ → List Binding → List Binding
unlink a [] = []
unlink a (b ∷ l) = let rest = unlink a l in if b.address == a then rest else b ∷ rest

unfoldable pub unlink_from : ℕ → Option (List Binding) → Option (List Binding)
unfolding unlink
unlink_from a none = none
unlink_from a (some l) = some (unlink a l)

unfoldable pub remove_binding_from_all_lists : Bindings → Binding → Bindings
unfolding unlink_from
remove_binding_from_all_lists fs b = record {
  pending_list = unlink_from b.address fs.pending_list;
  guest_list = unlink_from b.address fs.guest_list;
  host_list = unlink_from b.address fs.host_list;
}

-- What the loop decides: the binding goes to a position, or takes the place of another.
pub data Spot : Type 0 where
  insert_at : ℕ → Spot
  replace : ℕ → Binding → Spot

-- After the loop: after `previous`, else before `next`, else at the head.
unfoldable pub finish : Option ℕ → Option ℕ → Spot
finish (some p) next = insert_at (suc p)
finish none (some n) = insert_at n
finish none none = insert_at 0

-- if (next == HEAD) next = iterator
unfoldable pub first_of_next : Option ℕ → ℕ → Option ℕ
first_of_next none i = some i
first_of_next (some n) i = some n

unfoldable pub compare_bindings : Side → Binding → Binding → Comparison
unfolding ref
compare_bindings side b c =
    compare_paths2 (ref side b).path (ref side b).cached_length (ref side c).path
      (ref side c).cached_length

unfoldable pub scan : Side → Binding → ℕ → Option ℕ → Option ℕ → List Binding → Spot
unfolding finish first_of_next
scan side b i previous next [] = finish previous next
scan side b i previous next (iterator ∷ rest) = elim (compare_bindings side b iterator) [
  | paths_are_equal ↦ elim side [
    | host ↦ scan side b (suc i) (some i) next rest
    | guest ↦ replace i iterator
    | pending ↦ replace i iterator
  ]
  | path1_is_prefix ↦ scan side b (suc i) (some i) next rest
  | path2_is_prefix ↦ scan side b (suc i) previous (first_of_next next i) rest
  | paths_are_not_comparable ↦ scan side b (suc i) previous next rest
]

-- CIRCLEQ_FIRST, which is the head itself for an empty list.
unfoldable pub first : List Binding → Option ℕ
first [] = none
first (b ∷ l) = some 0

abbrev pub insert_before : ℕ → Binding → List Binding → List Binding
insert_before n b l = take n l ++ b ∷ drop n l

-- What follows the loop, and the replacement inside it.
unfoldable pub apply_spot : Bindings → Side → Binding → Spot → Bindings
unfolding head set_head remove_binding_from_all_lists
apply_spot fs side b (insert_at n) = set_head fs side (insert_before n b (head fs side))
apply_spot fs side b (replace i iterator) =
    remove_binding_from_all_lists (set_head fs side (insert_before (suc i) b (head fs side)))
      iterator

unfoldable pub insort_binding : Bindings → Side → Binding → Bindings
unfolding scan first apply_spot
insort_binding fs side b =
    apply_spot fs side b (scan side b 0 none (first (head fs side)) (head fs side))

unfoldable pub insort_binding2 : Bindings → Binding → Bindings
unfolding insort_binding is_equal
insort_binding2 fs b =
    let b' = record b {
      need_substitution = not (is_equal (compare_paths b.host_path.path b.guest_path.path));
    } in
    insort_binding (insort_binding fs guest b') host b'

-- The address is that of the new allocation.
unfoldable pub insort_binding3 : Bindings → ℕ → Bytes → Bytes → Bindings
unfolding insort_binding2
insort_binding3 fs address host_path guest_path = insort_binding2 fs (record {
  address = address;
  host_path = record { path = host_path; cached_length = length host_path };
  guest_path = record { path = guest_path; cached_length = length guest_path };
  need_substitution = false;
})
