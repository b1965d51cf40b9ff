-- ===== src/Binding/Samples.antt =====
-- The bindings of `-b /bin2:/foo/bin -b /bar:/foo -r /rootfs`, as instances of the theorems.
use doki_proot.Prelude.{◌≡◌, refl, inl, inr, true, false, none, some, [], codes, arith, ok, ◌>>=◌}
use doki_proot.Binding.{
  guest, host, Binding, Bindings, head, get_binding, get_path_binding, substitute_binding,
  false_positive,
}
use doki_proot.Path.Compare.{compare_paths, compare_paths2}
use doki_proot.Binding.Insort.{insort_binding3, compare_bindings}
use doki_proot.Binding.Preserve.{IsWellFormed, insort_binding3-IsWellFormed}
use doki_proot.Binding.Lookup.{IsDeepest, get_binding-IsDeepest, get_binding_host}
use doki_proot.Binding.Substitute.{IsMove, substitute_binding_back}

abbrev empty : Bindings
empty = record { pending_list = none; guest_list = some []; host_list = some [] }

abbrev rooted : Bindings
rooted = insort_binding3 empty 1 (codes "/rootfs") (codes "/")

abbrev with_foo : Bindings
with_foo = insort_binding3 rooted 2 (codes "/bar") (codes "/foo")

abbrev full : Bindings
full = insort_binding3 with_foo 3 (codes "/bin2") (codes "/foo/bin")

empty-IsWellFormed : IsWellFormed empty
unfolding head
empty-IsWellFormed = record { guest_good = (tt, tt); host_good = (tt, tt) }

rooted-IsWellFormed : IsWellFormed rooted
rooted-IsWellFormed =
    insort_binding3-IsWellFormed empty 1 (codes "/rootfs") (codes "/") empty-IsWellFormed
      (omega arith) (omega arith) (omega arith) (omega arith)

with_foo-IsWellFormed : IsWellFormed with_foo
with_foo-IsWellFormed =
    insort_binding3-IsWellFormed rooted 2 (codes "/bar") (codes "/foo") rooted-IsWellFormed
      (omega arith) (omega arith) (omega arith) (omega arith)

insort_binding3-IsWellFormed_example : IsWellFormed full
insort_binding3-IsWellFormed_example =
    insort_binding3-IsWellFormed with_foo 3 (codes "/bin2") (codes "/foo/bin") with_foo-IsWellFormed
      (omega arith) (omega arith) (omega arith) (omega arith)

abbrev foo : Binding
foo = record {
  address = 2;
  host_path = record { path = codes "/bar"; cached_length = 4 };
  guest_path = record { path = codes "/foo"; cached_length = 4 };
  need_substitution = true;
}

found_foo : get_binding full guest (codes "/foo/lib") ≡ some foo
unfolding get_binding insort_binding3 compare_bindings compare_paths compare_paths2
found_foo = refl

get_binding-IsDeepest_example : IsDeepest guest (codes "/foo/lib") (head full guest) foo
get_binding-IsDeepest_example =
    get_binding-IsDeepest full
      (insort_binding3-IsWellFormed with_foo 3 (codes "/bin2") (codes "/foo/bin")
        with_foo-IsWellFormed (omega arith) (omega arith) (omega arith) (omega arith))
      (codes "/foo/lib") (omega arith) (omega arith) foo found_foo

nested : get_path_binding full guest (codes "/foo/bin/ls") ≡ some (codes "/foo/bin")
unfolding get_path_binding insort_binding3 compare_bindings compare_paths compare_paths2
nested = refl

none_found : get_binding empty guest (codes "/foo") ≡ none
unfolding get_binding
none_found = refl

found_bar : get_binding with_foo host (codes "/bar/lib") ≡ some foo
unfolding get_binding insort_binding3 compare_bindings compare_paths compare_paths2
found_bar = refl

get_binding_host_example :
    IsDeepest host (codes "/bar/lib") (head with_foo host) foo
    × (false_positive with_foo host (codes "/bar/lib") ≡ false)
get_binding_host_example =
    get_binding_host with_foo with_foo-IsWellFormed (codes "/bar/lib") (omega arith) (omega arith)
      foo found_bar

foo-IsMove : IsMove foo (codes "/lib")
foo-IsMove = record {
  sound = record {
    host_sized = record { text = omega arith; full = omega arith; sized = refl };
    guest_sized = record { text = omega arith; full = omega arith; sized = refl };
  };
  asymmetric = refl;
  guest_dir = inr (omega arith);
  host_dir = inr (omega arith);
  proper = inl (omega arith);
  rest_fits = omega arith;
  guest_fits = omega arith;
  host_fits = omega arith;
}

found_foo_again : get_binding with_foo guest (codes "/foo/lib") ≡ some foo
unfolding get_binding insort_binding3 compare_bindings compare_paths compare_paths2
found_foo_again = refl

substitute_binding_back_example :
    (substitute_binding with_foo guest (codes "/foo/lib") >>= λ r.
    substitute_binding with_foo host r.1)
    ≡ ok (true, codes "/foo/lib")
substitute_binding_back_example =
    substitute_binding_back with_foo foo (codes "/lib") foo-IsMove found_foo_again found_bar
