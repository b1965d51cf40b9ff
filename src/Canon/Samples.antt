-- ===== src/Canon/Samples.antt =====
-- Tests of `canonicalize` (proot/src/path/canon.c) on a small guest, and the witnesses of the
-- theorems about it.
use doki_proot.Prelude.{
  out_of_fuel, ◌≢◌, ◌≡◌, refl, true, false, none, some, [], ◌∷◌, codes, str_eq, if◌then◌else◌, ok,
  fail, e_loop,
}
use doki_proot.Path.Compare.{compare_paths, compare_paths2}
use doki_proot.Binding.{Bindings, Binding, substitute_binding}
use doki_proot.Path.Join.{join2}
use doki_proot.Canon.Component.{next_component}
use doki_proot.Detranslate.{detranslate_path, default}
use doki_proot.Canon.{
  raced, substitute_binding_stat, Host, symlink, directory, found, canonicalize_path,
}
use doki_proot.Canon.Ends.{Settles, canonicalize_path-Ends}

-- A host whose only symlinks are /usr/link, which points to "../lib/./x", and /loop, which points
-- to itself.
abbrev small_host : Host
small_host = record {
  lstat = λ p. found (
      if str_eq p (codes "/usr/link")
      then symlink
      else if str_eq p (codes "/loop")
      then symlink
      else directory);
  lstat_again = λ p. found symlink;
  readlink = λ p. some (if str_eq p (codes "/loop") then codes "/loop" else codes "../lib/./x");
  skip_access = λ p. false;
  notify_host_path = λ p is_final. ok p;
  readlink_proc = λ base component c. default;
}

-- The root alone, as in `-r /`.
abbrev root_binding : Binding
root_binding = record {
  address = 1;
  host_path = record { path = codes "/"; cached_length = 1 };
  guest_path = record { path = codes "/"; cached_length = 1 };
  need_substitution = false;
}

abbrev no_bindings : Bindings
no_bindings = record {
  guest_list = some (root_binding ∷ []);
  host_list = some (root_binding ∷ []);
  pending_list = none;
}

loops : canonicalize_path small_host no_bindings (codes "/loop") true (codes "/") ≡ fail e_loop
unfolding canonicalize_path str_eq next_component join2 substitute_binding_stat substitute_binding
    compare_paths2 compare_paths detranslate_path
loops = refl

small_host-Settles : Settles small_host
unfolding raced
small_host-Settles = record {
  settled = λ p. refl;
  notify = λ p b e. cc;
  emulation = λ base component c e. cc;
}

canonicalize_path-Ends_example :
    canonicalize_path small_host no_bindings (codes "/loop") true (codes "/") ≢ fail out_of_fuel
canonicalize_path-Ends_example =
    canonicalize_path-Ends small_host no_bindings (codes "/loop") (codes "/") true
      small_host-Settles
