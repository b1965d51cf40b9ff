-- ===== src/Detranslate/Samples.antt =====
-- A guest in /rootfs, as an instance of the theorem on `detranslate_path`'s removal of the root
-- (proot/src/path/path.c).
use doki_proot.Prelude.{refl, true, none, some, [], ◌∷◌, codes, arith, inr}
use doki_proot.Path.Compare.{stripped_length}
use doki_proot.Path.Compare.Laws.{strip}
use doki_proot.Binding.{Binding, Bindings, root, belongs_to_guestfs}
use doki_proot.Detranslate.Root.{IsRemoved, remove_root-IsRemoved}

abbrev rootfs : Binding
rootfs = record {
  address = 1;
  host_path = record { path = codes "/rootfs"; cached_length = 7 };
  guest_path = record { path = codes "/"; cached_length = 1 };
  need_substitution = true;
}

abbrev guest_of : Bindings
guest_of = record {
  guest_list = some (rootfs ∷ []);
  host_list = some (rootfs ∷ []);
  pending_list = none;
}

remove_root-IsRemoved_example :
    IsRemoved guest_of true
      (codes "/rootfs/bin")
      (belongs_to_guestfs guest_of (codes "/rootfs/bin"))
unfolding root strip stripped_length
remove_root-IsRemoved_example =
    remove_root-IsRemoved guest_of true (codes "/rootfs/bin") (omega arith) (omega arith)
      (omega arith) (omega arith) (inr (omega arith, refl))
