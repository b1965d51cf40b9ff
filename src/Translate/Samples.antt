-- ===== src/Translate/Samples.antt =====
-- Tests of translate_path and readlink_proc of proot/src/path, and the witnesses of the theorems
-- about them: a guest of directories alone, and a tracee 7 in /home.
use doki_proot.Prelude.{◌≡◌, refl, true, false, none, some, [], ◌∷◌, codes, ok, arith}
use doki_proot.Sysvipc.{pos}
use doki_proot.Path.Compare.{compare_paths, compare_paths2, path1_is_prefix}
use doki_proot.Binding.{Binding}
use doki_proot.Detranslate.{default, dont_canonicalize}
use doki_proot.Canon.{Host, found, directory}
use doki_proot.Canon.Names.{IsName, render}
use doki_proot.Translate.{Libc, Events, Caller, readlink_proc, readlink_below, readlink_fd}

abbrev sevens : Libc
sevens = record { atoi = λ s. pos 7; decimal = λ n. codes "7"; reads_number = λ s. true }

abbrev plain : Host
plain = record {
  lstat = λ p. found directory;
  lstat_again = λ p. found directory;
  readlink = λ p. some (codes "/srv");
  skip_access = λ p. false;
  notify_host_path = λ p is_final. ok p;
  readlink_proc = λ base component c. default;
}

abbrev root_binding : Binding
root_binding = record {
  address = 1;
  host_path = record { path = codes "/guest"; cached_length = 6 };
  guest_path = record { path = codes "/"; cached_length = 1 };
  need_substitution = true;
}

abbrev caller : Caller
caller = record {
  pid = pos 7;
  fs = record {
    guest_list = some (root_binding ∷ []);
    host_list = some (root_binding ∷ []);
    pending_list = none;
  };
  cwd = codes "/home";
}

abbrev silent : Events
silent = record { guest_path = λ base user. ok (false, base); translated_path = λ p. ok p }

fd-IsName : IsName (codes "fd")
fd-IsName = ground arith

seven-IsName : IsName (codes "7")
seven-IsName = ground arith

proc-IsName : IsName (codes "proc")
proc-IsName = ground arith

left :
    readlink_proc sevens
      (pos 7)
      (λ pid. none)
      (render (codes "fd" ∷ codes "7" ∷ codes "proc" ∷ []))
      (codes "7")
      path1_is_prefix
    ≡ dont_canonicalize (codes "/proc/7/fd/7")
unfolding readlink_proc readlink_below readlink_fd compare_paths compare_paths2
left = refl
