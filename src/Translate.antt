-- ===== src/Translate.antt =====
-- `translate_path` and its helpers of proot/src/path/path.c, from a path of the tracee to a host
-- path, and `readlink_proc` of proot/src/path/proc.c, the emulation of links in /proc. Numbers are
-- printed and read by libc, which is a parameter, and so are the extensions.
pub mod Canonical
mod Samples
use doki_proot.Prelude.{
  ℕ, ◌+◌, Bool, true, false, not, ◌||◌, Option, none, some, [], ◌∷◌, ◌++◌, Bytes, codes, char_at,
  str_eq, length, drop, leb, ◌==◌, if◌then◌else◌, Result, ok, fail, ◌>>=◌, e_perm, e_notdir, e_badf,
  e_nametoolong, assertion_failed,
}
use doki_proot.Sysvipc.{ℤ, pos, negsuc}
use doki_proot.Path.Compare.{
  Comparison, paths_are_equal, path1_is_prefix, path2_is_prefix, paths_are_not_comparable,
  compare_paths,
}
use doki_proot.Path.Join.{path_max, join2}
use doki_proot.Binding.{guest, Bindings, substitute_binding, is_equal}
use doki_proot.Detranslate.{
  Action, default, canonicalize, dont_canonicalize, error, detranslate_path,
}
use doki_proot.Canon.{Host, canonicalize_path}

-- atoi(3), the format "%d", and whether strtol(3) reads a number that fits.
pub record Libc : Type 0 where
  pub atoi : Bytes → ℤ
  pub decimal : ℤ → Bytes
  pub reads_number : Bytes → Bool

-- What /proc shows of a tracee.
pub record KnownTracee : Type 0 where
  pub exe : Bytes
  pub cwd : Bytes
  pub root_path : Bytes

-- SUBSTITUTE, behind the test of the name
unfoldable pub substitute : Bytes → Action
substitute string = if leb path_max (length string) then error e_perm else canonicalize string

abbrev pub is_zero : ℤ → Bool
is_zero (pos n) = n == 0
is_zero (negsuc n) = false

module _ (libc : Libc) where
  -- The links of /proc/<PID>.
  unfoldable pub readlink_pid : Option KnownTracee → Bytes → Action
  unfolding substitute
  readlink_pid none component = default
  readlink_pid (some known_tracee) component =
      if str_eq component (codes "exe")
      then substitute known_tracee.exe
      else if str_eq component (codes "cwd")
      then substitute known_tracee.cwd
      else if str_eq component (codes "root")
      then substitute known_tracee.root_path
      else default

  -- The links of /proc/<PID>/fd.
  unfoldable pub readlink_fd : Bytes → Bytes → Action
  readlink_fd base component =
      let result = base ++ b'/' ∷ component in
      if not (libc.reads_number component) || leb path_max (length result)
      then error e_perm
      else dont_canonicalize result

  -- A link below /proc: `get_tracee` finds the tracee of an identifier.
  unfoldable pub readlink_below : (ℤ → Option KnownTracee) → Bytes → Bytes → Action
  unfolding readlink_pid readlink_fd is_equal
  readlink_below get_tracee base component =
      let pid = libc.atoi (drop 6 base) in
      let proc_path = codes "/proc/" ++ libc.decimal pid in
      let fd_path = proc_path ++ codes "/fd" in
      if is_zero pid
      then default
      else if leb 64 (length proc_path)
      then error e_perm
      else elim (compare_paths proc_path base) [
        | paths_are_equal ↦ readlink_pid (get_tracee pid) component
        | path1_is_prefix ↦
            if leb 64 (length fd_path)
            then error e_perm
            else if is_equal (compare_paths fd_path base)
            then readlink_fd base component
            else default
        | path2_is_prefix ↦ default
        | paths_are_not_comparable ↦ default
      ]

  -- `pid` is the caller's.
  unfoldable pub readlink_proc : ℤ → (ℤ → Option KnownTracee) → Bytes → Bytes → Comparison → Action
  unfolding readlink_below is_equal substitute
  readlink_proc pid get_tracee base component paths_are_equal =
      if not (is_equal (compare_paths (codes "/proc") base))
        || not (str_eq component (codes "self"))
      then default
      else substitute (codes "/proc/" ++ libc.decimal pid)
  readlink_proc pid get_tracee base component path1_is_prefix =
      readlink_below get_tracee base component
  readlink_proc pid get_tracee base component path2_is_prefix = default
  readlink_proc pid get_tracee base component paths_are_not_comparable = default

  -- The target of a file descriptor, by the host's readlink(2).
  unfoldable pub readlink_proc_pid_fd : (Bytes → Option Bytes) → ℤ → ℤ → Result Bytes
  readlink_proc_pid_fd readlink pid fd =
      let link = codes "/proc/" ++ (libc.decimal pid ++ (codes "/fd/" ++ libc.decimal fd)) in
      if leb 32 (length link) then fail e_badf else elim (readlink link) [
        | none ↦ fail e_badf
        | some path ↦ if leb path_max (length path) then fail e_nametoolong else ok path
      ]

-- tracee->fs->cwd as it is.
unfoldable pub getcwd2 : Bytes → Result Bytes
getcwd2 cwd = if leb path_max (length cwd) then fail e_nametoolong else ok cwd

-- What extensions answer: to GUEST_PATH, by the base path, perhaps changed, and whether they take
-- over; to TRANSLATED_PATH, by the path.
pub record Events : Type 0 where
  pub guest_path : Bytes → Bytes → Result (Bool × Bytes)
  pub translated_path : Bytes → Result Bytes

-- The tracee: its identifier, its bindings and its working directory.
pub record Caller : Type 0 where
  pub pid : ℤ
  pub fs : Bindings
  pub cwd : Bytes

module _ (libc : Libc) (h : Host) (events : Events) (tracee : Caller) where
  -- The base path that a user path is relative to; no descriptor is AT_FDCWD.
  unfoldable pub base_path : Option ℤ → Bytes → Result Bytes
  unfolding readlink_proc_pid_fd getcwd2
  base_path dir_fd user_path = if char_at user_path 0 == b'/' then ok (codes "/") else elim dir_fd [
    | none ↦ getcwd2 tracee.cwd
    | some fd ↦ readlink_proc_pid_fd libc h.readlink tracee.pid fd >>= λ target.
        if not (char_at target 0 == b'/')
        then fail e_notdir
        else (detranslate_path h.readlink_proc tracee.fs target none >>= λ detranslated.
            ok detranslated.1)
  ]

  -- From the base path to the host path.
  unfoldable pub resolve : Bytes → Bytes → Bool → Result Bytes
  resolve base user_path deref_final =
      if not (char_at base 0 == b'/')
      then fail assertion_failed
      else (join2 base user_path >>= λ guest_path.
          canonicalize_path h tracee.fs guest_path deref_final (codes "/") >>= λ canonical.
          substitute_binding tracee.fs guest canonical >>= λ moved. ok moved.1)

  unfoldable pub translate_path : Option ℤ → Bytes → Bool → Result Bytes
  unfolding base_path resolve
  translate_path dir_fd user_path deref_final = base_path dir_fd user_path >>= λ base.
      events.guest_path base user_path >>= λ event.
      (if event.0 then ok event.1 else resolve event.1 user_path deref_final) >>= λ result.
      events.translated_path result
