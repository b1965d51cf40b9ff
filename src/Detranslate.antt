-- ===== src/Detranslate.antt =====
-- `detranslate_path` of proot/src/path/path.c, from a host path to a guest path, and
-- `readlink_proc2` of proot/src/path/proc.c, which it calls for the links in /proc. The emulation
-- of a single link, `readlink_proc`, is a parameter.
pub mod Root
mod Samples
use doki_proot.Prelude.{
  ℕ, ◌+◌, ◌-◌, Bool, true, false, not, ◌&&◌, Option, none, some, [], ◌∷◌, Bytes, codes, char_at,
  length, drop, leb, ◌==◌, if◌then◌else◌, Errno, Result, ok, fail, e_nametoolong, e_perm, ◌>>=◌,
  is_empty,
}
use doki_proot.Path.Compare.{
  Comparison, paths_are_equal, path1_is_prefix, path2_is_prefix, paths_are_not_comparable,
  compare_paths,
}
use doki_proot.Path.Join.{path_max}
use doki_proot.Binding.{
  host, Bindings, root, get_path_binding, substitute_binding, belongs_to_guestfs, is_equal,
}

-- The enum `Action` of proot/src/path/proc.h, with the result where there is one.
pub data Action : Type 0 where
  default : Action
  canonicalize : Bytes → Action
  dont_canonicalize : Bytes → Action
  error : Errno → Action

-- readlink_proc(tracee, ·, base, component, comparison)
abbrev pub ReadlinkProc : Type 0
ReadlinkProc = Bytes → Bytes → Comparison → Action

-- strrchr(path, '/'): what stands before the last separator, and what behind it.
unfoldable pub split_last : Bytes → Option (Bytes × Bytes)
split_last [] = none
split_last (c ∷ s) = elim (split_last s) [
  | some (base, component) ↦ some (c ∷ base, component)
  | none ↦ if c == b'/' then some ([], s) else none
]

-- The link's emulated target, if it is emulated. An error of `readlink_proc` counts as none.
unfoldable pub readlink_proc2 : ReadlinkProc → Bytes → Result (Option Bytes)
unfolding split_last
readlink_proc2 readlink_proc referer =
    if leb path_max (length referer) then fail e_nametoolong else elim (split_last referer) [
      | none ↦ ok none
      | some (base, component) ↦
          if is_empty component
          then ok none
          else elim (readlink_proc base component path1_is_prefix) [
            | canonicalize target ↦ ok (some target)
            | default ↦ ok none
            | dont_canonicalize path ↦ ok none
            | error code ↦ ok none
          ]
    ]

-- The removal of the root from a path, at the end of `detranslate_path`.
unfoldable pub remove_root : Bindings → Bool → Bytes → Result (ℕ × Bytes)
remove_root fs sanity_check path = elim (compare_paths (root fs) path) [
  | path1_is_prefix ↦
      let prefix_length = if length (root fs) == 1 then 0 else length (root fs) in
      ok (length path - prefix_length + 1, drop prefix_length path)
  | paths_are_equal ↦ ok (2, b'/' ∷ [])
  | path2_is_prefix ↦ if sanity_check then fail e_perm else ok (0, path)
  | paths_are_not_comparable ↦ if sanity_check then fail e_perm else ok (0, path)
]

-- The resolution of bindings, and then of the root.
unfoldable pub follow : Bindings → Bool → Bool → Bytes → Result (ℕ × Bytes)
unfolding remove_root
follow fs sanity_check follow_binding path =
    if follow_binding
    then elim (substitute_binding fs host path) [
      | ok (asymmetric, moved) ↦ if asymmetric then ok (length moved + 1, moved) else ok (0, path)
      | fail code ↦ remove_root fs sanity_check path
    ]
    else remove_root fs sanity_check path

-- A symlink of a binding is followed if it points into the same binding.
unfoldable pub same_binding : Bindings → Bytes → Bytes → Bool
unfolding is_equal
same_binding fs path referrer = elim (get_path_binding fs host path) [
  | none ↦ false
  | some referree_binding ↦ elim (get_path_binding fs host referrer) [
    | none ↦ false
    | some referrer_binding ↦ is_equal (compare_paths referree_binding referrer_binding)
  ]
]

unfoldable pub is_prefix : Comparison → Bool
is_prefix path1_is_prefix = true
is_prefix _ = false

-- An emulated target is taken as it is.
unfoldable pub or_follow : Bindings → Bytes → Option Bytes → Result (ℕ × Bytes)
unfolding follow
or_follow fs path none = follow fs false true path
or_follow fs path (some target) =
    if length target == 0 then follow fs false true path else ok (length target + 1, target)

-- The path is that of a symlink's target, read at the referrer.
unfoldable pub detranslate_link : ReadlinkProc → Bindings → Bytes → Bytes → Result (ℕ × Bytes)
unfolding follow or_follow same_binding readlink_proc2 is_prefix
detranslate_link readlink_proc fs path referrer =
    if is_prefix (compare_paths (codes "/proc") referrer)
    then (readlink_proc2 readlink_proc referrer >>= λ emulated. or_follow fs path emulated)
    else follow fs false (not (belongs_to_guestfs fs referrer) && same_binding fs path referrer)
        path

-- The status and the path.
unfoldable pub detranslate_path :
    ReadlinkProc → Bindings → Bytes → Option Bytes → Result (ℕ × Bytes)
unfolding detranslate_link
detranslate_path readlink_proc fs path t_referrer =
    if leb path_max (length path)
    then fail e_nametoolong
    else if not (char_at path 0 == b'/')
    then ok (0, path)
    else elim t_referrer [
      | some referrer ↦ detranslate_link readlink_proc fs path referrer
      | none ↦ follow fs true true path
    ]
