-- ===== src/Canon.antt =====
-- `canonicalize` and its helpers (proot/src/path/canon.c). The host's file system and the
-- extensions enter as a record of functions. The case `glue_type == 0` is modelled, in which every
-- system call is translated; the creation of glue while bindings are initialized is not.
pub mod Component
pub mod Names
pub mod Pop
pub mod Steps
pub mod Rounds
pub mod Canonical
pub mod Fuel
pub mod Ends
pub mod Samples
use Component.{
  Finality, not_final, final_normal, final_slash, final_dot, is_final, next_component,
  pop_component,
}
use doki_proot.Prelude.{
  ℕ, zero, suc, ◌+◌, Bool, true, false, not, ◌&&◌, ◌||◌, Option, none, some, [], ◌∷◌, Bytes, codes,
  char_at, length, ltb, leb, str_eq, ◌==◌, if◌then◌else◌, Errno, Result, ok, fail, e_noent,
  e_notdir, e_inval, e_loop, e_perm, e_nametoolong, out_of_fuel, ◌>>=◌,
}
use doki_proot.Path.Compare.{Comparison, compare_paths}
use doki_proot.Path.Join.{path_max, join2}
use doki_proot.Binding.{Side, guest, Bindings, substitute_binding, is_inside}
use doki_proot.Detranslate.{
  Action, default, canonicalize, dont_canonicalize, error, ReadlinkProc, detranslate_path,
}

-- The file types that are told apart.
pub data FileType : Type 0 where
  directory symlink other : FileType

-- The outcome of lstat(2); `denied` is EACCES.
pub data Stat : Type 0 where
  found : FileType → Stat
  denied missing : Stat

-- What `canonicalize` asks of the host and of the extensions. A symlink is examined by `lstat`,
-- read by `readlink` (`none` on error), and examined again by `lstat_again`.
pub record Host : Type 0 where
  pub lstat : Bytes → Stat
  pub lstat_again : Bytes → Stat
  pub readlink : Bytes → Option Bytes
  pub skip_access : Bytes → Bool
  pub notify_host_path : Bytes → Bool → Result Bytes
  pub readlink_proc : ReadlinkProc

-- The type of a host path, or `none` if it cannot be examined.
unfoldable pub stat_type : Host → Bytes → Option FileType
stat_type h host_path = if h.skip_access host_path then none else elim (h.lstat host_path) [
  | found t ↦ some t
  | denied ↦ if str_eq host_path (codes "/linkerconfig") then some directory else none
  | missing ↦ none
]

-- The check of a component: whether it is a symlink, and its host path.
unfoldable pub check_type : Finality → Option FileType → Bytes → Result (Bool × Bytes)
unfolding is_final
check_type finality (some directory) host_path = ok (false, host_path)
check_type finality (some symlink) host_path = ok (true, host_path)
check_type finality (some other) host_path =
    if not (is_final finality) then fail e_notdir else ok (false, host_path)
check_type finality none host_path =
    if not (is_final finality) then fail e_noent else ok (false, host_path)

unfoldable pub substitute_binding_stat :
    Host → Bindings → Finality → ℕ → Bytes → Result (Bool × Bytes)
unfolding stat_type check_type is_final
substitute_binding_stat h fs finality recursion_level guest_path = do
  moved ← substitute_binding fs guest guest_path
  host_path ← h.notify_host_path moved.1 (is_final finality && recursion_level == 0)
  check_type finality (stat_type h host_path) host_path

abbrev pub max_symlinks : ℕ
max_symlinks = 40

-- How a round of the loop ends: by going on with a guest path and a finality, by `goto
-- new_component`, or by returning a guest path.
pub data Round : Type 0 where
  continue : Bytes → Finality → Round
  new_component : Round
  return : Bytes → Round

-- What follows a round: the loop's end, or the rest of the loop.
unfoldable pub next_round :
    (Bytes → Result (Bytes × Option Finality)) → Bytes → Round → Result (Bytes × Option Finality)
unfolding is_final
next_round again guest_path (continue guest_path' finality) =
    if is_final finality then ok (guest_path', some finality) else again guest_path'
next_round again guest_path new_component = again guest_path
next_round again guest_path (return guest_path') = ok (guest_path', none)

-- `canonicalize` one level deeper: (user_path, guest_path).
abbrev pub Deeper : Type 0
Deeper = Bytes → Bytes → Result Bytes

unfoldable pub is_normal : Finality → Bool
is_normal final_normal = true
is_normal _ = false

-- The file type changed behind `lstat`.
unfoldable pub raced : Stat → Bool
raced (found symlink) = false
raced (found directory) = true
raced (found other) = true
raced denied = false
raced missing = false

module _ (h : Host) (fs : Bindings) (recursion_level : ℕ) (deref_final : Bool)
    (deeper : Deeper) where
  -- From the label `canon`: the referee is canonicalized from the guest path.
  unfoldable pub canon : Finality → Bytes → Bytes → Result Round
  canon finality scratch_path guest_path = do
    canonical ← deeper scratch_path guest_path
    checked ← substitute_binding_stat h fs finality recursion_level canonical
    ok (continue canonical finality)

  unfoldable pub read_link : Finality → Bytes → Bytes → Result Round
  unfolding canon raced
  read_link finality host_path guest_path = elim (h.readlink host_path) [
    | none ↦ fail e_perm
    | some target ↦
        if leb path_max (length target)
        then fail e_nametoolong
        else if raced (h.lstat_again host_path)
        then ok new_component
        else (detranslate_path h.readlink_proc fs target (some host_path) >>= λ referee.
            canon finality referee.1 guest_path)
  ]

  -- A link in /proc may be emulated.
  unfoldable pub follow_link : Finality → Bytes → Bytes → Bytes → Result Round
  unfolding canon read_link is_inside is_normal
  follow_link finality component host_path guest_path =
      let comparison = compare_paths (codes "/proc") guest_path in
      if not (is_inside comparison)
      then read_link finality host_path guest_path
      else elim (h.readlink_proc guest_path component comparison) [
        | default ↦ read_link finality host_path guest_path
        | canonicalize referee ↦ canon finality referee guest_path
        | dont_canonicalize path ↦
            if is_normal finality then ok (return path) else read_link finality host_path guest_path
        | error code ↦ fail code
      ]

  -- A component other than "." and "..".
  unfoldable pub enter_component : Finality → Bytes → Bytes → Result Round
  unfolding follow_link is_normal
  enter_component finality component guest_path = do
    scratch_path ← join2 guest_path component
    checked ← substitute_binding_stat h fs finality recursion_level scratch_path
    if not checked.0 || (is_normal finality && not deref_final)
        then (join2 guest_path component >>= λ joined. ok (continue joined finality))
        else follow_link finality component checked.1 guest_path

  -- One round of the loop, behind `next_component`.
  unfoldable pub round : Finality → Bytes → Bytes → Result Round
  unfolding enter_component is_final pop_component
  round finality component guest_path =
      if str_eq component (codes ".")
      then ok (continue guest_path (if is_final finality then final_dot else finality))
      else if str_eq component (codes "..")
      then ok (
          continue (pop_component guest_path) (if is_final finality then final_slash else finality))
      else enter_component finality component guest_path

  -- The loop: the guest path and the last finality, which is `none` after an early return.
  unfoldable pub loop : ℕ → Bytes → Bytes → Result (Bytes × Option Finality)
  unfolding round next_round
  loop zero cursor guest_path = fail out_of_fuel
  loop (suc fuel) cursor guest_path = do
    next ← next_component cursor
    ended ← round next.1 next.0 guest_path
    next_round (loop fuel next.2) guest_path ended

-- The end of the first level: a final "/" or "/." of the user path is kept.
unfoldable pub keep_finality : ℕ → Bytes → Option Finality → Result Bytes
keep_finality zero guest_path (some final_slash) = join2 guest_path []
keep_finality zero guest_path (some final_dot) = join2 guest_path (codes ".")
keep_finality recursion_level guest_path finality = ok guest_path

-- `fuel` bounds the levels; the test of the recursion level stops first.
unfoldable pub canonicalize_level : Host → Bindings → ℕ → ℕ → Bool → Bytes → Bytes → Result Bytes
unfolding loop keep_finality
canonicalize_level h fs zero recursion_level deref_final user_path guest_path = fail out_of_fuel
canonicalize_level h fs (suc fuel) recursion_level deref_final user_path guest_path =
    let deeper = canonicalize_level h fs fuel (suc recursion_level) true in
    let start = if char_at user_path 0 == b'/' then b'/' ∷ [] else guest_path in
    if ltb max_symlinks recursion_level
    then fail e_loop
    else if leb path_max (length guest_path)
    then fail e_nametoolong
    else if not (char_at user_path 0 == b'/') && not (char_at guest_path 0 == b'/')
    then fail e_inval
    else (loop h fs recursion_level deref_final deeper (suc (length user_path)) user_path start
        >>= λ result. keep_finality recursion_level result.0 result.1)

unfoldable pub canonicalize_path : Host → Bindings → Bytes → Bool → Bytes → Result Bytes
unfolding canonicalize_level
canonicalize_path h fs user_path deref_final guest_path =
    canonicalize_level h fs (max_symlinks + 2) 0 deref_final user_path guest_path
