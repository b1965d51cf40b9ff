-- ===== src/Binding.antt =====
-- The bindings of a tracee (proot/src/path/binding.c, binding.h): the three ordered lists, the
-- search in them, the insertion, and the substitution of a bound prefix.
pub mod Insort
pub mod Keys
pub mod Order
pub mod Preserve
pub mod Lookup
pub mod Substitute
mod Samples
use doki_proot.Prelude.{
  ℕ, ◌≡◌, Bool, true, false, not, ◌&&◌, ◌||◌, Option, none, some, List, [], ◌∷◌, Bytes, length, leb,
  ltb, ◌==◌, if◌then◌else◌, Result, ok, fail, e_noent, e_nametoolong, ◌>>=◌,
}
use doki_proot.Path.Compare.{
  Comparison, paths_are_equal, path1_is_prefix, path2_is_prefix, paths_are_not_comparable,
  compare_paths, compare_paths2,
}
use doki_proot.Path.Join.{path_max}
use doki_proot.Path.Prefix.{substitute_path_prefix}

pub data Side : Type 0 where
  guest host pending : Side

-- The struct `Path`: a path name with its cached length. (Its field `side` is never read.)
pub record CachedPath : Type 0 where
  pub path : Bytes
  pub cached_length : ℕ

-- The struct `Binding`. Its address stands for its identity in the lists that link it.
pub record Binding : Type 0 where
  pub address : ℕ
  pub host_path : CachedPath
  pub guest_path : CachedPath
  pub need_substitution : Bool

-- `tracee->fs->bindings`: three lists, each `none` as long as it is not allocated.
pub record Bindings : Type 0 where
  pub pending_list : Option (List Binding)
  pub guest_list : Option (List Binding)
  pub host_list : Option (List Binding)

abbrev pub list_of : Option (List Binding) → List Binding
list_of none = []
list_of (some l) = l

-- HEAD(tracee, side)
unfoldable pub head : Bindings → Side → List Binding
head fs guest = list_of fs.guest_list
head fs host = list_of fs.host_list
head fs pending = list_of fs.pending_list

unfoldable pub set_head : Bindings → Side → List Binding → Bindings
set_head fs guest l = record fs { guest_list = some l }
set_head fs host l = record fs { host_list = some l }
set_head fs pending l = record fs { pending_list = some l }

-- The path of a binding that a side compares.
unfoldable pub ref : Side → Binding → CachedPath
ref host b = b.host_path
ref guest b = b.guest_path
ref pending b = b.guest_path

unfoldable pub is_equal : Comparison → Bool
is_equal paths_are_equal = true
is_equal _ = false

-- PATHS_ARE_EQUAL or PATH1_IS_PREFIX
unfoldable pub is_inside : Comparison → Bool
is_inside paths_are_equal = true
is_inside path1_is_prefix = true
is_inside _ = false

-- CIRCLEQ_LAST
unfoldable pub last : List Binding → Option Binding
last [] = none
last (b ∷ []) = some b
last (b ∷ c ∷ l) = last (c ∷ l)

-- The root of the guest, or `none` for NULL.
unfoldable pub get_root : Bindings → Option Bytes
unfolding last is_equal
get_root fs = elim fs.guest_list [
  | none ↦ elim (last (list_of fs.pending_list)) [
    | none ↦ none
    | some b ↦
        if not (is_equal (compare_paths b.guest_path.path (b'/' ∷ [])))
        then none
        else some b.host_path.path
  ]
  | some l ↦ elim (last l) [ none ↦ none | some b ↦ some b.host_path.path ]
]

-- The root for a comparison, where a NULL (which the callers exclude) compares with nothing.
unfoldable pub root : Bindings → Bytes
unfolding get_root
root fs = elim (get_root fs) [ none ↦ [] | some r ↦ r ]

-- proot/src/path/path.c
unfoldable pub belongs_to_guestfs : Bindings → Bytes → Bool
unfolding root is_inside
belongs_to_guestfs fs host_path = is_inside (compare_paths (root fs) host_path)

-- The loop of `get_binding`. `skip` is the test for false positives, which concerns the path alone.
unfoldable pub find_binding : Side → Bool → Bytes → List Binding → Option Binding
unfolding is_inside ref
find_binding side skip path [] = none
find_binding side skip path (b ∷ rest) =
    let later = find_binding side skip path rest in
    let r = ref side b in
    if not (is_inside (compare_paths2 r.path r.cached_length path (length path)))
    then later
    else if skip
    then later
    else some b

is_host : Side → Bool
is_host host = true
is_host _ = false

-- A prefix of the rootfs that is used as an asymmetric binding is no match.
unfoldable pub false_positive : Bindings → Side → Bytes → Bool
unfolding root belongs_to_guestfs is_host is_equal
false_positive fs side path =
    is_host side
    && not (is_equal (compare_paths (root fs) (b'/' ∷ [])))
    && belongs_to_guestfs fs path

unfoldable pub get_binding : Bindings → Side → Bytes → Option Binding
unfolding find_binding false_positive head
get_binding fs pending path = none
get_binding fs side path = find_binding side (false_positive fs side path) path (head fs side)

unfoldable pub get_path_binding : Bindings → Side → Bytes → Option Bytes
unfolding get_binding ref
get_path_binding fs side path = elim (get_binding fs side path) [
  | none ↦ none
  | some b ↦ some (ref side b).path
]

-- The other side of a binding: where a path of this side is moved.
unfoldable pub reverse_ref : Side → Binding → CachedPath
reverse_ref host b = b.guest_path
reverse_ref guest b = b.host_path
reverse_ref pending b = b.host_path

-- What follows the search: the status (`true` for 1, an asymmetric binding) and the new path.
unfoldable pub substitute_by : Side → Option Binding → Bytes → Result (Bool × Bytes)
unfolding ref reverse_ref
substitute_by side none path = fail e_noent
substitute_by side (some b) path = if not b.need_substitution then ok (false, path) else do
  moved ←
      substitute_path_prefix path (ref side b).cached_length (reverse_ref side b).path
        (reverse_ref side b).cached_length
  if leb path_max moved.1 then fail e_nametoolong else ok (true, moved.0)

unfoldable pub substitute_binding : Bindings → Side → Bytes → Result (Bool × Bytes)
unfolding get_binding substitute_by
substitute_binding fs side path = substitute_by side (get_binding fs side path) path
