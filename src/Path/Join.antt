-- ===== src/Path/Join.antt =====
-- `join_paths` of proot/src/path/path.c. The buffer is returned on success; its content after an
-- error is not modelled, since every caller gives up then.
pub mod Laws
use doki_proot.Prelude.{
  ◌+◌, ◌-◌, ℕ, Bool, not, ◌&&◌, Option, none, some, List, [], ◌∷◌, ◌++◌, Bytes, char_at, length,
  drop, ltb, leb, ◌==◌, if◌then◌else◌, Result, ok, fail, e_nametoolong, ◌>>=◌,
}

abbrev pub path_max : ℕ
path_max = 4096

-- One round of the loop, for a path that is not NULL.
unfoldable pub join_step : Bytes → Bytes → Result Bytes
join_step result path =
    let len = length result in
    let ends = char_at result (len - 1) == b'/' in
    let starts = char_at path 0 == b'/' in
    if ltb 0 len && not ends && not starts
    then (if leb path_max (len + length path + 1 + 1)
        then fail e_nametoolong
        else ok (result ++ b'/' ∷ path))
    else if ltb 0 len && ends && starts
    then (if leb path_max (len + length path - 1 + 1)
        then fail e_nametoolong
        else ok (result ++ drop 1 path))
    else if leb path_max (len + length path + 1)
    then fail e_nametoolong
    else ok (result ++ path)

-- The loop over the variadic arguments, where `none` is NULL.
unfoldable pub join_loop : Bytes → List (Option Bytes) → Result Bytes
unfolding join_step
join_loop result [] = ok result
join_loop result (none ∷ paths) = join_loop result paths
join_loop result (some path ∷ paths) = join_step result path >>= λ r. join_loop r paths

unfoldable pub join_paths : List (Option Bytes) → Result Bytes
unfolding join_loop
join_paths paths = join_loop [] paths

-- join_paths(2, result, base, path)
unfoldable pub join2 : Bytes → Bytes → Result Bytes
unfolding join_paths
join2 base path = join_paths (some base ∷ some path ∷ [])
