-- ===== src/Path/Prefix.antt =====
-- `substitute_path_prefix` and `chop_finality` of proot/src/path/path.c. Both are called with a
-- path that is at least as long as what they remove; the lengths are given by the caller.
pub mod Laws
use doki_proot.Prelude.{
  ◌+◌, ◌-◌, ℕ, [], ◌∷◌, ◌++◌, Bytes, char_at, length, take, drop, ltb, leb, ◌==◌, not,
  if◌then◌else◌, Result, ok, fail, e_nametoolong,
}
use doki_proot.Path.Join.{path_max}

-- The new path and its length. -ENAMETOOLONG, converted to size_t, is larger than PATH_MAX.
unfoldable pub substitute_path_prefix : Bytes → ℕ → Bytes → ℕ → Result (Bytes × ℕ)
substitute_path_prefix path old_prefix_length new_prefix new_prefix_length =
    let path_length = length path in
    if new_prefix_length == 1
    then (let new_length = path_length - old_prefix_length in
        if not (new_length == 0)
        then ok (take new_length (drop old_prefix_length path), new_length)
        else ok (b'/' ∷ [], 1))
    else if old_prefix_length == 1
    then (let new_length = new_prefix_length + path_length in
        if leb path_max new_length
        then fail e_nametoolong
        else if ltb 1 path_length
        then ok (take new_prefix_length new_prefix ++ path, new_length)
        else ok (take new_prefix_length new_prefix, new_prefix_length))
    else (let new_length = path_length - old_prefix_length + new_prefix_length in
        if leb path_max new_length
        then fail e_nametoolong
        else ok (take new_prefix_length new_prefix ++ drop old_prefix_length path, new_length))

-- A path of length 0 would be read out of bounds; no caller has one.
unfoldable pub chop_finality : Bytes → Bytes
chop_finality path =
    let len = length path in
    if char_at path (len - 1) == b'.'
    then (if len == 2 then take (len - 1) path else take (len - 2) path)
    else if char_at path (len - 1) == b'/'
    then (if ltb 1 len then take (len - 1) path else path)
    else path
