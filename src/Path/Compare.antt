-- ===== src/Path/Compare.antt =====
-- `compare_paths` and `compare_paths2` of proot/src/path/path.c. The assertions that both lengths
-- are positive are left to the explicit test that follows them in the source.
pub mod Relate
pub mod Laws
use doki_proot.Prelude.{
  ℕ, zero, suc, ◌-◌, Bool, true, false, not, ◌&&◌, ◌||◌, [], ◌∷◌, Bytes, char_at, length, ltb, ◌==◌,
  if◌then◌else◌,
}

pub data Comparison : Type 0 where
  paths_are_equal path1_is_prefix path2_is_prefix paths_are_not_comparable : Comparison

-- strncmp(a, b, n) == 0
unfoldable pub strncmp_eq : ℕ → Bytes → Bytes → Bool
strncmp_eq zero a b = true
strncmp_eq (suc n) [] [] = true
strncmp_eq (suc n) [] (y ∷ b) = false
strncmp_eq (suc n) (x ∷ a) [] = false
strncmp_eq (suc n) (x ∷ a) (y ∷ b) = x == y && strncmp_eq n a b

-- The length without a trailing '/'.
unfoldable pub stripped_length : Bytes → ℕ → ℕ
stripped_length path len = if char_at path (len - 1) == b'/' then len - 1 else len

-- What follows the removal of the trailing separators.
unfoldable pub compare_stripped : Bytes → ℕ → Bytes → ℕ → Comparison
unfolding strncmp_eq
compare_stripped path1 length1 path2 length2 =
    let length_min = if ltb length1 length2 then length1 else length2 in
    let sentinel = if ltb length1 length2 then char_at path2 length1 else char_at path1 length2 in
    if not (sentinel == b'/') && not (sentinel == 0)
    then paths_are_not_comparable
    else if not (strncmp_eq length_min path1 path2)
    then paths_are_not_comparable
    else if length1 == length2
    then paths_are_equal
    else if ltb length1 length2
    then path1_is_prefix
    else path2_is_prefix

unfoldable pub compare_paths2 : Bytes → ℕ → Bytes → ℕ → Comparison
unfolding compare_stripped stripped_length
compare_paths2 path1 length1 path2 length2 =
    if length1 == 0 || length2 == 0
    then paths_are_not_comparable
    else compare_stripped path1 (stripped_length path1 length1) path2
        (stripped_length path2 length2)

unfoldable pub compare_paths : Bytes → Bytes → Comparison
unfolding compare_paths2
compare_paths path1 path2 = compare_paths2 path1 (length path1) path2 (length path2)
