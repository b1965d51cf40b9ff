-- ===== src/Path/Samples.antt =====
-- Path names on concrete inputs: tests, and instances of the theorems.
use doki_proot.Prelude.{
  ◌+◌, ◌≡◌, ◌<◌, ◌↔◌, refl, Option, none, some, List, [], ◌∷◌, Bytes, codes, length, arith, ok,
}
use doki_proot.Path.Compare.{
  compare_paths, paths_are_equal, path1_is_prefix, path2_is_prefix, paths_are_not_comparable,
}
use doki_proot.Path.Compare.Relate.{Within}
use doki_proot.Path.Compare.Laws.{strip, compare_paths_iff}
use doki_proot.Path.Components.{components}
use doki_proot.Path.Join.{join_paths, path_max}
use doki_proot.Path.Join.Laws.{components_of, join_paths-components}

compare_usr :
    (compare_paths (codes "/usr") (codes "/usr/local/") ≡ path1_is_prefix)
    × (compare_paths (codes "/usr/") (codes "/usr") ≡ paths_are_equal)
    × (compare_paths (codes "/usr") (codes "/usrlocal") ≡ paths_are_not_comparable)
    × (compare_paths (codes "/usr") (codes "/") ≡ path2_is_prefix)
unfolding compare_paths
compare_usr = (refl, refl, refl, refl)

compare_paths_iff_example :
    ((compare_paths (codes "/usr") (codes "/usr/local/") ≡ paths_are_equal)
      ↔ (strip (codes "/usr") ≡ strip (codes "/usr/local/")))
    × ((compare_paths (codes "/usr") (codes "/usr/local/") ≡ path1_is_prefix)
        ↔ Within (strip (codes "/usr")) (strip (codes "/usr/local/")))
    × ((compare_paths (codes "/usr") (codes "/usr/local/") ≡ path2_is_prefix)
        ↔ Within (strip (codes "/usr/local/")) (strip (codes "/usr")))
compare_paths_iff_example =
    compare_paths_iff (codes "/usr") (codes "/usr/local/") (omega arith) (omega arith) (omega arith)
      (omega arith)

abbrev three : List (Option Bytes)
three = some (codes "/a/") ∷ none ∷ some (codes "/b") ∷ some (codes "c") ∷ []

join_three : join_paths three ≡ ok (codes "/a/b/c")
unfolding join_paths
join_three = refl

join_paths-components_example :
    (components (codes "/a/b/c") ≡ components_of three) × (length (codes "/a/b/c") + 1 < path_max)
join_paths-components_example = join_paths-components three (codes "/a/b/c") join_three
