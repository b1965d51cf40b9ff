-- ===== src/Binding/Keys.antt =====
-- What the lists of bindings are compared by: the paths of one side without trailing separators,
-- and the well-formed bindings for which the comparison is the order of path names.
use doki_proot.Prelude.{◌≡◌, ◌<◌, ◌⊎◌, inl, inr, ◌↔◌, refl, true, Bytes, length}
use doki_proot.Path.Compare.{
  Comparison, paths_are_equal, path1_is_prefix, path2_is_prefix, paths_are_not_comparable,
  compare_paths, compare_paths2,
}
use doki_proot.Path.Compare.Relate.{
  relate, Within, relate-equal→, relate_refl, relate-prefix→, relate-below,
}
use doki_proot.Path.Compare.Laws.{IsText, strip, compare_paths-relate}
use doki_proot.Binding.{Side, guest, host, pending, CachedPath, Binding, ref, is_inside}
use doki_proot.Binding.Insort.{compare_bindings}

-- A non-empty C string with its length.
pub record IsSized (p : CachedPath) : Type 0 where
  pub text : IsText p.path
  pub full : 0 < length p.path
  pub sized : p.cached_length ≡ length p.path

pub record IsSound (b : Binding) : Type 0 where
  pub host_sized : IsSized b.host_path
  pub guest_sized : IsSized b.guest_path

unfoldable pub key : Side → Binding → Bytes
unfolding ref strip
key side b = strip (ref side b).path

pub ref-IsSized : (side : Side) (b : Binding) → IsSound b → IsSized (ref side b)
unfolding ref
ref-IsSized guest b s = s.guest_sized
ref-IsSized host b s = s.host_sized
ref-IsSized pending b s = s.guest_sized

pub compare_sized :
    (p : CachedPath) (path : Bytes)
    → IsSized p
    → IsText path
    → 0 < length path
    → compare_paths2 p.path p.cached_length path (length path) ≡ relate (strip p.path) (strip path)
compare_sized p path s t n =
    rw s.sized (unfold compare_paths in compare_paths-relate p.path path s.text t s.full n)

pub compare_bindings-relate :
    (side : Side) (b c : Binding)
    → IsSound b
    → IsSound c
    → compare_bindings side b c ≡ relate (key side b) (key side c)
unfolding compare_bindings key
compare_bindings-relate side b c sb sc =
    let p = ref-IsSized side b sb in
    let q = ref-IsSized side c sc in
    rw q.sized (compare_sized (ref side b) (ref side c).path p q.text q.full)

-- A path lies in the directory `d`, or is `d`.
abbrev pub Inside : Bytes → Bytes → Type 0
Inside d p = (d ≡ p) ⊎ Within d p

pub is_inside-relate : (a b : Bytes) → (is_inside (relate a b) ≡ true) ↔ Inside a b
unfolding is_inside
is_inside-relate a b = (go (relate a b) refl, back)
  where
    go : (c : Comparison) → relate a b ≡ c → is_inside c ≡ true → Inside a b
    go paths_are_equal e h = inl (relate-equal→ a b e)
    go path1_is_prefix e h = inr (relate-prefix→ a b e)
    go path2_is_prefix e h = cc
    go paths_are_not_comparable e h = cc

    back : Inside a b → is_inside (relate a b) ≡ true
    back (inl e) = rw (e, relate_refl b)
    back (inr (r, e)) = rw (e, relate-below a r)
