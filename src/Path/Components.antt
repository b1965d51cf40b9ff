-- ===== src/Path/Components.antt =====
-- The components of a path name: its parts between separators, the empty ones left out. This is
-- the independent reading of path names by which joining and canonicalisation are specified.
use doki_proot.Prelude.{
  ◌≡◌, refl, ap, true, false, List, [], ◌∷◌, ◌++◌, append-nil, Bytes, ◌==◌, ◌∙◌, Bool-cases, inl,
  inr,
}

-- `cur` is the component that is being read.
abbrev pub emit : Bytes → List Bytes → List Bytes
emit [] rest = rest
emit (c ∷ cur) rest = (c ∷ cur) ∷ rest

unfoldable pub components_from : Bytes → Bytes → List Bytes
components_from cur [] = emit cur []
components_from cur (c ∷ s) = elim (c == b'/') [
  | true ↦ emit cur (components_from [] s)
  | false ↦ components_from (cur ++ c ∷ []) s
]

unfoldable pub components : Bytes → List Bytes
unfolding components_from
components s = components_from [] s

emit-append : (cur : Bytes) (xs ys : List Bytes) → emit cur (xs ++ ys) ≡ emit cur xs ++ ys
emit-append [] xs ys = refl
emit-append (c ∷ cur) xs ys = refl

-- A separator ends a component.
components_from-append :
    (cur s t : Bytes)
    → components_from cur (s ++ b'/' ∷ t) ≡ components_from cur s ++ components_from [] t
unfolding components_from
components_from-append cur [] t = emit-append cur [] (components_from [] t)
components_from-append cur (c ∷ s) t = elim (Bool-cases (c == b'/')) [
  | inl e ↦
      rw (e, components_from) (ap (emit cur) (components_from-append [] s t) ∙ emit-append cur _ _)
  | inr e ↦ rw (e, components_from) (components_from-append (cur ++ c ∷ []) s t)
]

pub components-append : (s t : Bytes) → components (s ++ b'/' ∷ t) ≡ components s ++ components t
unfolding components
components-append s t = components_from-append [] s t

pub components-slash : (t : Bytes) → components (b'/' ∷ t) ≡ components t
unfolding components
components-slash t = refl

pub components-trailing : (s : Bytes) → components (s ++ b'/' ∷ []) ≡ components s
unfolding components
components-trailing s = components-append s [] ∙ append-nil (components s)

pub components-nil : components [] ≡ []
unfolding components
components-nil = refl
