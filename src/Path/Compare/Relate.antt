-- ===== src/Path/Compare/Relate.antt =====
-- How two path names without a trailing separator relate, read off from the front. This is an
-- order on path names: `Within a b` says that `b` lies strictly below the directory `a`.
use doki_proot.Prelude.{
  suc, ◌≤◌, ◌≡◌, refl, ap, ◌∙◌, ◌⊎◌, inl, inr, [], ◌∷◌, ◌++◌, append_assoc, Bytes, length,
  length-append, ◌==◌, if◌then◌else◌, arith,
}
use doki_proot.Path.Compare.{
  Comparison, paths_are_equal, path1_is_prefix, path2_is_prefix, paths_are_not_comparable,
}

unfoldable pub relate : Bytes → Bytes → Comparison
relate [] [] = paths_are_equal
relate [] (y ∷ b) = if y == b'/' then path1_is_prefix else paths_are_not_comparable
relate (x ∷ a) [] = if x == b'/' then path2_is_prefix else paths_are_not_comparable
relate (x ∷ a) (y ∷ b) = if x == y then relate a b else paths_are_not_comparable

abbrev pub Within : Bytes → Bytes → Type 0
Within a b = (r : Bytes) × (b ≡ a ++ b'/' ∷ r)

pub relate-equal→ : (a b : Bytes) → relate a b ≡ paths_are_equal → a ≡ b
unfolding relate
relate-equal→ [] [] h = refl
relate-equal→ [] (y ∷ b) h = ground arith
relate-equal→ (x ∷ a) [] h = ground arith
relate-equal→ (x ∷ a) (y ∷ b) h = ground (arith, relate-equal→ a b)

pub relate_refl : (a : Bytes) → relate a a ≡ paths_are_equal
unfolding relate
relate_refl [] = refl
relate_refl (x ∷ a) = ground (arith, relate_refl a)

pub relate-prefix→ : (a b : Bytes) → relate a b ≡ path1_is_prefix → Within a b
unfolding relate
relate-prefix→ [] [] h = cc
relate-prefix→ [] (y ∷ b) h = (b, ground arith)
relate-prefix→ (x ∷ a) [] h = ground arith
relate-prefix→ (x ∷ a) (y ∷ b) h =
    let (r, e) = relate-prefix→ a b (ground arith) in (r, ground arith)

pub relate-below : (a r : Bytes) → relate a (a ++ b'/' ∷ r) ≡ path1_is_prefix
unfolding relate
relate-below [] r = refl
relate-below (x ∷ a) r = ground (arith, relate-below a r)

pub relate-prefix2→ : (a b : Bytes) → relate a b ≡ path2_is_prefix → Within b a
unfolding relate
relate-prefix2→ [] [] h = cc
relate-prefix2→ [] (y ∷ b) h = ground arith
relate-prefix2→ (x ∷ a) [] h = (a, ground arith)
relate-prefix2→ (x ∷ a) (y ∷ b) h =
    let (r, e) = relate-prefix2→ a b (ground arith) in (r, ground arith)

pub relate-above : (a r : Bytes) → relate (a ++ b'/' ∷ r) a ≡ path2_is_prefix
unfolding relate
relate-above [] r = refl
relate-above (x ∷ a) r = ground (arith, relate-above a r)

pub Within-trans : (a b c : Bytes) → Within a b → Within b c → Within a c
Within-trans a b c (r, p) (s, q) =
    (r ++ b'/' ∷ s, q ∙ ap (λ t. t ++ b'/' ∷ s) p ∙ append_assoc a (b'/' ∷ r) (b'/' ∷ s))

-- Two directories above one path are one below the other.
pub Within-linear : (a b c : Bytes) → Within a c → Within b c → (a ≡ b) ⊎ (Within a b ⊎ Within b a)
Within-linear [] [] c p q = inl refl
Within-linear [] (y ∷ b) c (r, p) (s, q) = inr (inl (b, ground arith))
Within-linear (x ∷ a) [] c (r, p) (s, q) = inr (inr (a, ground arith))
Within-linear (x ∷ a) (y ∷ b) [] (r, p) (s, q) = ground arith
Within-linear (x ∷ a) (y ∷ b) (z ∷ c) (r, p) (s, q) =
    elim (Within-linear a b c (r, ground arith) (s, ground arith)) [
      | inl e ↦ inl (ground arith)
      | inr (inl (t, e)) ↦ inr (inl (t, ground arith))
      | inr (inr (t, e)) ↦ inr (inr (t, ground arith))
    ]

pub Within-length : (a b : Bytes) → Within a b → suc (length a) ≤ length b
Within-length a b (r, p) = omega (arith, ap length p, length-append a (b'/' ∷ r))

pub Within-irrefl : (a : Bytes) → ¬ Within a a
Within-irrefl a h = absurd (omega (arith, Within-length a a h))
