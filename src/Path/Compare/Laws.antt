-- ===== src/Path/Compare/Laws.antt =====
-- `compare_paths` answers as the order of `Relate` on the two names without trailing separators.
use doki_proot.Prelude.{
  ℕ, zero, suc, ◌≤◌, ◌<◌, ◌≡◌, refl, ◌↔◌, true, ◌||◌, [], ◌∷◌, Bytes, All, char_at, length, take,
  ◌==◌, if◌then◌else◌, arith,
}
use doki_proot.Path.Compare.{
  paths_are_equal, path1_is_prefix, path2_is_prefix, compare_stripped, stripped_length,
  compare_paths2, compare_paths,
}
use doki_proot.Path.Compare.Relate.{
  relate, Within, relate-equal→, relate_refl, relate-prefix→, relate-below, relate-prefix2→,
  relate-above,
}

-- No NUL byte, as in every C string.
abbrev pub IsText : Bytes → Type 0
IsText s = All (λ c. 0 < c) s

-- What stands at the end of a stripped path: a '/', or the end of the string.
abbrev AtBorder : Bytes → ℕ → Type 0
AtBorder p l = (char_at p l == b'/' || char_at p l == 0) ≡ true

compare_stripped-relate :
    (p1 : Bytes) (l1 : ℕ) (p2 : Bytes) (l2 : ℕ)
    → IsText p1
    → IsText p2
    → l1 ≤ length p1
    → l2 ≤ length p2
    → AtBorder p1 l1
    → AtBorder p2 l2
    → compare_stripped p1 l1 p2 l2 ≡ relate (take l1 p1) (take l2 p2)
unfolding compare_stripped relate
compare_stripped-relate p1 zero p2 zero t1 t2 h1 h2 b1 b2 = ground arith
compare_stripped-relate p1 zero (y ∷ p2) (suc l2) t1 t2 h1 h2 b1 b2 = ground arith
compare_stripped-relate p1 zero [] (suc l2) t1 t2 h1 h2 b1 b2 = absurd (omega arith)
compare_stripped-relate (x ∷ p1) (suc l1) p2 zero t1 t2 h1 h2 b1 b2 = ground arith
compare_stripped-relate [] (suc l1) p2 zero t1 t2 h1 h2 b1 b2 = absurd (omega arith)
compare_stripped-relate [] (suc l1) p2 (suc l2) t1 t2 h1 h2 b1 b2 = absurd (omega arith)
compare_stripped-relate (x ∷ p1) (suc l1) [] (suc l2) t1 t2 h1 h2 b1 b2 = absurd (omega arith)
compare_stripped-relate (x ∷ p1) (suc l1) (y ∷ p2) (suc l2) t1 t2 h1 h2 b1 b2 =
    ground (arith, compare_stripped-relate p1 l1 p2 l2 t1.1 t2.1 (omega arith) (omega arith) b1 b2)

-- The path name without one trailing '/'.
unfoldable pub strip : Bytes → Bytes
strip [] = []
strip (c ∷ []) = if c == b'/' then [] else c ∷ []
strip (c ∷ d ∷ p) = c ∷ strip (d ∷ p)

-- What the comparison looks at is the stripped name.
pub take-stripped_length : (p : Bytes) → take (stripped_length p (length p)) p ≡ strip p
unfolding strip stripped_length
take-stripped_length [] = refl
take-stripped_length (c ∷ []) = ground arith
take-stripped_length (c ∷ d ∷ p) = ground (arith, take-stripped_length (d ∷ p))

stripped_length-le : (p : Bytes) → stripped_length p (length p) ≤ length p
unfolding stripped_length
stripped_length-le p = ground arith

char_at-length : (p : Bytes) → char_at p (length p) ≡ 0
char_at-length [] = refl
char_at-length (x ∷ p) = char_at-length p

stripped_length-AtBorder : (p : Bytes) → AtBorder p (stripped_length p (length p))
unfolding stripped_length
stripped_length-AtBorder p = ground (arith, char_at-length p)

pub compare_paths-relate :
    (a b : Bytes)
    → IsText a
    → IsText b
    → 0 < length a
    → 0 < length b
    → compare_paths a b ≡ relate (strip a) (strip b)
unfolding compare_paths2 compare_paths
compare_paths-relate a b ta tb na nb = ground (
  arith,
  compare_stripped-relate a (stripped_length a (length a)) b (stripped_length b (length b)) ta tb
      (stripped_length-le a) (stripped_length-le b) (stripped_length-AtBorder a)
      (stripped_length-AtBorder b),
  take-stripped_length a,
  take-stripped_length b,
)

-- For two non-empty names with no NUL byte: equal, exactly when they agree up to a trailing '/';
-- the first a prefix, exactly when the second continues it by a '/'; and the other way round.
pub compare_paths_iff :
    (a b : Bytes)
    → IsText a
    → IsText b
    → 0 < length a
    → 0 < length b
    → ((compare_paths a b ≡ paths_are_equal) ↔ (strip a ≡ strip b))
      × ((compare_paths a b ≡ path1_is_prefix) ↔ Within (strip a) (strip b))
      × ((compare_paths a b ≡ path2_is_prefix) ↔ Within (strip b) (strip a))
compare_paths_iff a b ta tb na nb = rw (compare_paths-relate a b ta tb na nb) (
  (relate-equal→ (strip a) (strip b), λ e. rw e (relate_refl (strip b))),
  (relate-prefix→ (strip a) (strip b), λ h. rw h.1 (relate-below (strip a) h.0)),
  (relate-prefix2→ (strip a) (strip b), λ h. rw h.1 (relate-above (strip b) h.0)),
)
