-- ===== src/Path/Prefix/Laws.antt =====
-- Moving a path from one directory to another, and back.
use doki_proot.Prelude.{
  ℕ, suc, ◌+◌, ◌-◌, ◌<◌, ◌≡◌, ◌≢◌, refl, sym, ◌∙◌, ◌⊎◌, inl, inr, [], ◌∷◌, ◌++◌, append-nil, Bytes,
  char_at, length, length-append, take, drop, take-all, take-length-append, drop-length-append,
  get_or-append, ◌==◌, arith, ok, ◌>>=◌, if◌then◌else◌, is_empty,
}
use doki_proot.Path.Join.{path_max}
use doki_proot.Path.Prefix.{substitute_path_prefix, chop_finality}

-- A directory: "/" itself, or a longer name.
abbrev pub IsDir : Bytes → Type 0
IsDir d = (d ≡ b'/' ∷ []) ⊎ (1 < length d)

-- What a directory puts before the '/' of the names below it.
abbrev pub as_prefix : Bytes → Bytes
as_prefix d = if length d == 1 then [] else d

-- The path at `rest` (which starts by '/' if it is not empty) below the directory `d`.
abbrev pub below : Bytes → Bytes → Bytes
below d rest = if is_empty rest then d else as_prefix d ++ rest

take-rest :
    (old t : Bytes) (n : ℕ)
    → n ≡ length (old ++ t) - length old
    → take n (drop (length old) (old ++ t)) ≡ t
take-rest old t n e = rw drop-length-append (take-all n t (omega (arith, length-append old t)))

below_long : (d t : Bytes) → 1 < length d → below d t ≡ d ++ t
below_long d [] h = sym (append-nil d)
below_long d (c ∷ t) h = ground arith

-- From a proper directory to "/".
to_root :
    (old t : Bytes)
    → 1 < length old
    → substitute_path_prefix (old ++ t) (length old) (b'/' ∷ []) 1
      ≡ ok (below (b'/' ∷ []) t, length (below (b'/' ∷ []) t))
unfolding substitute_path_prefix
to_root old [] h = ground (arith, length-append old [])
to_root old (c ∷ t) h = ground (
  arith,
  take-rest old (c ∷ t) (length (old ++ c ∷ t) - length old) refl,
  length-append old (c ∷ t),
)

-- From "/" to a proper directory.
from_root :
    (new t : Bytes)
    → 1 < length new
    → length t ≢ 1
    → length (below new t) + 1 < path_max
    → substitute_path_prefix (below (b'/' ∷ []) t) 1 new (length new)
      ≡ ok (below new t, length (below new t))
unfolding substitute_path_prefix
from_root new [] h r b = ground (arith, take-all (length new) new)
from_root new (c ∷ []) h r b = absurd (r refl)
from_root new (c ∷ d ∷ t) h r b =
    let e : length (new ++ c ∷ d ∷ t) ≡ length new + suc (suc (length t)) =
      length-append new (c ∷ d ∷ t) in
    let b' : length (new ++ c ∷ d ∷ t) + 1 < path_max = rw (← below_long new (c ∷ d ∷ t) h) b in
    rw (below_long new (c ∷ d ∷ t) h) (ground (arith, take-all (length new) new))

-- Between proper directories.
between :
    (old new t : Bytes)
    → 1 < length old
    → 1 < length new
    → length (new ++ t) + 1 < path_max
    → substitute_path_prefix (old ++ t) (length old) new (length new)
      ≡ ok (new ++ t, length (new ++ t))
unfolding substitute_path_prefix
between old new t o n b = ground (
  arith,
  take-all (length new) new,
  drop-length-append old t,
  length-append new t,
  length-append old t,
)

-- Where the paths are not both "/", substituting a directory by another moves every path below
-- the one to the same place below the other, and the returned length is the new path's.
pub substitute_path_prefix-below :
    (old new rest : Bytes)
    → IsDir old
    → IsDir new
    → (1 < length old) ⊎ (1 < length new)
    → (1 < length old) ⊎ (length rest ≢ 1)
    → length (below new rest) + 1 < path_max
    → substitute_path_prefix (below old rest) (length old) new (length new)
      ≡ ok (below new rest, length (below new rest))
substitute_path_prefix-below old new rest (inl o) (inl n) one r b = ground arith
substitute_path_prefix-below old new rest (inl o) (inr n) one r b =
    let r' : length rest ≢ 1 = ground arith in rw o (from_root new rest n r' b)
substitute_path_prefix-below old new rest (inr o) (inl n) one r b =
    rw (n, below_long old rest o) (to_root old rest o)
substitute_path_prefix-below old new rest (inr o) (inr n) one r b =
    let b' : length (new ++ rest) + 1 < path_max = rw (← below_long new rest n) b in
    rw (below_long old rest o, below_long new rest n) (between old new rest o n b')

-- Substituting one directory by another and back gives the first path again.
pub substitute_path_prefix_back :
    (old new rest : Bytes)
    → IsDir old
    → IsDir new
    → (1 < length old) ⊎ (1 < length new)
    → length rest ≢ 1
    → length (below old rest) + 1 < path_max
    → length (below new rest) + 1 < path_max
    → (substitute_path_prefix (below old rest) (length old) new (length new) >>= λ r.
        substitute_path_prefix r.0 (length new) old (length old))
      ≡ ok (below old rest, length (below old rest))
substitute_path_prefix_back old new rest o n one r bo bn =
    rw (substitute_path_prefix-below old new rest o n one (inr r) bn) (
      substitute_path_prefix-below new old rest n o (elim one [ inl h ↦ inr h | inr h ↦ inl h ])
        (inr r) bo)

-- The trailing "/" that canonicalisation keeps for a directory is removed again, and so is "/.".
pub chop_finality-slash : (c : ℕ) (p : Bytes) → chop_finality (c ∷ p ++ b'/' ∷ []) ≡ c ∷ p
unfolding chop_finality
chop_finality-slash c p =
    let s = c ∷ p in
    let at : char_at (s ++ b'/' ∷ []) (length s) ≡ b'/' = get_or-append s (b'/' ∷ []) 0 in
    let cut : take (length s) (s ++ b'/' ∷ []) ≡ s = take-length-append s (b'/' ∷ []) in
    let n : length (s ++ b'/' ∷ []) - 1 ≡ length s = omega (arith, length-append s (b'/' ∷ [])) in
    rw n (ground arith)

char_at-second : (s : Bytes) (d e : ℕ) → char_at (s ++ d ∷ e ∷ []) (suc (length s)) ≡ e
char_at-second [] d e = refl
char_at-second (x ∷ s) d e = char_at-second s d e

chop_dot :
    (q : Bytes) (i : ℕ)
    → length q ≡ suc (suc (suc i))
    → char_at q (suc (suc i)) ≡ b'.'
    → chop_finality q ≡ take (suc i) q
unfolding chop_finality
chop_dot q i n h =
    let m : length q - 1 ≡ suc (suc i) = omega arith in
    let k : length q - 2 ≡ suc i = omega arith in rw (m, k) (ground arith)

-- A name of one or more bytes that ends in a dot loses the dot and the byte before it,
-- whatever that byte is: only "/." was meant.
pub chop_finality-dot : (c d : ℕ) (p : Bytes) → chop_finality ((c ∷ p) ++ d ∷ b'.' ∷ []) ≡ c ∷ p
chop_finality-dot c d p =
    chop_dot ((c ∷ p) ++ d ∷ b'.' ∷ []) (length p) (omega (arith, length-append p (d ∷ b'.' ∷ [])))
      (char_at-second (c ∷ p) d b'.')
    ∙ take-length-append (c ∷ p) (d ∷ b'.' ∷ [])
