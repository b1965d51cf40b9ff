-- ===== src/Detranslate/Root.antt =====
-- The removal of the guest's root from a host path, at the end of `detranslate_path` of
-- proot/src/path/path.c.
use doki_proot.Prelude.{
  Bool-cases, ℕ, zero, suc, ◌+◌, ◌-◌, ◌<◌, ◌≡◌, refl, sym, ◌∙◌, ap, ◌⊎◌, inl, inr, Bool, true,
  false, [], ◌∷◌, ◌++◌, append_assoc, Bytes, char_at, length, length-append, take, drop,
  drop-length-append, ◌==◌, if◌then◌else◌, ok, fail, e_perm, arith,
}
use doki_proot.Path.Compare.{
  Comparison, paths_are_equal, path1_is_prefix, path2_is_prefix, paths_are_not_comparable,
  compare_paths, stripped_length,
}
use doki_proot.Path.Compare.Relate.{Within}
use doki_proot.Path.Compare.Laws.{IsText, strip, take-stripped_length, compare_paths_iff}
use doki_proot.Binding.{Bindings, root, belongs_to_guestfs, is_inside}
use doki_proot.Detranslate.{remove_root}

-- The root directory as a name without a final '/', or "/" itself.
abbrev pub IsClean : Bytes → Type 0
IsClean d = (d ≡ b'/' ∷ []) ⊎ ((1 < length d) × (strip d ≡ d))

-- What the root puts before the guest path.
abbrev pub as_prefix : Bytes → Bytes
as_prefix d = if length d == 1 then [] else d

take-drop : (n : ℕ) (s : Bytes) → take n s ++ drop n s ≡ s
take-drop zero s = refl
take-drop (suc n) [] = refl
take-drop (suc n) (x ∷ s) = ap (λ t. x ∷ t) (take-drop n s)

-- A path goes on behind its stripped form.
strip-rest : (p : Bytes) → (t : Bytes) × (p ≡ strip p ++ t)
strip-rest p =
    let n = stripped_length p (length p) in
    (drop n p, sym (take-drop n p) ∙ ap (λ s. s ++ drop n p) (take-stripped_length p))

-- A guest path, and the host path of which it is left over.
abbrev pub IsBelow : Bytes → Bytes → ℕ × Bytes → Type 0
IsBelow d path r =
    (r.0 ≡ suc (length r.1))
    × (char_at r.1 0 ≡ b'/')
    × ((path ≡ as_prefix d ++ r.1) ⊎ ((strip path ≡ strip d) × (r.1 ≡ b'/' ∷ [])))

-- Where the path lies below the root, the rest begins by a '/'.
below-root :
    (d path : Bytes)
    → IsClean d
    → Within (strip d) (strip path)
    → (rest : Bytes) × (path ≡ as_prefix d ++ b'/' ∷ rest)
below-root d path (inl e) (r, w) =
    let (t, p) = strip-rest path in
    let empty : strip d ≡ [] = rw e (unfold strip stripped_length in refl) in
    (r ++ t, rw e (p ∙ ap (λ s. s ++ t) w ∙ ap (λ s. (s ++ b'/' ∷ r) ++ t) empty))
below-root d path (inr (n, clean)) (r, w) =
    let (t, p) = strip-rest path in
    let long : (length d == 1) ≡ false = ground arith in
    (
      r ++ t,
      rw long (
          p
          ∙ ap (λ s. s ++ t) w
          ∙ ap (λ s. (s ++ b'/' ∷ r) ++ t) clean
          ∙ append_assoc d (b'/' ∷ r) t),
    )

drop_prefix :
    (d rest : Bytes) → drop (if length d == 1 then 0 else length d) (as_prefix d ++ rest) ≡ rest
drop_prefix d rest = elim (Bool-cases (length d == 1)) [
  | inl e ↦ rw e refl
  | inr e ↦ rw e (drop-length-append d rest)
]

prefix_size :
    (d rest : Bytes)
    → length (as_prefix d ++ rest) - (if length d == 1 then 0 else length d) + 1 ≡ suc (length rest)
prefix_size d rest = elim (Bool-cases (length d == 1)) [
  | inl e ↦ rw e (omega arith)
  | inr e ↦ rw e (omega (arith, length-append d rest))
]

-- What the removal yields for a path that belongs to the guest, and for one that does not.
abbrev pub IsRemoved : Bindings → Bool → Bytes → Bool → Type 0
IsRemoved fs check path true =
    (r : ℕ × Bytes) × (remove_root fs check path ≡ ok r) × IsBelow (root fs) path r
IsRemoved fs check path false =
    remove_root fs check path ≡ (if check then fail e_perm else ok (0, path))

-- For a root that is "/" or has no final '/': a host path in the guest's file system loses what
-- the root puts before the guest path, which begins by a '/', and the status is its length with
-- the NUL byte; the root itself becomes "/". Any other path is refused if it is checked, and else
-- left as it is, by the status 0.
pub remove_root-IsRemoved :
    (fs : Bindings) (check : Bool) (path : Bytes)
    → IsText (root fs)
    → IsText path
    → 0 < length (root fs)
    → 0 < length path
    → IsClean (root fs)
    → IsRemoved fs check path (belongs_to_guestfs fs path)
unfolding remove_root belongs_to_guestfs is_inside
remove_root-IsRemoved fs check path td tp nd np clean = go (compare_paths (root fs) path) refl
  where
    go : (c : Comparison) → compare_paths (root fs) path ≡ c → IsRemoved fs check path (is_inside c)
    go paths_are_equal e = (
      (2, b'/' ∷ []),
      rw (e, remove_root) refl,
      (refl, refl, inr (sym ((compare_paths_iff (root fs) path td tp nd np).0.0 e), refl)),
    )
    go path1_is_prefix e =
        let (rest, p) =
          below-root (root fs) path clean ((compare_paths_iff (root fs) path td tp nd np).1.0 e) in
        let cut =
          ap (drop (if length (root fs) == 1 then 0 else length (root fs))) p
          ∙ drop_prefix (root fs) (b'/' ∷ rest) in
        let size =
          ap (λ s. length s - (if length (root fs) == 1 then 0 else length (root fs)) + 1) p
          ∙ prefix_size (root fs) (b'/' ∷ rest) in
        (
          (suc (length (b'/' ∷ rest)), b'/' ∷ rest),
          rw (e, remove_root) (rw (cut, size) refl),
          (refl, refl, inl p),
        )
    go path2_is_prefix e = rw (e, remove_root) refl
    go paths_are_not_comparable e = rw (e, remove_root) refl
