-- ===== src/Path/Join/Laws.antt =====
-- What joining does to the components, and when it succeeds.
use doki_proot.Prelude.{
  ℕ, zero, suc, ◌+◌, ◌-◌, ◌≤◌, ◌<◌, ◌≡◌, refl, ap, sym, ◌∙◌, not, ◌&&◌, Option, none, some, List,
  [], ◌∷◌, ◌++◌, append_assoc, append-nil, Bytes, char_at, length, length-append, drop, ◌==◌, arith,
  ok, fail, e_nametoolong, Errno, Bool-cases, bind-ok, inl, inr, ltb,
}
use doki_proot.Path.Components.{
  components, components-append, components-slash, components-trailing, components-nil,
}
use doki_proot.Path.Join.{path_max, join_step, join_loop, join_paths, join2}

-- A text that ends in a separator has something before it.
pub ends_in_slash :
    (s : Bytes) (i : ℕ) → suc i ≡ length s → char_at s i ≡ b'/' → (t : Bytes) × (s ≡ t ++ b'/' ∷ [])
ends_in_slash [] i e h = absurd (omega arith)
ends_in_slash (x ∷ []) zero e h = ([], ground arith)
ends_in_slash (x ∷ []) (suc i) e h = absurd (omega arith)
ends_in_slash (x ∷ y ∷ s) zero e h = absurd (omega arith)
ends_in_slash (x ∷ y ∷ s) (suc i) e h =
    let (t, p) = ends_in_slash (y ∷ s) i (omega arith) h in (x ∷ t, ap (λ l. x ∷ l) p)

components-after_slash :
    (r p : Bytes)
    → 0 < length r
    → char_at r (length r - 1) ≡ b'/'
    → components (r ++ p) ≡ components r ++ components p
components-after_slash r p n h =
    let (t, e) = ends_in_slash r (length r - 1) (omega arith) h in
    rw e (
      ap components (append_assoc t (b'/' ∷ []) p)
      ∙ components-append t p
      ∙ ap (λ l. l ++ components p) (sym (components-trailing t)))

components-before_slash :
    (r p : Bytes) → char_at p 0 ≡ b'/' → components (r ++ p) ≡ components r ++ components p
components-before_slash r [] h = absurd (omega arith)
components-before_slash r (c ∷ p) h =
    rw h (components-append r p ∙ ap (λ l. components r ++ l) (sym (components-slash p)))

components-drop_slash :
    (r p : Bytes)
    → 0 < length r
    → char_at r (length r - 1) ≡ b'/'
    → char_at p 0 ≡ b'/'
    → components (r ++ drop 1 p) ≡ components r ++ components p
components-drop_slash r [] n h k = absurd (omega arith)
components-drop_slash r (c ∷ p) n h k = rw (k, components-after_slash r p n h, components-slash p)

join_step-components :
    (result path r : Bytes)
    → join_step result path ≡ ok r
    → components r ≡ components result ++ components path
unfolding join_step
join_step-components [] path r h = ground (arith, components-nil)
join_step-components (c ∷ s) path r h = ground (
  arith,
  components-append (c ∷ s) path,
  components-after_slash (c ∷ s) path,
  components-before_slash (c ∷ s) path,
  components-drop_slash (c ∷ s) path,
)

length-drop-le : (p : Bytes) → length (drop 1 p) ≤ length p
length-drop-le [] = omega arith
length-drop-le (x ∷ p) = omega arith

join_step-bound : (result path r : Bytes) → join_step result path ≡ ok r → length r + 1 < path_max
unfolding join_step
join_step-bound [] path r h = ground arith
join_step-bound (c ∷ s) [] r h = ground (arith, length-append s [], length-append s (b'/' ∷ []))
join_step-bound (c ∷ s) (d ∷ path) r h =
    ground
      (arith, length-append s path, length-append s (d ∷ path), length-append s (b'/' ∷ d ∷ path))

-- The components of all the paths that are not NULL, in order.
abbrev pub components_of : List (Option Bytes) → List Bytes
components_of [] = []
components_of (none ∷ paths) = components_of paths
components_of (some path ∷ paths) = components path ++ components_of paths

join_loop-components :
    (result : Bytes) (paths : List (Option Bytes)) (r : Bytes)
    → length result + 1 < path_max
    → join_loop result paths ≡ ok r
    → (components r ≡ components result ++ components_of paths) × (length r + 1 < path_max)
unfolding join_loop
join_loop-components result [] r b h = (ground (arith, append-nil (components r)), ground arith)
join_loop-components result (none ∷ paths) r b h = join_loop-components result paths r b h
join_loop-components result (some path ∷ paths) r b h =
    let (x, e, k) = bind-ok (join_step result path) (λ x. join_loop x paths) h in
    let (p, q) = join_loop-components x paths r (join_step-bound result path x e) k in
    (
      p
          ∙ ap (λ l. l ++ components_of paths) (join_step-components result path x e)
          ∙ append_assoc (components result) (components path) (components_of paths),
      q,
    )

-- When joining succeeds, the components of the result are those of the joined paths in order,
-- and the result fits into the buffer with its NUL and a byte to spare.
pub join_paths-components :
    (paths : List (Option Bytes)) (r : Bytes)
    → join_paths paths ≡ ok r
    → (components r ≡ components_of paths) × (length r + 1 < path_max)
unfolding join_paths
join_paths-components paths r h =
    let (p, q) = join_loop-components [] paths r (omega arith) h in
    (p ∙ ap (λ l. l ++ components_of paths) components-nil, q)

-- A bound on the length of the result: every path and a separator before it.
abbrev pub room : List (Option Bytes) → ℕ
room [] = 0
room (none ∷ paths) = room paths
room (some path ∷ paths) = 1 + length path + room paths

join_step-fits :
    (result path : Bytes)
    → length result + (1 + length path) + 1 < path_max
    → (r : Bytes) × (join_step result path ≡ ok r) × (length r ≤ length result + (1 + length path))
unfolding join_step
join_step-fits result path h =
    elim (Bool-cases (
      ltb 0 (length result)
      && not (char_at result (length result - 1) == b'/')
      && not (char_at path 0 == b'/'))) [
        | inl e ↦
            (result ++ b'/' ∷ path, ground arith, omega (arith, length-append result (b'/' ∷ path)))
        | inr n ↦
            elim (Bool-cases (
              ltb 0 (length result)
              && char_at result (length result - 1) == b'/'
              && char_at path 0 == b'/')) [
                | inl e ↦ (
                  result ++ drop 1 path,
                  ground arith,
                  omega (arith, length-append result (drop 1 path), length-drop-le path),
                )
                | inr m ↦ (result ++ path, ground arith, omega (arith, length-append result path))
              ]
      ]

-- Joining succeeds where the paths have room in the buffer, and fails by ENAMETOOLONG alone.
pub join_loop-fits :
    (result : Bytes) (paths : List (Option Bytes))
    → length result + room paths + 1 < path_max
    → (r : Bytes) × (join_loop result paths ≡ ok r)
unfolding join_loop
join_loop-fits result [] h = (result, refl)
join_loop-fits result (none ∷ paths) h = join_loop-fits result paths h
join_loop-fits result (some path ∷ paths) h =
    let (x, e, k) = join_step-fits result path (omega arith) in
    let (r, f) = join_loop-fits x paths (omega arith) in (r, rw e f)

pub join_paths-fits :
    (paths : List (Option Bytes))
    → room paths + 1 < path_max
    → (r : Bytes) × (join_paths paths ≡ ok r) × (components r ≡ components_of paths)
unfolding join_paths
join_paths-fits paths h =
    let (r, e) = join_loop-fits [] paths (omega arith) in
    (r, e, (join_paths-components paths r e).0)

join_step-error :
    (result path : Bytes) (e : Errno) → join_step result path ≡ fail e → e ≡ e_nametoolong
unfolding join_step
join_step-error result path e h = ground arith

pub join2-eq :
    (base path : Bytes)
    → 0 < length base
    → length base + 1 < path_max
    → join2 base path ≡ join_step base path
unfolding join2 join_paths join_loop
join2-eq base path h k = ground arith

pub join2-ok : (base path r : Bytes) → join2 base path ≡ ok r → join_step base path ≡ ok r
unfolding join2 join_paths join_loop
join2-ok base path r h = ground arith

pub join2-bound : (base path r : Bytes) → join2 base path ≡ ok r → length r + 1 < path_max
join2-bound base path r h = join_step-bound base path r (join2-ok base path r h)
