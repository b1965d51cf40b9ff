-- ===== src/Canon/Fuel.antt =====
-- What `canonicalize` (proot/src/path/canon.c) calls returns without fuel, and its cursor shrinks.
use doki_proot.Prelude.{
  inl, inr, ℕ, ◌-◌, ◌≡◌, ◌≤◌, ◌<◌, ap, Bool, true, false, not, ◌&&◌, Option, none, some, [], ◌∷◌,
  Bytes, codes, char_at, length, arith, ok, Ends, Ends-bind, Ends-if, Bool-cases, ◌==◌, leb,
}
use doki_proot.Path.Compare.{compare_paths}
use doki_proot.Path.Join.{join2, join_step, join_loop, join_paths, path_max}
use doki_proot.Path.Prefix.{substitute_path_prefix}
use doki_proot.Binding.{
  Side, Binding, Bindings, substitute_binding, substitute_by, get_binding, belongs_to_guestfs,
}
use doki_proot.Detranslate.{
  ReadlinkProc, readlink_proc2, remove_root, follow, or_follow, detranslate_link, detranslate_path,
  same_binding, is_prefix,
}
use doki_proot.Canon.Component.{Finality, next_component, is_final, skip_slashes, span_component}

join_step-Ends : (base path : Bytes) → Ends (join_step base path)
unfolding join_step
join_step-Ends base path = λ e. ground arith

pub join2-Ends : (base path : Bytes) → Ends (join2 base path)
unfolding join2 join_paths join_loop join_step
join2-Ends base path = λ e. ground arith

substitute_path_prefix-Ends :
    (p : Bytes) (m : ℕ) (q : Bytes) (n : ℕ) → Ends (substitute_path_prefix p m q n)
unfolding substitute_path_prefix
substitute_path_prefix-Ends p m q n = λ e. ground arith

substitute_by-Ends : (side : Side) (o : Option Binding) (p : Bytes) → Ends (substitute_by side o p)
unfolding substitute_by
substitute_by-Ends side none p = λ e. cc
substitute_by-Ends side (some b) p =
    Ends-if (not b.need_substitution) _ _ (λ _ e. cc)
      λ _.
        Ends-bind (substitute_path_prefix p _ _ _) _ (substitute_path_prefix-Ends p _ _ _)
          λ moved _. Ends-if (leb path_max moved.1) _ _ (λ _ e. cc) (λ _ e. cc)

pub substitute_binding-Ends :
    (fs : Bindings) (side : Side) (p : Bytes) → Ends (substitute_binding fs side p)
substitute_binding-Ends fs side p =
    unfold substitute_binding in substitute_by-Ends side (get_binding fs side p) p

remove_root-Ends : (fs : Bindings) (b : Bool) (p : Bytes) → Ends (remove_root fs b p)
unfolding remove_root
remove_root-Ends fs b p = λ e. ground arith

follow-Ends : (fs : Bindings) (b c : Bool) (p : Bytes) → Ends (follow fs b c p)
unfolding follow
follow-Ends fs b c p = λ e. ground (arith, remove_root-Ends fs b p)

readlink_proc2-Ends : (rp : ReadlinkProc) (p : Bytes) → Ends (readlink_proc2 rp p)
unfolding readlink_proc2
readlink_proc2-Ends rp p = λ e. ground arith

or_follow-Ends : (fs : Bindings) (p : Bytes) (o : Option Bytes) → Ends (or_follow fs p o)
unfolding or_follow
or_follow-Ends fs p none = follow-Ends fs false true p
or_follow-Ends fs p (some t) =
    Ends-if (length t == 0) _ _ (λ _. follow-Ends fs false true p) (λ _ e. cc)

detranslate_link-Ends :
    (rp : ReadlinkProc) (fs : Bindings) (p r : Bytes) → Ends (detranslate_link rp fs p r)
unfolding detranslate_link
detranslate_link-Ends rp fs p r =
    Ends-if (is_prefix (compare_paths (codes "/proc") r)) _ _
      (λ _.
        Ends-bind (readlink_proc2 rp r) _ (readlink_proc2-Ends rp r) λ t _. or_follow-Ends fs p t)
      (λ _. follow-Ends fs false (not (belongs_to_guestfs fs r) && same_binding fs p r) p)

pub detranslate_path-Ends :
    (rp : ReadlinkProc) (fs : Bindings) (p : Bytes) (o : Option Bytes)
    → Ends (detranslate_path rp fs p o)
unfolding detranslate_path
detranslate_path-Ends rp fs p none = λ e. ground (arith, follow-Ends fs true true p)
detranslate_path-Ends rp fs p (some r) = λ e. ground (arith, detranslate_link-Ends rp fs p r)

-- A component that is not the last one leaves a shorter cursor.
skip_slashes-length : (s : Bytes) → length (skip_slashes s) ≤ length s
unfolding skip_slashes
skip_slashes-length [] = omega arith
skip_slashes-length (x ∷ s) = ground (arith, skip_slashes-length s)

span_component-rest : (s : Bytes) → length (skip_slashes (span_component s).1) ≤ length s - 1
unfolding span_component skip_slashes
span_component-rest [] = omega arith
span_component-rest (x ∷ s) = elim (Bool-cases (x == b'/')) [
  | inl e ↦ rw (e, skip_slashes) (rw e (omega (arith, skip_slashes-length s)))
  | inr e ↦ rw e (omega (arith, span_component-rest s))
]

proper : (s : Bytes) → (char_at s 0 == 0) ≡ false → 0 < length s
proper [] h = cc
proper (x ∷ s) h = omega arith

pub next_component-shorter :
    (cursor component rest : Bytes) (f : Finality)
    → next_component cursor ≡ ok (component, f, rest)
    → is_final f ≡ false
    → length rest < length cursor
unfolding next_component is_final
next_component-shorter cursor component rest f h n =
    let s = skip_slashes cursor in
    let e : rest ≡ skip_slashes (span_component s).1 = ground arith in
    let more : (char_at rest 0 == 0) ≡ false = ground arith in
    omega (arith, ap length e, span_component-rest s, skip_slashes-length cursor, proper rest more)

pub next_component-Ends : (cursor : Bytes) → Ends (next_component cursor)
unfolding next_component
next_component-Ends cursor = λ e. ground arith
