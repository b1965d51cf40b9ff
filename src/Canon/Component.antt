-- ===== src/Canon/Component.antt =====
-- `next_component` and `pop_component` of proot/src/path/canon.c, and the enum `Finality` of
-- proot/src/path/path.h.
use doki_proot.Prelude.{
  ℕ, zero, suc, ◌-◌, Bool, true, false, not, [], ◌∷◌, Bytes, char_at, length, take, leb, ◌==◌,
  if◌then◌else◌, Result, ok, fail, e_nametoolong,
}

pub data Finality : Type 0 where
  not_final final_normal final_slash final_dot : Finality

unfoldable pub is_final : Finality → Bool
is_final not_final = false
is_final _ = true

abbrev pub name_max : ℕ
name_max = 255

unfoldable pub skip_slashes : Bytes → Bytes
skip_slashes [] = []
skip_slashes (c ∷ s) = let rest = skip_slashes s in if c == b'/' then rest else c ∷ s

-- The bytes up to the next separator, and what follows them.
unfoldable pub span_component : Bytes → Bytes × Bytes
span_component [] = ([], [])
span_component (c ∷ s) =
    let (component, rest) = span_component s in
    if c == b'/' then ([], c ∷ s) else (c ∷ component, rest)

-- The component, whether it is the last one, and the new cursor.
unfoldable pub next_component : Bytes → Result (Bytes × Finality × Bytes)
unfolding skip_slashes span_component
next_component cursor =
    let (component, rest) = span_component (skip_slashes cursor) in
    if leb name_max (length component)
    then fail e_nametoolong
    else let want_dir = char_at rest 0 == b'/' in
      let after = skip_slashes rest in
      ok (
        component,
        (if char_at after 0 == 0
            then (if want_dir then final_slash else final_normal)
            else not_final),
        after,
      )

-- while (offset > 1 && test(offset)) offset--;
unfoldable pub back_while : (ℕ → Bool) → ℕ → ℕ
back_while test zero = zero
back_while test (suc zero) = suc zero
back_while test (suc (suc n)) =
    let before = back_while test (suc n) in if test (suc (suc n)) then before else suc (suc n)

unfoldable pub pop_component : Bytes → Bytes
unfolding back_while
pop_component path =
    let offset = length path - 1 in
    if offset == 0
    then path
    else let skipped = back_while (λ i. char_at path i == b'/') offset in
      take (back_while (λ i. not (char_at path i == b'/')) skipped) path
