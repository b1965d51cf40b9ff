-- ===== src/Prelude/Text.antt =====
-- C strings: the list of a string's bytes, without the NUL that ends it.
use Prim.Native.Nat.{ℕ, zero, suc, ◌<◌}
use Prim.Native.Char.{code}
use Prim.Native.String.{String}
use mathlib.Core.Bool.{Bool, true, false, ◌&&◌}
use mathlib.Core.Path.{◌≡◌, refl}
use mathlib.Core.Logic.{◌↔◌, ◌≢◌}
use mathlib.Core.List.{List, [], ◌∷◌, ◌++◌}
use native.Mathlib.Omega.{arith}
use doki_proot.Prelude.Tests.{◌==◌, if◌then◌else◌}
use doki_proot.Prelude.Lists.{get_or, All, length}

abbrev pub Bytes : Type 0
Bytes = List ℕ

-- The bytes of an ASCII literal.
abbrev pub codes : String → Bytes
codes String.[] = []
codes (String.◌∷◌ c s) = code c ∷ codes s

-- s[i], where the byte at the end of the string is the NUL.
abbrev pub char_at : Bytes → ℕ → ℕ
char_at s i = get_or s i 0

-- strcmp(a, b) == 0
unfoldable pub str_eq : Bytes → Bytes → Bool
str_eq [] [] = true
str_eq [] (y ∷ b) = false
str_eq (x ∷ a) [] = false
str_eq (x ∷ a) (y ∷ b) = x == y && str_eq a b

pub str_eq_iff : (a b : Bytes) → (str_eq a b ≡ true) ↔ (a ≡ b)
unfolding str_eq
str_eq_iff [] [] = (λ _. refl, λ _. refl)
str_eq_iff [] (y ∷ b) = (λ h. cc, λ h. cc)
str_eq_iff (x ∷ a) [] = (λ h. cc, λ h. cc)
str_eq_iff (x ∷ a) (y ∷ b) =
    (λ h. ground (arith, (str_eq_iff a b).0), λ h. ground (arith, (str_eq_iff a b).1))

-- A buffer as a C string: the bytes before the first NUL.
unfoldable pub c_string : Bytes → Bytes
c_string [] = []
c_string (c ∷ s) = let rest = c_string s in if c == 0 then [] else c ∷ rest

pub c_string-ended : (s rest : Bytes) → All (λ c. c ≢ 0) s → c_string (s ++ 0 ∷ rest) ≡ s
unfolding c_string
c_string-ended [] rest h = refl
c_string-ended (x ∷ s) rest h = ground (arith, c_string-ended s rest h.1)

pub char_at-before : (s t : Bytes) (i : ℕ) → i < length s → char_at (s ++ t) i ≡ char_at s i
char_at-before [] t i h = absurd (omega arith)
char_at-before (x ∷ s) t zero h = refl
char_at-before (x ∷ s) t (suc i) h = char_at-before s t i (omega arith)
