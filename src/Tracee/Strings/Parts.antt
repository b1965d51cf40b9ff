-- ===== src/Tracee/Strings/Parts.antt =====
-- What a part of memory shows of a string, for read_string of proot/src/tracee/mem.c.
use doki_proot.Prelude.{
  ℕ, zero, suc, ◌+◌, ◌≤◌, ◌<◌, ◌≡◌, ◌≢◌, refl, ◌⊎◌, inr, [], ◌∷◌, ◌++◌, Bytes, All, c_string,
  length, take, drop, arith,
}
use doki_proot.Tracee.Mem.{Mem}
use doki_proot.Tracee.Mem.Words.{Holds}
use doki_proot.Tracee.Strings.{nul_at}

abbrev pub IsText : Bytes → Type 0
IsText s = All (λ (c : ℕ). c ≢ 0) s

-- A string's NUL is among the bytes that have been got, or they are a part of the string.
abbrev pub Ended : Bytes → Bytes → Type 0
Ended got s = (nul_at got < length got) × (nul_at got ≡ length s) × (c_string got ≡ s)

abbrev pub Partial : Bytes → Bytes → Type 0
Partial got s = (nul_at got ≡ length got) × (length got ≤ length s) × (take (length got) s ≡ got)

pub Ended-or_Partial :
    (mem : Mem) (address : ℕ) (s rest got : Bytes)
    → IsText s
    → Holds mem address (s ++ 0 ∷ rest)
    → Holds mem address got
    → Ended got s ⊎ Partial got s
unfolding nul_at c_string
Ended-or_Partial mem address s rest [] p h g = inr (refl, omega arith, refl)
Ended-or_Partial mem address [] rest (c ∷ got) p h g =
    let first : c ≡ 0 = cc in ground (arith, first)
Ended-or_Partial mem address (d ∷ s) rest (c ∷ got) p h g =
    let first : c ≡ d = cc in
    let later = Ended-or_Partial mem (address + 1) s rest got p.1 h.1 g.1 in
    ground (arith, first, later, p.0)

pub c_string-text :
    (before s : Bytes) → IsText before → c_string (before ++ s) ≡ before ++ c_string s
unfolding c_string
c_string-text [] s p = refl
c_string-text (c ∷ before) s p = ground (arith, c_string-text before s p.1, p.0)

pub c_string-cut :
    (s : Bytes) → nul_at s < length s → c_string (take (suc (nul_at s)) s) ≡ c_string s
unfolding c_string nul_at
c_string-cut [] l = absurd (omega arith)
c_string-cut (c ∷ s) l = ground (arith, c_string-cut s)

pub drop-append : (n : ℕ) (s t : Bytes) → n ≤ length s → drop n (s ++ t) ≡ drop n s ++ t
drop-append zero s t l = refl
drop-append (suc n) [] t l = absurd (omega arith)
drop-append (suc n) (c ∷ s) t l = drop-append n s t (omega arith)

pub IsText-drop : (n : ℕ) (s : Bytes) → IsText s → IsText (drop n s)
IsText-drop zero s p = p
IsText-drop (suc n) [] p = tt
IsText-drop (suc n) (c ∷ s) p = IsText-drop n s p.1

pub IsText-take : (n : ℕ) (s : Bytes) → IsText s → IsText (take n s)
IsText-take zero s p = tt
IsText-take (suc n) [] p = tt
IsText-take (suc n) (c ∷ s) p = (p.0, IsText-take n s p.1)
