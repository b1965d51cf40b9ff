-- ===== src/Execve/Shebang/Ends.antt =====
-- What extract_shebang (proot/src/execve/shebang.c) makes of the ends of a path and an argument.
use doki_proot.Prelude.{
  ℕ, zero, suc, ◌-◌, ◌≤◌, ◌<◌, ◌≡◌, ◌≢◌, refl, ap, Bool, true, false, [], ◌∷◌, ◌++◌, map, Bytes,
  c_string, char_at-before, All-map, char_at, length, length-append, take-length-append, All, ◌==◌,
  ==_iff, Bool-cases, inl, inr, arith,
}
use doki_proot.Canon.Component.{back_while}
use doki_proot.Execve.Shebang.{is_blank, is_newline, trim}
use doki_proot.Execve.Shebang.Slurp.{IsBlank, IsText, IsName}

pub IsText-proper : (s : Bytes) → All IsText s → All (λ c. c ≢ 0) s
IsText-proper s h = All-map IsText (λ c. c ≢ 0) s (λ c k. k.1) h

pub c_string-same : (s : Bytes) → All IsText s → c_string s ≡ s
unfolding c_string
c_string-same [] h = refl
c_string-same (x ∷ s) h = ground (arith, c_string-same s h.1)

char_at-blank :
    (s t : Bytes) (i : ℕ)
    → All IsBlank t
    → length s ≤ i
    → i < length (s ++ t)
    → is_blank (char_at (s ++ t) i) ≡ true
char_at-blank [] [] i h k l = absurd (omega arith)
char_at-blank [] (x ∷ t) zero h k l = h.0
char_at-blank [] (x ∷ t) (suc i) h k l = char_at-blank [] t i h.1 (omega arith) (omega arith)
char_at-blank (x ∷ s) t zero h k l = absurd (omega arith)
char_at-blank (x ∷ s) t (suc i) h k l = char_at-blank s t i h (omega arith) (omega arith)

back_while-down :
    (test : ℕ → Bool) (k n : ℕ)
    → 0 < k
    → k ≤ n
    → test k ≡ false
    → ((j : ℕ) → k < j → j ≤ n → test j ≡ true)
    → back_while test n ≡ k
unfolding back_while
back_while-down test k zero p l stop down = absurd (omega arith)
back_while-down test k (suc zero) p l stop down = omega arith
back_while-down test k (suc (suc n)) p l stop down = elim (Bool-cases (k == suc (suc n))) [
  | inl e ↦
      let same : k ≡ suc (suc n) = (==_iff k (suc (suc n))).0 e in ground (arith, ap test same)
  | inr e ↦
      let less : k ≤ suc n = ground arith in
      let before =
        back_while-down test k (suc n) p less stop (λ j lo hi. down j lo (omega arith)) in
      let here = down (suc (suc n)) (omega arith) (omega arith) in ground arith
]

pub trim-blanks :
    (s blanks : Bytes)
    → 0 < length s
    → is_blank (char_at s (length s - 1)) ≡ false
    → All IsBlank blanks
    → trim (s ++ blanks) ≡ s
unfolding trim
trim-blanks s blanks p proper h =
    let back : back_while (λ n. is_blank (char_at (s ++ blanks) (n - 1))) (length (s ++ blanks))
        ≡ length s =
      back_while-down _ (length s) (length (s ++ blanks)) p (omega (arith, length-append s blanks))
        (rw (char_at-before s blanks (length s - 1) (omega arith)) proper)
        (λ j lo hi. char_at-blank s blanks (j - 1) h (omega arith) (omega arith)) in
    rw back (take-length-append s blanks)

pub char_at-zeros : (s ys : Bytes) (i : ℕ) → length s ≤ i → char_at (s ++ map (λ c. 0) ys) i ≡ 0
char_at-zeros [] [] i h = refl
char_at-zeros [] (y ∷ ys) zero h = refl
char_at-zeros [] (y ∷ ys) (suc i) h = char_at-zeros [] ys i (omega arith)
char_at-zeros (x ∷ s) ys zero h = absurd (omega arith)
char_at-zeros (x ∷ s) ys (suc i) h = char_at-zeros s ys i (omega arith)

IsBlank-IsText : (b : ℕ) → IsBlank b → IsText b
unfolding is_blank is_newline
IsBlank-IsText b h = ground arith

pub IsText-append :
    (s blanks : Bytes) → All IsText s → All IsBlank blanks → All IsText (s ++ blanks)
IsText-append [] [] h k = tt
IsText-append [] (b ∷ blanks) h k = (IsBlank-IsText b k.0, IsText-append [] blanks h k.1)
IsText-append (x ∷ s) blanks h k = (h.0, IsText-append s blanks h.1 k)

pub IsName-IsText : (s : Bytes) → All IsName s → All IsText s
IsName-IsText [] h = tt
IsName-IsText (x ∷ s) h = (h.0.0, IsName-IsText s h.1)
