-- ===== src/Canon/Pop.antt =====
-- `pop_component` of proot/src/path/canon.c on the path of a stack of names.
use doki_proot.Prelude.{
  ℕ, zero, suc, ◌+◌, ◌-◌, ◌<◌, ◌≡◌, ◌≢◌, refl, sym, ◌∙◌, ap, Bool, true, false, not, List, [], ◌∷◌,
  ◌++◌, Bytes, char_at, length, length-append, take, take-length-append, get_or-append, ◌==◌,
  ==_iff, append_assoc, arith,
}
use doki_proot.Canon.Component.{pop_component, back_while}
use doki_proot.Canon.Names.{HasNoSlash, IsName, raw, render, char_at-after, no_slash_at, name_at}

slash_at : (s c : Bytes) → char_at (s ++ b'/' ∷ c) (length s) ≡ b'/'
slash_at s c = get_or-append s (b'/' ∷ c) 0

-- Where the cut of the last name comes to stand.
cut_at : Bytes → ℕ
cut_at [] = 1
cut_at (x ∷ s) = suc (length s)

stop_at : (test : ℕ → Bool) (n : ℕ) → test n ≡ false → back_while test n ≡ n
unfolding back_while
stop_at test zero h = refl
stop_at test (suc zero) h = refl
stop_at test (suc (suc n)) h = rw h

skip_one :
    (test : ℕ → Bool) (n : ℕ)
    → 0 < n
    → test (suc n) ≡ true
    → back_while test n ≡ n
    → back_while test (suc n) ≡ n
unfolding back_while
skip_one test zero p h e = absurd (omega arith)
skip_one test (suc n) p h e = rw h e

stop_at_slash :
    (s c : Bytes) (n : ℕ)
    → n ≡ length s
    → back_while (λ j. not (char_at (s ++ b'/' ∷ c) j == b'/')) n ≡ n
stop_at_slash s c n e = stop_at _ n (rw e (rw (slash_at s c)))

-- The first bytes of a text are no separators.
abbrev IsFree : Bytes → ℕ → Type 0
IsFree c n = (j : ℕ) → j < n → char_at c j ≢ b'/'

back_to_slash :
    (s c : Bytes) (n i : ℕ)
    → IsFree c (suc i)
    → n ≡ length s + suc i
    → back_while (λ j. not (char_at (s ++ b'/' ∷ c) j == b'/')) n ≡ cut_at s
unfolding back_while cut_at
back_to_slash s c zero i h e = absurd (omega arith)
back_to_slash [] c (suc zero) i h e = refl
back_to_slash (x ∷ s) c (suc zero) i h e = absurd (omega arith)
back_to_slash [] c (suc (suc n)) zero h e = absurd (omega arith)
back_to_slash [] c (suc (suc n)) (suc i) h e =
    let here = name_at [] c (suc (suc n)) (suc i) (h (suc i) (omega arith)) e in
    let back = back_to_slash [] c (suc n) i (λ j k. h j (omega arith)) (omega arith) in ground arith
back_to_slash (x ∷ s) c (suc (suc n)) (suc i) h e =
    let here = name_at (x ∷ s) c (suc (suc n)) (suc i) (h (suc i) (omega arith)) e in
    let back = back_to_slash (x ∷ s) c (suc n) i (λ j k. h j (omega arith)) (omega arith) in
    ground arith
back_to_slash (x ∷ s) c (suc (suc n)) zero h e =
    let here = name_at (x ∷ s) c (suc (suc n)) zero (h zero (omega arith)) e in
    let stop = stop_at_slash (x ∷ s) c (suc n) (omega arith) in ground arith

name-IsFree : (c : Bytes) (n : ℕ) → HasNoSlash c → IsFree c n
name-IsFree c n h j k = no_slash_at c j h

char_at-before : (c t : Bytes) (j : ℕ) → j < length c → char_at (c ++ t) j ≡ char_at c j
char_at-before [] t j h = absurd (omega arith)
char_at-before (x ∷ c) t zero h = refl
char_at-before (x ∷ c) t (suc j) h = char_at-before c t j (omega arith)

slashed-IsFree : (c : Bytes) → HasNoSlash c → IsFree (c ++ b'/' ∷ []) (length c)
slashed-IsFree c h j k e = no_slash_at c j h (sym (char_at-before c (b'/' ∷ []) j k) ∙ e)

take-cut_at :
    (cs : List Bytes) (c : Bytes) → take (cut_at (raw cs)) (raw cs ++ b'/' ∷ c) ≡ render cs
unfolding cut_at
take-cut_at [] c = refl
take-cut_at (d ∷ cs) c = go (raw (d ∷ cs)) refl
  where
    go : (s : Bytes) → raw (d ∷ cs) ≡ s → take (cut_at s) (s ++ b'/' ∷ c) ≡ s
    go [] e = absurd (omega (arith, ap length e, length-append (raw cs) (b'/' ∷ d)))
    go (x ∷ s) e = take-length-append (x ∷ s) (b'/' ∷ c)

-- Both loops together, from the last byte at `n`, where the first loop stops at `m`.
pop_component-cut :
    (cs : List Bytes) (c : Bytes) (n m i : ℕ)
    → length (raw cs ++ b'/' ∷ c) - 1 ≡ n
    → 0 < n
    → back_while (λ j. char_at (raw cs ++ b'/' ∷ c) j == b'/') n ≡ m
    → m ≡ length (raw cs) + suc i
    → IsFree c (suc i)
    → pop_component (raw cs ++ b'/' ∷ c) ≡ render cs
unfolding pop_component
pop_component-cut cs c n m i size pos skip e free =
    let back = back_to_slash (raw cs) c m i free e in
    let proper : (n == 0) ≡ false = ground arith in rw (size, proper, skip, back) (take-cut_at cs c)

pub pop_component-name :
    (cs : List Bytes) (c : Bytes) → IsName c → pop_component (render (c ∷ cs)) ≡ render cs
pop_component-name cs [] n = absurd (omega (arith, n.named))
pop_component-name cs (x ∷ c) n =
    let s = raw cs in
    let p = s ++ b'/' ∷ x ∷ c in
    let free = name-IsFree (x ∷ c) (suc (length c)) n.no_slash in
    let k : ℕ = length s + suc (length c) in
    pop_component-cut cs (x ∷ c) k k (length c) (omega (arith, length-append s (b'/' ∷ x ∷ c)))
      (omega arith)
      (stop_at (λ i. char_at p i == b'/') k
        (name_at s (x ∷ c) k (length c) (free (length c) (omega arith)) refl))
      refl free

-- A trailing separator is skipped first.
pub pop_component-slashed :
    (cs : List Bytes) (c : Bytes)
    → IsName c
    → pop_component (render (c ∷ cs) ++ b'/' ∷ []) ≡ render cs
pop_component-slashed cs [] n = absurd (omega (arith, n.named))
pop_component-slashed cs (x ∷ c) n =
    let s = raw cs in
    let t = x ∷ c ++ b'/' ∷ [] in
    let p = s ++ b'/' ∷ t in
    let free : IsFree t (suc (length c)) = slashed-IsFree (x ∷ c) n.no_slash in
    let k : ℕ = length s + suc (length c) in
    let whole : (s ++ b'/' ∷ x ∷ c) ++ b'/' ∷ [] ≡ p = append_assoc s (b'/' ∷ x ∷ c) (b'/' ∷ []) in
    let stop : back_while (λ i. char_at p i == b'/') k ≡ k =
      stop_at (λ i. char_at p i == b'/') k
        (name_at s t k (length c) (free (length c) (omega arith)) refl) in
    let last : char_at p (suc k) ≡ b'/' =
      let at : suc k ≡ length s + suc (suc (length c)) = omega arith in
      ap (char_at p) at
      ∙ char_at-after s (b'/' ∷ t) (suc (suc (length c)))
      ∙ get_or-append c (b'/' ∷ []) 0 in
    rw whole (
      pop_component-cut cs t (suc k) k (length c)
        (omega (arith, length-append s (b'/' ∷ t), length-append c (b'/' ∷ []))) (omega arith)
        (skip_one (λ i. char_at p i == b'/') k (omega arith) ((==_iff _ _).1 last) stop) refl free)

pub pop_component-root : pop_component (render []) ≡ render []
unfolding pop_component
pop_component-root = refl
