-- ===== src/Canon/Names.antt =====
-- Paths as stacks of names, for `join2` of the walk in proot/src/path/canon.c.
use doki_proot.Prelude.{
  ℕ, zero, suc, ◌+◌, ◌-◌, ◌<◌, ◌≡◌, ◌≢◌, ◌∙◌, ap, false, List, [], ◌∷◌, ◌++◌, Bytes, All, char_at,
  codes, length, length-append, get_or-append, ◌==◌, append_assoc, arith, ok,
}
use doki_proot.Path.Join.{join2, join_step}
use doki_proot.Path.Join.Laws.{join2-ok}

abbrev pub HasNoSlash : Bytes → Type 0
HasNoSlash c = All (λ (x : ℕ). x ≢ b'/') c

-- A proper name: not empty, without separators, and neither "." nor "..".
pub record IsName (c : Bytes) : Type 0 where
  pub named : 0 < length c
  pub no_slash : HasNoSlash c
  pub not_dot : c ≢ codes "."
  pub not_dot_dot : c ≢ codes ".."

-- The path of a stack of names, the innermost first.
abbrev pub raw : List Bytes → Bytes
raw [] = []
raw (c ∷ cs) = raw cs ++ b'/' ∷ c

abbrev pub render : List Bytes → Bytes
render [] = b'/' ∷ []
render (c ∷ cs) = raw (c ∷ cs)

pub char_at-after : (s t : Bytes) (i : ℕ) → char_at (s ++ t) (length s + i) ≡ char_at t i
char_at-after [] t i = let e : 0 + i ≡ i = omega arith in rw e
char_at-after (x ∷ s) t i =
    let e : suc (length s) + i ≡ suc (length s + i) = omega arith in rw e (char_at-after s t i)

pub no_slash_at : (c : Bytes) (i : ℕ) → HasNoSlash c → char_at c i ≢ b'/'
no_slash_at [] i h = λ e. absurd (omega arith)
no_slash_at (x ∷ c) zero h = h.0
no_slash_at (x ∷ c) (suc i) h = no_slash_at c i h.1

-- A path read behind one of its separators.
pub name_at :
    (s c : Bytes) (n i : ℕ)
    → char_at c i ≢ b'/'
    → n ≡ length s + suc i
    → (char_at (s ++ b'/' ∷ c) n == b'/') ≡ false
name_at s c n i h e =
    let at : char_at (s ++ b'/' ∷ c) n ≡ char_at c i =
      ap (char_at (s ++ b'/' ∷ c)) e ∙ char_at-after s (b'/' ∷ c) (suc i) in
    ground arith

join_step-between :
    (base path r : Bytes)
    → 0 < length base
    → (char_at base (length base - 1) == b'/') ≡ false
    → (char_at path 0 == b'/') ≡ false
    → join_step base path ≡ ok r
    → r ≡ base ++ b'/' ∷ path
unfolding join_step
join_step-between base path r n e f h = ground arith

join_step-slashed :
    (base path r : Bytes)
    → char_at (base ++ b'/' ∷ []) (length (base ++ b'/' ∷ []) - 1) ≡ b'/'
    → (char_at path 0 == b'/') ≡ false
    → join_step (base ++ b'/' ∷ []) path ≡ ok r
    → r ≡ (base ++ b'/' ∷ []) ++ path
unfolding join_step
join_step-slashed base path r e f h = ground arith

slashed-end : (base : Bytes) → char_at (base ++ b'/' ∷ []) (length (base ++ b'/' ∷ []) - 1) ≡ b'/'
slashed-end base =
    let e : length (base ++ b'/' ∷ []) - 1 ≡ length base =
      omega (arith, length-append base (b'/' ∷ [])) in
    rw e (get_or-append base (b'/' ∷ []) 0)

join_step-root :
    (path r : Bytes)
    → (char_at path 0 == b'/') ≡ false
    → join_step (b'/' ∷ []) path ≡ ok r
    → r ≡ b'/' ∷ path
unfolding join_step
join_step-root path r f h = ground arith

no_slash_ahead : (c : Bytes) → HasNoSlash c → (char_at c 0 == b'/') ≡ false
no_slash_ahead c n = ground (arith, no_slash_at c 0 n)

-- A stack of names does not end in a separator.
pub render-end :
    (d : Bytes) (cs : List Bytes)
    → IsName d
    → (0 < length (render (d ∷ cs)))
      × ((char_at (render (d ∷ cs)) (length (render (d ∷ cs)) - 1) == b'/') ≡ false)
render-end [] cs n = absurd (omega (arith, n.named))
render-end (x ∷ d) cs n =
    let size = length-append (raw cs) (b'/' ∷ x ∷ d) in
    (
      omega arith,
      name_at (raw cs) (x ∷ d) (length (render ((x ∷ d) ∷ cs)) - 1) (length d)
          (no_slash_at (x ∷ d) (length d) n.no_slash) (omega arith),
    )

-- Entering a component: the path of the stack with the component on top.
pub join2-name :
    (cs : List Bytes) (c r : Bytes)
    → All IsName cs
    → HasNoSlash c
    → join2 (render cs) c ≡ ok r
    → r ≡ render (c ∷ cs)
join2-name [] c r s n h = join_step-root c r (no_slash_ahead c n) (join2-ok (render []) c r h)
join2-name (d ∷ cs) c r s n h =
    let (size, end) = render-end d cs s.0 in
    join_step-between (render (d ∷ cs)) c r size end (no_slash_ahead c n)
      (join2-ok (render (d ∷ cs)) c r h)

pub join2-slashed :
    (base c r : Bytes) → HasNoSlash c → join2 (base ++ b'/' ∷ []) c ≡ ok r → r ≡ base ++ b'/' ∷ c
join2-slashed base c r n h =
    join_step-slashed base c r (slashed-end base) (no_slash_ahead c n)
      (join2-ok (base ++ b'/' ∷ []) c r h)
    ∙ append_assoc base (b'/' ∷ []) c
