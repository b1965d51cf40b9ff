-- ===== src/Tracee/Mem/Words.antt =====
-- Memory as lists of bytes, for the copies of proot/src/tracee/mem.c.
use doki_proot.Prelude.{
  ℕ, zero, suc, ◌+◌, ◌-◌, ◌≤◌, ◌<◌, ◌≡◌, refl, ◌∙◌, ap, subst, Bool, true, false, ◌&&◌, some, [],
  ◌∷◌, ◌++◌, Bytes, char_at, char_at-before, take-le, length, length-append, append_assoc, take,
  drop, ltb, leb, if◌then◌else◌, arith,
}
use doki_proot.Canon.Names.{char_at-after}
use doki_proot.Tracee.Mem.{Mem, bytes_at, overwrite}

-- There is memory at each of the addresses.
abbrev pub IsMapped : Mem → ℕ → ℕ → Type 0
IsMapped mem address zero = Unit
IsMapped mem address (suc n) = ((c : ℕ) × (mem address ≡ some c)) × IsMapped mem (address + 1) n

-- The bytes from an address on are these.
abbrev pub Holds : Mem → ℕ → Bytes → Type 0
Holds mem address [] = Unit
Holds mem address (c ∷ s) = (mem address ≡ some c) × Holds mem (address + 1) s

pub bytes_at-Holds :
    (mem : Mem) (n address : ℕ) (s : Bytes)
    → n ≤ length s
    → Holds mem address s
    → bytes_at mem address n ≡ some (take n s)
unfolding bytes_at
bytes_at-Holds mem zero address s l h = refl
bytes_at-Holds mem (suc n) address [] l h = absurd (omega arith)
bytes_at-Holds mem (suc n) address (c ∷ s) l h =
    ground (arith, bytes_at-Holds mem n (address + 1) s (omega arith) h.1)

pub Holds-drop :
    (mem : Mem) (n address : ℕ) (s : Bytes)
    → n ≤ length s
    → Holds mem address s
    → Holds mem (address + n) (drop n s)
Holds-drop mem zero address s l h = let e : address + 0 ≡ address = omega arith in rw e h
Holds-drop mem (suc n) address [] l h = absurd (omega arith)
Holds-drop mem (suc n) address (c ∷ s) l h =
    let e : address + suc n ≡ address + 1 + n = omega arith in
    rw e (Holds-drop mem n (address + 1) s (omega arith) h.1)

pub Holds-unique :
    (mem : Mem) (address : ℕ) (s t : Bytes)
    → length s ≡ length t
    → Holds mem address s
    → Holds mem address t
    → s ≡ t
Holds-unique mem address [] [] l h k = refl
Holds-unique mem address [] (d ∷ t) l h k = absurd (omega arith)
Holds-unique mem address (c ∷ s) [] l h k = absurd (omega arith)
Holds-unique mem address (c ∷ s) (d ∷ t) l h k =
    let first : c ≡ d = cc in
    let rest = Holds-unique mem (address + 1) s t (omega arith) h.1 k.1 in cc

-- Mapped memory holds some bytes.
pub Holds-IsMapped :
    (mem : Mem) (n address : ℕ)
    → IsMapped mem address n
    → (s : Bytes) × (length s ≡ n) × Holds mem address s
Holds-IsMapped mem zero address m = ([], refl, tt)
Holds-IsMapped mem (suc n) address m =
    let (s, l, h) = Holds-IsMapped mem n (address + 1) m.1 in (m.0.0 ∷ s, ap suc l, (m.0.1, h))

pub overwrite-IsMapped :
    (mem : Mem) (at : ℕ) (s : Bytes) (address n : ℕ)
    → IsMapped mem address n
    → IsMapped (overwrite mem at s) address n
unfolding overwrite
overwrite-IsMapped mem at s address zero m = tt
overwrite-IsMapped mem at s address (suc n) m = (
  go (leb at address && ltb address (at + length s)),
  overwrite-IsMapped mem at s (address + 1) n m.1,
)
  where
    go :
        (b : Bool)
        → (c : ℕ) × ((if b then some (char_at s (address - at)) else mem address) ≡ some c)
    go true = (char_at s (address - at), refl)
    go false = m.0

-- What is written is read.
pub Holds-overwrite :
    (mem : Mem) (before s : Bytes) (address at : ℕ)
    → at ≡ address + length before
    → Holds (overwrite mem address (before ++ s)) at s
unfolding overwrite
Holds-overwrite mem before [] address at e = tt
Holds-overwrite mem before (c ∷ s) address at e =
    let place : at - address ≡ length before + 0 = omega arith in
    let first : char_at (before ++ c ∷ s) (at - address) ≡ c =
      ap (char_at (before ++ c ∷ s)) place ∙ char_at-after before (c ∷ s) 0 in
    let size = length-append before (c ∷ s) in
    let later =
      Holds-overwrite mem (before ++ c ∷ []) s address (at + 1)
        (omega (arith, length-append before (c ∷ []))) in
    (
      ground (arith, first, size),
      subst (λ l. Holds (overwrite mem address l) (at + 1) s) (append_assoc before (c ∷ []) s)
          later,
    )

-- Writing goes on where it has ended.
pub overwrite_after :
    (mem : Mem) (address : ℕ) (s t : Bytes) (at : ℕ)
    → at ≡ address + length s
    → overwrite (overwrite mem address s) at t ≡ overwrite mem address (s ++ t)
unfolding overwrite
overwrite_after mem address s t at e = λ i x. same x i
  where
    same : (x : ℕ) → overwrite (overwrite mem address s) at t x ≡ overwrite mem address (s ++ t) x
    same x =
        let after : at ≤ x → char_at (s ++ t) (x - address) ≡ char_at t (x - at) = λ h.
          let place : x - address ≡ length s + (x - at) = omega arith in
          ap (char_at (s ++ t)) place ∙ char_at-after s t (x - at) in
        let before : x < at
            → address ≤ x
            → char_at (s ++ t) (x - address) ≡ char_at s (x - address) =
          λ h k. char_at-before s t (x - address) (omega arith) in
        ground (arith, after, before, length-append s t)

-- Writing again overwrites what has been written of it.
pub overwrite_again :
    (mem : Mem) (address n : ℕ) (s : Bytes)
    → overwrite (overwrite mem address (take n s)) address s ≡ overwrite mem address s
unfolding overwrite
overwrite_again mem address n s = λ i x. same x i
  where
    same :
        (x : ℕ)
        → overwrite (overwrite mem address (take n s)) address s x ≡ overwrite mem address s x
    same x = ground (arith, take-le n s)

pub Holds-at :
    (mem : Mem) (at : ℕ) (s : Bytes) (i : ℕ)
    → i < length s
    → Holds mem at s
    → mem (at + i) ≡ some (char_at s i)
Holds-at mem at [] i l h = absurd (omega arith)
Holds-at mem at (c ∷ s) zero l h = let e : at + 0 ≡ at = omega arith in rw e h.0
Holds-at mem at (c ∷ s) (suc i) l h =
    let e : at + suc i ≡ at + 1 + i = omega arith in
    rw e (Holds-at mem (at + 1) s i (omega arith) h.1)

-- Writing what memory holds changes nothing.
pub overwrite_same : (mem : Mem) (at : ℕ) (s : Bytes) → Holds mem at s → overwrite mem at s ≡ mem
unfolding overwrite
overwrite_same mem at s h = λ i x. same x i
  where
    same : (x : ℕ) → overwrite mem at s x ≡ mem x
    same x =
        let held : at ≤ x → x < at + length s → mem x ≡ some (char_at s (x - at)) = λ l r.
          let place : x ≡ at + (x - at) = omega arith in
          ap mem place ∙ Holds-at mem at s (x - at) (omega arith) h in
        ground (arith, held)

-- Writing leaves what stands behind.
pub overwrite-Holds :
    (mem : Mem) (address : ℕ) (s : Bytes) (at : ℕ) (t : Bytes)
    → address + length s ≤ at
    → Holds mem at t
    → Holds (overwrite mem address s) at t
unfolding overwrite
overwrite-Holds mem address s at [] l h = tt
overwrite-Holds mem address s at (c ∷ t) l h =
    (ground (arith, h.0), overwrite-Holds mem address s (at + 1) t (omega arith) h.1)

pub Holds-take :
    (mem : Mem) (n address : ℕ) (s : Bytes) → Holds mem address s → Holds mem address (take n s)
Holds-take mem zero address s h = tt
Holds-take mem (suc n) address [] h = tt
Holds-take mem (suc n) address (c ∷ s) h = (h.0, Holds-take mem n (address + 1) s h.1)

pub IsMapped-after :
    (mem : Mem) (address n k : ℕ) → IsMapped mem address (n + k) → IsMapped mem (address + n) k
IsMapped-after mem address zero k m =
    let e : 0 + k ≡ k = omega arith in
    let at : address + 0 ≡ address = omega arith in rw at (rw e at m)
IsMapped-after mem address (suc n) k m =
    let e : suc n + k ≡ suc (n + k) = omega arith in
    let at : address + suc n ≡ address + 1 + n = omega arith in
    let m' : IsMapped mem address (suc (n + k)) = rw e at m in
    rw at (IsMapped-after mem (address + 1) n k m'.1)

pub IsMapped-le :
    (mem : Mem) (address n k : ℕ) → n ≤ k → IsMapped mem address k → IsMapped mem address n
IsMapped-le mem address zero k l m = tt
IsMapped-le mem address (suc n) zero l m = absurd (omega arith)
IsMapped-le mem address (suc n) (suc k) l m =
    (m.0, IsMapped-le mem (address + 1) n k (omega arith) m.1)
