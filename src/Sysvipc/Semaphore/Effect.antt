-- ===== src/Sysvipc/Semaphore/Effect.antt =====
-- What the operations of a `semop` do to the values, as `sysvipc_sem_check` of
-- proot/src/extension/sysvipc/sysvipc_sem.c applies them.
use doki_proot.Prelude.{
  ℕ, zero, suc, ◌+◌, ◌-◌, ◌≤◌, ◌<◌, ◌≡◌, refl, sym, ◌∙◌, ap, true, List, [], ◌∷◌, All, get_or,
  length, ◌==◌, ==_iff, if◌then◌else◌, arith, subst,
}
use doki_proot.Sysvipc.{ℤ, pos, negsuc, Sembuf}
use doki_proot.Sysvipc.Semaphore.{granted, sem_check_loop, set, max_semval}

-- The sums of what the operations on the semaphore `i` add, and of what they take away.
unfoldable pub added : ℕ → List Sembuf → ℕ
added i [] = 0
added i (s ∷ ops) =
    let rest = added i ops in
    if s.sem_num == i then elim s.sem_op [ pos n ↦ n + rest | negsuc n ↦ rest ] else rest

unfoldable pub taken : ℕ → List Sembuf → ℕ
taken i [] = 0
taken i (s ∷ ops) =
    let rest = taken i ops in
    if s.sem_num == i then elim s.sem_op [ pos n ↦ rest | negsuc n ↦ suc n + rest ] else rest

pub length-set : (xs : List ℕ) (n y : ℕ) → length (set xs n y) ≡ length xs
unfolding set
length-set [] n y = refl
length-set (x ∷ xs) zero y = refl
length-set (x ∷ xs) (suc n) y = ap suc (length-set xs n y)

get_or-set :
    (xs : List ℕ) (n y i : ℕ)
    → n < length xs
    → get_or (set xs n y) i 0 ≡ (if n == i then y else get_or xs i 0)
unfolding set
get_or-set [] n y i h = absurd (omega arith)
get_or-set (x ∷ xs) zero y zero h = refl
get_or-set (x ∷ xs) zero y (suc i) h = ground arith
get_or-set (x ∷ xs) (suc n) y zero h = ground arith
get_or-set (x ∷ xs) (suc n) y (suc i) h = ground (arith, get_or-set xs n y i)

-- All operations are on semaphores of the set.
abbrev pub InSet : List ℕ → List Sembuf → Type 0
InSet sems ops = All (λ (s : Sembuf). s.sem_num < length sems) ops

-- A single value, where its semaphore is in the set.
value-next :
    (s : Sembuf) (ops : List Sembuf) (old new : List ℕ) (y i : ℕ)
    → s.sem_num < length old
    → get_or new i 0 + taken i ops ≡ get_or (set old s.sem_num y) i 0 + added i ops
    → get_or new i 0 + taken i ops ≡ (if s.sem_num == i then y else get_or old i 0) + added i ops
value-next s ops old new y i h e = rw (← get_or-set old s.sem_num y i h) e

InSet-set : (old : List ℕ) (n y : ℕ) (ops : List Sembuf) → InSet old ops → InSet (set old n y) ops
InSet-set old n y ops h = rw (length-set old n y) h

-- The relation of the values before and behind a list of operations.
abbrev pub IsEffect : List Sembuf → List ℕ → List ℕ → Type 0
IsEffect ops old new =
    (length new ≡ length old)
    × ((i : ℕ) → get_or new i 0 + taken i ops ≡ get_or old i 0 + added i ops)

sem_check_loop-step :
    (s : Sembuf) (ops : List Sembuf) (old new : List ℕ)
    → ((mid : List ℕ) → InSet mid ops → sem_check_loop ops mid ≡ granted new → IsEffect ops mid new)
    → InSet old (s ∷ ops)
    → sem_check_loop (s ∷ ops) old ≡ granted new
    → IsEffect (s ∷ ops) old new
unfolding sem_check_loop added taken
sem_check_loop-step s ops old new ih h e = go s.sem_op refl
  where
    rest :
        (y : ℕ)
        → sem_check_loop ops (set old s.sem_num y) ≡ granted new
        → (length new ≡ length old)
          × ((i : ℕ)
              → get_or new i 0 + taken i ops
                ≡ (if s.sem_num == i then y else get_or old i 0) + added i ops)
    rest y e' =
        let (size, values) = ih (set old s.sem_num y) (InSet-set old s.sem_num y ops h.1) e' in
        (size ∙ length-set old s.sem_num y, λ i. value-next s ops old new y i h.0 (values i))

    here : (i : ℕ) → (s.sem_num == i) ≡ true → get_or old i 0 ≡ get_or old s.sem_num 0
    here i e' = ap (λ j. get_or old j 0) (sym ((==_iff s.sem_num i).0 e'))

    go : (o : ℤ) → s.sem_op ≡ o → IsEffect (s ∷ ops) old new
    go (pos zero) o =
        let chain : sem_check_loop ops old ≡ granted new = ground arith in
        let (size, values) = ih old h.1 chain in (size, λ i. ground (arith, values i))
    go (pos (suc n)) o =
        let chain : sem_check_loop ops (set old s.sem_num (get_or old s.sem_num 0 + suc n))
            ≡ granted new =
          ground arith in
        let (size, values) = rest (get_or old s.sem_num 0 + suc n) chain in
        (size, λ i. ground (arith, values i, here i))
    go (negsuc n) o =
        let chain : sem_check_loop ops (set old s.sem_num (get_or old s.sem_num 0 - suc n))
            ≡ granted new =
          ground arith in
        let enough : suc n ≤ get_or old s.sem_num 0 = ground arith in
        let (size, values) = rest (get_or old s.sem_num 0 - suc n) chain in
        (size, λ i. ground (arith, values i, here i))

-- If the operations of a list, all on semaphores of the set, are granted, each value is the old
-- one, plus all that the operations add to it, less all that they take away; and the set keeps
-- its size.
pub sem_check_loop-IsEffect :
    (ops : List Sembuf) (old new : List ℕ)
    → InSet old ops
    → sem_check_loop ops old ≡ granted new
    → IsEffect ops old new
unfolding sem_check_loop added taken
sem_check_loop-IsEffect [] old new h e = (ground arith, λ i. ground arith)
sem_check_loop-IsEffect (s ∷ ops) old new h e =
    sem_check_loop-step s ops old new (λ mid h' e'. sem_check_loop-IsEffect ops mid new h' e') h e

set-All : (P : ℕ → Type 0) (xs : List ℕ) (n y : ℕ) → All P xs → P y → All P (set xs n y)
unfolding set
set-All P [] n y h k = tt
set-All P (x ∷ xs) zero y h k = (k, h.1)
set-All P (x ∷ xs) (suc n) y h k = (h.0, set-All P xs n y h.1 k)

-- Values of at most SYSVIPC_MAX_SEMVAL.
abbrev pub IsBounded : List ℕ → Type 0
IsBounded sems = All (λ v. v ≤ max_semval) sems

IsBounded-step :
    (s : Sembuf) (ops : List Sembuf) (old new : List ℕ)
    → ((mid : List ℕ) → IsBounded mid → sem_check_loop ops mid ≡ granted new → IsBounded new)
    → IsBounded old
    → sem_check_loop (s ∷ ops) old ≡ granted new
    → IsBounded new
unfolding sem_check_loop
IsBounded-step s ops old new ih h e = go s.sem_op refl
  where
    go : (o : ℤ) → s.sem_op ≡ o → IsBounded new
    go (pos zero) o = ih old h (ground arith)
    go (pos (suc n)) o =
        let y = get_or old s.sem_num 0 + suc n in
        let fits : y ≤ max_semval = ground arith in
        ih (set old s.sem_num y) (set-All (λ v. v ≤ max_semval) old s.sem_num y h fits)
          (ground arith)
    go (negsuc n) o =
        let y = get_or old s.sem_num 0 - suc n in
        let fits : y ≤ max_semval = ground arith in
        ih (set old s.sem_num y) (set-All (λ v. v ≤ max_semval) old s.sem_num y h fits)
          (ground arith)

-- Operations that are granted on values within the bound lead to values within the bound, so the
-- 16-bit values of the source neither wrap around nor fall below 0.
pub sem_check_loop-IsBounded :
    (ops : List Sembuf) (old new : List ℕ)
    → IsBounded old
    → sem_check_loop ops old ≡ granted new
    → IsBounded new
sem_check_loop-IsBounded [] old new h e =
    let same : old ≡ new = unfold sem_check_loop in cc in subst IsBounded same h
sem_check_loop-IsBounded (s ∷ ops) old new h e =
    IsBounded-step s ops old new (λ mid h' e'. sem_check_loop-IsBounded ops mid new h' e') h e
