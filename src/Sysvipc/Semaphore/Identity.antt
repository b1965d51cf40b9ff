-- ===== src/Sysvipc/Semaphore/Identity.antt =====
-- The identifiers that `semget` of proot/src/extension/sysvipc/sysvipc_sem.c gives out.
use doki_proot.Prelude.{
  ℕ, zero, suc, ◌+◌, ◌-◌, ◌*◌, ◌/◌, ◌%◌, ◌<◌, ◌≤◌, ◌≡◌, refl, sym, ◌∙◌, ap, true, false, not, ◌&&◌,
  ◌||◌, Option, none, some, List, [], ◌∷◌, ◌++◌, All, length, ltb, leb, ◌==◌, ==_iff, Bool-cases,
  if◌then◌else◌, ok, fail, inl, inr, arith, subst, Ensures, Ensures-ok, Ensures-if, e_noent,
  e_nospc, e_inval, length-append,
}
use doki_proot.Sysvipc.Semaphore.Waiters.{some_injective}
use doki_proot.Sysvipc.{pos, has_flag, ipc_creat, ipc_excl, ipc_object_id, lookup_ipc_object}
use doki_proot.Sysvipc.Semaphore.{
  Semaphore, at, put, find_semaphore, zeros, create_at, open_at, semget, lookup_semaphore,
  valid_generation, max_sems, max_nsems, unused_semaphore,
}

lookup_ipc_object-id :
    (i generation : ℕ) (g : ℕ → Option ℕ)
    → i < 4095
    → generation < 32768
    → g i ≡ some generation
    → lookup_ipc_object (ipc_object_id i generation) g ≡ some i
unfolding lookup_ipc_object ipc_object_id
lookup_ipc_object-id i generation g small early e =
    let young : ltb generation 32768 ≡ true = ground arith in
    let low : (i + 1 + generation * 4096) % 4096 ≡ i + 1 = omega arith in
    let high : (i + 1 + generation * 4096) / 4096 % 65536 ≡ generation = omega arith in
    let back : i + 1 - 1 ≡ i = omega arith in
    let start : (i + 1 == 0) ≡ false = ground arith in
    let same : (generation == generation) ≡ true = (==_iff generation generation).1 refl in
    rw (young, low, start, back, e, young, high, same) (ap some (omega (arith, low)))

put-at :
    (l : List Semaphore) (i : ℕ) (s t : Semaphore) → at l i ≡ some s → at (put l i t) i ≡ some t
unfolding put at
put-at [] i s t e = cc
put-at (u ∷ l) zero s t e = refl
put-at (u ∷ l) (suc i) s t e = put-at l i s t e

at-bound : (l : List Semaphore) (i : ℕ) (s : Semaphore) → at l i ≡ some s → i < length l
unfolding at
at-bound [] i s e = cc
at-bound (u ∷ l) zero s e = omega arith
at-bound (u ∷ l) (suc i) s e = omega (arith, at-bound l i s e)

at-All :
    (P : Semaphore → Type 0) (l : List Semaphore) (i : ℕ) (s : Semaphore)
    → All P l
    → at l i ≡ some s
    → P s
unfolding at
at-All P [] i s h e = cc
at-All P (t ∷ l) zero s h e = subst P (some_injective e) h.0
at-All P (t ∷ l) (suc i) s h e = at-All P l i s h.1 e

-- The generation of a slot that has been removed fewer than 2^15 times.
abbrev pub IsYoung : Semaphore → Type 0
IsYoung s = s.generation < 32768

-- An identifier of a valid set with a key and enough values.
abbrev pub IsOpen : ℕ → ℕ → ℕ × List Semaphore → Type 0
IsOpen key n r =
    (i : ℕ) × (s : Semaphore) × (lookup_semaphore r.1 r.0 ≡ some i)
    × (at r.1 i ≡ some s)
    × (s.valid ≡ true)
    × (s.key ≡ key % 4294967296)
    × (n ≤ s.nsems)

-- Looking up the identifier of a valid set.
lookup_semaphore-id :
    (l : List Semaphore) (i : ℕ) (s : Semaphore)
    → length l ≤ max_sems
    → at l i ≡ some s
    → s.valid ≡ true
    → IsYoung s
    → lookup_semaphore l (ipc_object_id i s.generation) ≡ some i
unfolding lookup_semaphore
lookup_semaphore-id l i s size e v young =
    lookup_ipc_object-id i s.generation (λ j. valid_generation (at l j))
      (omega (arith, at-bound l i s e)) young
      (ap valid_generation e ∙ (unfold valid_generation in rw v refl))

length-put : (l : List Semaphore) (i : ℕ) (t : Semaphore) → length (put l i t) ≡ length l
unfolding put
length-put [] i t = refl
length-put (s ∷ l) zero t = refl
length-put (s ∷ l) (suc i) t = ap suc (length-put l i t)

create_at-IsOpen :
    (l : List Semaphore) (i key n : ℕ)
    → length l ≤ max_sems
    → All IsYoung l
    → Ensures (IsOpen key n) (create_at l i key n)
unfolding create_at
create_at-IsOpen l i key n size young = go (at l i) refl
  where
    go :
        (o : Option Semaphore)
        → at l i ≡ o
        → Ensures (IsOpen key n) (elim o [
          | none ↦ fail e_inval
          | some s ↦ ok (
            ipc_object_id i s.generation,
            put l i (record s { key = key % 4294967296; valid = true; sems = zeros n; nsems = n }),
          )
        ])
    go none e = tt
    go (some s) e =
        let t = record s { key = key % 4294967296; valid = true; sems = zeros n; nsems = n } in
        (
          i,
          t,
          lookup_semaphore-id (put l i t) i t (omega (arith, length-put l i t)) (put-at l i s t e)
              refl (at-All IsYoung l i s young e),
          put-at l i s t e,
          refl,
          refl,
          omega arith,
        )

-- What the search of `semget` finds.
find_semaphore-found :
    (key index : ℕ) (u : Option ℕ) (l : List Semaphore) (i : ℕ)
    → (find_semaphore key index u l).0 ≡ some i
    → (j : ℕ) × (s : Semaphore) × (i ≡ index + j)
      × (at l j ≡ some s)
      × (s.valid ≡ true)
      × (s.key ≡ key % 4294967296)
unfolding find_semaphore at
find_semaphore-found key index u [] i h = cc
find_semaphore-found key index u (s ∷ rest) i h = elim (Bool-cases s.valid) [
  | inr v ↦
      let (j, t, e, here, valid, same_key) =
        find_semaphore-found key (suc index) (elim u [ none ↦ some index | some x ↦ some x ]) rest i
          (rw (v, find_semaphore) at h) in
      (suc j, t, omega (arith, e), here, valid, same_key)
  | inl v ↦ elim (Bool-cases (not (key == 0) && s.key == key % 4294967296)) [
    | inl k ↦
        let same : s.key ≡ key % 4294967296 = (==_iff s.key (key % 4294967296)).0 (ground arith) in
        (
          zero,
          s,
          (sym (some_injective (rw (v, find_semaphore, k) at h)) ∙ omega arith),
          refl,
          v,
          same,
        )
    | inr k ↦
        let (j, t, e, here, valid, same_key) =
          find_semaphore-found key (suc index) u rest i (rw (v, find_semaphore, k) at h) in
        (suc j, t, omega (arith, e), here, valid, same_key)
  ]
]

open_at-IsOpen :
    (l : List Semaphore) (i key n flags : ℕ) (s : Semaphore)
    → length l ≤ max_sems
    → All IsYoung l
    → at l i ≡ some s
    → s.valid ≡ true
    → s.key ≡ key % 4294967296
    → Ensures (IsOpen key n) (open_at l i n flags)
unfolding open_at
open_at-IsOpen l i key n flags s size young e v k =
    Ensures-if (IsOpen key n) (has_flag flags ipc_creat && has_flag flags ipc_excl) _ _ (λ _. tt)
      λ _. rw e (
        Ensures-if (IsOpen key n) (ltb s.nsems n) _ _ (λ _. tt)
          λ enough. (
            i,
            s,
            lookup_semaphore-id l i s size e v (at-All IsYoung l i s young e),
            e,
            v,
            k,
            ground arith,
          ))

-- What `semget` does with the answer of the search.
semget_found :
    (l : List Semaphore) (key n flags : ℕ) (found unused : Option ℕ)
    → length l ≤ max_sems
    → All IsYoung l
    → (find_semaphore key 0 none l).0 ≡ found
    → Ensures (IsOpen key n) (elim found [
      | some index ↦ open_at l index n flags
      | none ↦ if not (has_flag flags ipc_creat) then fail e_noent else elim unused [
        | some slot ↦ create_at l slot key n
        | none ↦
            if leb max_sems (length l)
            then fail e_nospc
            else create_at (l ++ unused_semaphore ∷ []) (length l) key n
      ]
    ])
semget_found l key n flags (some i) unused size young e =
    let (j, s, here, found, v, k) = find_semaphore-found key 0 none l i e in
    let same : j ≡ i = omega (arith, here) in
    open_at-IsOpen l i key n flags s size young (ap (at l) (sym same) ∙ found) v k
semget_found l key n flags none (some slot) size young e =
    Ensures-if (IsOpen key n) (not (has_flag flags ipc_creat)) _ _ (λ _. tt)
      λ _. create_at-IsOpen l slot key n size young
semget_found l key n flags none none size young e =
    Ensures-if (IsOpen key n) (not (has_flag flags ipc_creat)) _ _ (λ _. tt)
      λ _.
        Ensures-if (IsOpen key n) (leb max_sems (length l)) _ _ (λ _. tt)
          λ room.
            create_at-IsOpen (l ++ unused_semaphore ∷ []) (length l) key n
              (let fits : length l < 512 = ground arith in
                omega (arith, fits, length-append l (unused_semaphore ∷ [])))
              (grown l young)
  where
    grown : (l : List Semaphore) → All IsYoung l → All IsYoung (l ++ unused_semaphore ∷ [])
    grown [] h = (omega arith, tt)
    grown (s ∷ l) h = (h.0, grown l h.1)

-- With at most 512 sets, none of which has been removed 2^15 times: if `semget` succeeds, the
-- identifier that it returns is looked up to a valid set with the key and at least the number of
-- values that were asked for, whether the set was found, or created in a used or in a new slot.
pub semget-IsOpen :
    (l : List Semaphore) (key n flags : ℕ) (r : ℕ × List Semaphore)
    → length l ≤ max_sems
    → All IsYoung l
    → semget l key (pos n) flags ≡ ok r
    → IsOpen key n r
unfolding semget
semget-IsOpen l key n flags r size young h =
    Ensures-ok (IsOpen key n) (semget l key (pos n) flags)
      (Ensures-if (IsOpen key n) (n == 0 || ltb max_nsems n) _ _ (λ _. tt)
        λ _.
          semget_found l key n flags (find_semaphore key 0 none l).0 (find_semaphore key 0 none l).1
            size young refl)
      h
