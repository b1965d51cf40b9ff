-- ===== src/Tracee/Strings/Whole.antt =====
-- A string that stands in memory is read whole by read_string of proot/src/tracee/mem.c.
use doki_proot.Prelude.{
  ℕ, zero, suc, ◌+◌, ◌-◌, ◌*◌, ◌/◌, ◌%◌, ◌≤◌, ◌<◌, ◌≡◌, sym, ◌∙◌, ap, subst, inl, inr, Bool, true,
  false, Option, none, some, [], ◌∷◌, ◌++◌, append_assoc, Bytes, c_string, length, length-append,
  length-drop, length-take-le, take, append-take-drop, drop, ltb, if◌then◌else◌, Result, ok, fail,
  ◌>>=◌, arith,
}
use doki_proot.Tracee.Mem.{Mem, to_word}
use doki_proot.Tracee.Mem.Words.{Holds, bytes_at-Holds, Holds-drop, Holds-take}
use doki_proot.Tracee.Mem.Reads.{IsTruthful, in_words}
use doki_proot.Tracee.Strings.{nul_at, read_last, read_string_words, min, read_chunks, read_string}
use doki_proot.Tracee.Strings.Parts.{
  IsText, Ended-or_Partial, c_string-text, c_string-cut, drop-append, IsText-drop, IsText-take,
}

-- The bytes that are copied are a string, and the status is its size with the NUL byte.
abbrev pub IsWhole : Bytes → Result (Bytes × ℕ) → Type 0
IsWhole s (fail code) = ⊥
IsWhole s (ok (copied, status)) = (c_string copied ≡ s) × (status ≡ suc (length s))

read_last-IsWhole :
    (mem : Mem) (n src : ℕ) (s rest : Bytes)
    → IsText s
    → length s < n
    → n < 8
    → 8 ≤ length (s ++ 0 ∷ rest)
    → Holds mem src (s ++ 0 ∷ rest)
    → IsWhole s (read_last mem n src)
unfolding read_last
read_last-IsWhole mem n src s rest p l small room h =
    let word = take 8 (s ++ 0 ∷ rest) in
    let got = take n word in
    let size : length got ≡ n =
      length-take-le n word (omega (arith, length-take-le 8 (s ++ 0 ∷ rest) room)) in
    let held = Holds-take mem n src word (Holds-take mem 8 src (s ++ 0 ∷ rest) h) in
    rw (bytes_at-Holds mem 8 src (s ++ 0 ∷ rest) room h, read_last)
      (elim (Ended-or_Partial mem src s rest got p h held) [
        | inl (inside, at, same) ↦ (c_string-cut got inside ∙ same, ap suc at)
        | inr (full, short, part) ↦ absurd (omega arith)
      ])

-- A part of the string that has been read, and the rest.
IsWhole-behind :
    (part s : Bytes) (n : ℕ) (later : Result (Bytes × ℕ))
    → IsText s
    → n ≡ length part
    → length part ≤ length s
    → take (length part) s ≡ part
    → IsWhole (drop (length part) s) later
    → IsWhole s (later >>= λ (rest, status). ok (part ++ rest, n + status))
IsWhole-behind part s n (fail code) p e l first k = absurd k
IsWhole-behind part s n (ok (rest, status)) p e l first k = (
  c_string-text part rest (subst IsText first (IsText-take (length part) s p))
      ∙ ap (λ r. part ++ r) k.0
      ∙ ap (λ r. r ++ drop (length part) s) (sym first)
      ∙ append-take-drop (length part) s,
  omega (arith, length-drop (length part) s, k.1),
)

read_string_words-IsWhole :
    (mem : Mem) (n trailing src : ℕ) (s rest : Bytes)
    → IsText s
    → length s < n * 8 + trailing
    → trailing < 8
    → src + length (s ++ 0 ∷ rest) < 18446744073709551616
    → in_words (suc (length s)) ≤ length (s ++ 0 ∷ rest)
    → Holds mem src (s ++ 0 ∷ rest)
    → IsWhole s (read_string_words mem n trailing src)
unfolding read_string_words
read_string_words-IsWhole mem zero trailing src s rest p l small room words h =
    read_last-IsWhole mem trailing src s rest p (omega arith) small (omega arith) h
read_string_words-IsWhole mem (suc n) trailing src s rest p l small room words h =
    let r = s ++ 0 ∷ rest in
    let word = take 8 r in
    let size : length word ≡ 8 = length-take-le 8 r (omega arith) in
    let next : to_word (src + 8) ≡ src + 8 = omega arith in
    elim (Ended-or_Partial mem src s rest word p h (Holds-take mem 8 src r h)) [
      | inl (inside, at, same) ↦
          let found : ltb (nul_at word) 8 ≡ true = ground arith in
          rw (bytes_at-Holds mem 8 src r (omega arith) h, found, read_string_words)
            (same, ap suc at)
      | inr (full, short, part) ↦
          let none : ltb (nul_at word) 8 ≡ false = ground arith in
          let behind = drop-append 8 s (0 ∷ rest) (omega arith) in
          let held : Holds mem (src + 8) (drop 8 s ++ 0 ∷ rest) =
            subst (Holds mem (src + 8)) behind (Holds-drop mem 8 src r (omega arith) h) in
          let later =
            read_string_words-IsWhole mem n trailing (src + 8) (drop 8 s) rest (IsText-drop 8 s p)
              (omega (arith, length-drop 8 s)) small
              (omega (
                arith,
                length-drop 8 s,
                length-append (drop 8 s) (0 ∷ rest),
                length-append s (0 ∷ rest),
              ))
              (omega (
                arith,
                length-drop 8 s,
                length-append (drop 8 s) (0 ∷ rest),
                length-append s (0 ∷ rest),
              ))
              held in
          rw (bytes_at-Holds mem 8 src r (omega arith) h, none, next, read_string_words)
            (IsWhole-behind word s 8 (read_string_words mem n trailing (src + 8)) p (sym size) short
              part (rw size later))
    ]

-- What the chunks give, if they give anything, is the string.
abbrev IsWholeIfFound : Bytes → Option (Bytes × ℕ) → Type 0
IsWholeIfFound s none = Unit
IsWholeIfFound s (some found) = IsWhole s (ok found)

go_on :
    (s : Bytes) (short more : Bool) (again : Option (Bytes × ℕ))
    → IsWholeIfFound s again
    → IsWholeIfFound s (if short then none else if more then again else none)
go_on s true more again k = tt
go_on s false true again k = k
go_on s false false again k = tt

module _ (vm_read : Mem → ℕ → ℕ → Bytes) (truthful : IsTruthful vm_read) (chunk_size : ℕ)
    (mem : Mem) (src max_size : ℕ) where
  read_chunks-IsWhole :
      (fuel : ℕ) (before s rest : Bytes)
      → IsText before
      → IsText s
      → src + length before + length (s ++ 0 ∷ rest) < 18446744073709551616
      → Holds mem (src + length before) (s ++ 0 ∷ rest)
      → IsWholeIfFound (before ++ s) (read_chunks vm_read chunk_size mem src max_size fuel before)
  unfolding read_chunks
  read_chunks-IsWhole zero before s rest q p room h = tt
  read_chunks-IsWhole (suc fuel) before s rest q p room h =
      let address : to_word (src + length before) ≡ src + length before = omega arith in
      let size = min (chunk_size - (src + length before) % chunk_size) (max_size - length before) in
      let got = vm_read mem (src + length before) size in
      let held = truthful mem (src + length before) size in
      elim (Ended-or_Partial mem (src + length before) s rest got p h held) [
        | inl (inside, at, same) ↦
            let found : ltb (nul_at got) (length got) ≡ true = ground arith in
            rw (address, found, read_chunks)
              (
                c_string-text before got q ∙ ap (λ r. before ++ r) same,
                omega (arith, at, length-append before s),
              )
        | inr (full, short, part) ↦
            let none_found : ltb (nul_at got) (length got) ≡ false = ground arith in
            let k = length got in
            let text : IsText got = subst IsText part (IsText-take k s p) in
            let size_of = length-append before got in
            let place : src + length (before ++ got) ≡ src + length before + k = omega arith in
            let behind = drop-append k s (0 ∷ rest) short in
            let held' : Holds mem (src + length (before ++ got)) (drop k s ++ 0 ∷ rest) = rw place (
              subst (Holds mem (src + length before + k)) behind (
                Holds-drop mem k (src + length before) (s ++ 0 ∷ rest)
                  (omega (arith, length-append s (0 ∷ rest))) h)) in
            let later =
              read_chunks-IsWhole fuel (before ++ got) (drop k s) rest
                (text_append before got q text) (IsText-drop k s p)
                (omega (
                  arith,
                  length-drop k s,
                  length-append (drop k s) (0 ∷ rest),
                  length-append s (0 ∷ rest),
                ))
                held' in
            let whole : (before ++ got) ++ drop k s ≡ before ++ s =
              append_assoc before got (drop k s)
              ∙ ap (λ r. before ++ r) (ap (λ r. r ++ drop k s) (sym part) ∙ append-take-drop k s) in
            rw (address, none_found, read_chunks)
              (go_on (before ++ s) _ _ _ (
                subst
                  (λ r.
                    IsWholeIfFound r
                      (read_chunks vm_read chunk_size mem src max_size fuel (before ++ got)))
                  whole later))
      ]
    where
      text_append : (a b : Bytes) → IsText a → IsText b → IsText (a ++ b)
      text_append [] b q r = r
      text_append (c ∷ a) b q r = (q.0, text_append a b q.1 r)

-- A string without NUL bytes that stands, with a NUL behind it, in memory, of fewer bytes than
-- `max_size`, where there is memory for all words that the string with its NUL touches, and the
-- addresses do not wrap around: read_string succeeds, what it has copied is that string, and the
-- status is its size with the NUL byte, whatever parts of memory process_vm_readv reads.
pub read_string-IsWhole :
    (vm_read : Mem → ℕ → ℕ → Bytes) (chunk_size : ℕ) (mem : Mem) (src max_size : ℕ) (s rest : Bytes)
    → IsTruthful vm_read
    → IsText s
    → length s < max_size
    → src + length (s ++ 0 ∷ rest) < 18446744073709551616
    → in_words (suc (length s)) ≤ length (s ++ 0 ∷ rest)
    → Holds mem src (s ++ 0 ∷ rest)
    → IsWhole s (read_string vm_read chunk_size mem src max_size)
unfolding read_string
read_string-IsWhole vm_read chunk_size mem src max_size s rest truthful p l room words h =
    let start : src + 0 ≡ src = omega arith in
    go (read_chunks vm_read chunk_size mem src max_size (suc max_size) []) (
      read_chunks-IsWhole vm_read truthful chunk_size mem src max_size (suc max_size) [] s rest tt p
        (omega arith) (rw start h))
  where
    go :
        (o : Option (Bytes × ℕ))
        → IsWholeIfFound s o
        → IsWhole s (elim o [
          | some found ↦ ok found
          | none ↦ read_string_words mem (max_size / 8) (max_size % 8) src
        ])
    go (some found) k = k
    go none k =
        read_string_words-IsWhole mem (max_size / 8) (max_size % 8) src s rest p (omega arith)
          (omega arith) room words h
