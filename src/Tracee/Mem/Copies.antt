-- ===== src/Tracee/Mem/Copies.antt =====
-- Writing word by word, in proot/src/tracee/mem.c, is writing byte by byte, and is read back.
use doki_proot.Prelude.{
  ℕ, zero, suc, ◌+◌, ◌*◌, ◌/◌, ◌≤◌, ◌<◌, ◌≡◌, refl, sym, ◌∙◌, ap, Bool-cases, inl, inr, ◌==◌,
  ==_iff, false, List, [], ◌∷◌, ◌++◌, Bytes, length, length-append, length-drop, length-take-le,
  take, take-drop, take-all, append-take-drop, drop, ok, ◌>>=◌, arith,
}
use doki_proot.Tracee.Mem.{
  Mem, overwrite, poke_data, to_word, write_words, write_trailing, write_data, gathered, write_each,
  writev_data, read_data,
}
use doki_proot.Tracee.Mem.Words.{
  IsMapped, Holds, bytes_at-Holds, Holds-drop, Holds-take, Holds-unique, Holds-IsMapped,
  Holds-overwrite, overwrite-IsMapped, overwrite_after, overwrite_again, overwrite_same,
  overwrite-Holds, IsMapped-after, IsMapped-le,
}
use doki_proot.Tracee.Mem.Reads.{in_words, IsTruthful, read_data-Holds}

poke_data-IsMapped :
    (mem : Mem) (address : ℕ) (word : Bytes)
    → IsMapped mem address 8
    → poke_data mem address word ≡ ok (overwrite mem address word)
unfolding poke_data
poke_data-IsMapped mem address word m =
    let (old, w, h) = Holds-IsMapped mem 8 address m in
    rw (bytes_at-Holds mem 8 address old (omega arith) h, poke_data) refl

write_words-overwrite :
    (n : ℕ) (mem : Mem) (dest : ℕ) (src : Bytes)
    → n * 8 ≤ length src
    → dest + n * 8 < 18446744073709551616
    → IsMapped mem dest (n * 8)
    → write_words n mem dest src ≡ ok (overwrite mem dest (take (n * 8) src))
unfolding write_words
write_words-overwrite zero mem dest src l room m = ap ok (sym (overwrite_same mem dest [] tt))
write_words-overwrite (suc n) mem dest src l room m =
    let size : suc n * 8 ≡ 8 + n * 8 = omega arith in
    let m' : IsMapped mem dest (8 + n * 8) = rw size at m in
    let poked =
      poke_data-IsMapped mem dest (take 8 src)
        (IsMapped-le mem dest 8 (8 + n * 8) (omega arith) m') in
    let next : to_word (dest + 8) ≡ dest + 8 = omega arith in
    let word : length (take 8 src) ≡ 8 = length-take-le 8 src (omega arith) in
    let later =
      write_words-overwrite n (overwrite mem dest (take 8 src)) (dest + 8) (drop 8 src)
        (omega (arith, length-drop 8 src)) (omega arith)
        (overwrite-IsMapped mem dest (take 8 src) (dest + 8) (n * 8)
          (IsMapped-after mem dest 8 (n * 8) m')) in
    rw (size, poked, next, later, write_words)
      (ap ok (
        overwrite_after mem dest (take 8 src) (take (n * 8) (drop 8 src)) (dest + 8) (omega arith)
        ∙ ap (overwrite mem dest) (take-drop 8 (n * 8) src)))

-- The rest of a word is written back as it was.
overwrite_first :
    (mem : Mem) (dest : ℕ) (src word : Bytes)
    → length src ≤ length word
    → Holds mem dest word
    → overwrite mem dest (src ++ drop (length src) word) ≡ overwrite mem dest src
overwrite_first mem dest src word l h =
    sym (overwrite_after mem dest src (drop (length src) word) (dest + length src) refl)
    ∙ overwrite_same (overwrite mem dest src) (dest + length src) (drop (length src) word) (
        overwrite-Holds mem dest src (dest + length src) (drop (length src) word) (omega arith)
          (Holds-drop mem (length src) dest word l h))

write_trailing-overwrite :
    (mem : Mem) (dest : ℕ) (src : Bytes)
    → length src < 8
    → (0 < length src → IsMapped mem dest 8)
    → write_trailing mem dest src ≡ ok (overwrite mem dest src)
unfolding write_trailing
write_trailing-overwrite mem dest [] l m = ap ok (sym (overwrite_same mem dest [] tt))
write_trailing-overwrite mem dest (c ∷ src) l m =
    let mapped = m (omega arith) in
    let (word, w, h) = Holds-IsMapped mem 8 dest mapped in
    let whole : take 8 word ≡ word = take-all 8 word (omega arith) in
    let some_bytes : (length (c ∷ src) == 0) ≡ false = ground arith in
    rw
      (
        some_bytes,
        bytes_at-Holds mem 8 dest word (omega arith) h,
        whole,
        poke_data-IsMapped mem dest ((c ∷ src) ++ drop (length (c ∷ src)) word) mapped,
        write_trailing,
      )
      (ap ok (overwrite_first mem dest (c ∷ src) word (omega arith) h))

write_by_words-overwrite :
    (mem : Mem) (dest : ℕ) (src : Bytes)
    → dest + in_words (length src) < 18446744073709551616
    → IsMapped mem dest (in_words (length src))
    → (write_words (length src / 8) mem dest src >>= λ mem'.
        write_trailing mem' (to_word (dest + length src / 8 * 8)) (drop (length src / 8 * 8) src))
      ≡ ok (overwrite mem dest src)
write_by_words-overwrite mem dest src room m =
    let n = length src / 8 * 8 in
    let at : to_word (dest + n) ≡ dest + n = omega arith in
    let words =
      write_words-overwrite (length src / 8) mem dest src (omega arith) (omega arith)
        (IsMapped-le mem dest n (in_words (length src)) (omega arith) m) in
    let mem' = overwrite mem dest (take n src) in
    let trailing =
      write_trailing-overwrite mem' (dest + n) (drop n src) (omega (arith, length-drop n src)) (λ p.
        let size : in_words (length src) ≡ n + 8 = omega (arith, length-drop n src) in
        IsMapped-after mem' dest n 8
          (overwrite-IsMapped mem dest (take n src) dest (n + 8) (rw size at m))) in
    rw (words, at, trailing)
      (ap ok (
        overwrite_after mem dest (take n src) (drop n src) (dest + n)
          (omega (arith, length-take-le n src (omega arith)))
        ∙ ap (overwrite mem dest) (append-take-drop n src)))

-- Writing, where there is memory for all words that are touched, and the addresses do not wrap
-- around, changes memory to the bytes that are written, and nothing else, whatever part
-- process_vm_writev writes.
write_data-overwrite :
    (vm_written : Mem → ℕ → Bytes → ℕ) (mem : Mem) (dest : ℕ) (src : Bytes)
    → dest + in_words (length src) < 18446744073709551616
    → IsMapped mem dest (in_words (length src))
    → write_data vm_written mem dest src ≡ ok (overwrite mem dest src)
unfolding write_data
write_data-overwrite vm_written mem dest src room m =
    let written = vm_written mem dest src in
    elim (Bool-cases (written == length src)) [
      | inl e ↦
          let whole : take written src ≡ src =
            take-all written src (ground (arith, (==_iff written (length src)).0)) in
          rw (e, whole, write_data) refl
      | inr e ↦
          rw
            (
              e,
              write_by_words-overwrite (overwrite mem dest (take written src)) dest src room
                  (overwrite-IsMapped mem dest (take written src) dest (in_words (length src)) m),
              write_data,
            )
            (ap ok (overwrite_again mem dest written src))
    ]

-- What is written is read back: where there is memory for all words that are touched, and the
-- addresses do not wrap around, write_data and then read_data of as many bytes at the same address
-- succeed and give the bytes that were written, whatever parts of them process_vm_writev and
-- process_vm_readv copy.
pub read_data-write_data :
    (vm_written : Mem → ℕ → Bytes → ℕ) (vm_read : Mem → ℕ → ℕ → Bytes) (mem : Mem) (dest : ℕ)
    (src : Bytes)
    → IsTruthful vm_read
    → dest + in_words (length src) < 18446744073709551616
    → IsMapped mem dest (in_words (length src))
    → (write_data vm_written mem dest src >>= λ mem'. read_data vm_read mem' dest (length src))
      ≡ ok src
read_data-write_data vm_written vm_read mem dest src truthful room m =
    let n = length src in
    let mem' = overwrite mem dest src in
    let (r, l, h) =
      Holds-IsMapped mem' (in_words n) dest (overwrite-IsMapped mem dest src dest (in_words n) m) in
    let read = read_data-Holds vm_read mem' dest n r truthful l room h in
    let same =
      Holds-unique mem' dest (take n r) src (length-take-le n r (omega arith))
        (Holds-take mem' n dest r h) (Holds-overwrite mem [] src dest dest (omega arith)) in
    rw (write_data-overwrite vm_written mem dest src room m, read) (ap ok same)

write_each-overwrite :
    (vm_written : Mem → ℕ → Bytes → ℕ) (mem : Mem) (dest : ℕ) (buffers : List Bytes)
    → dest + length (gathered buffers) + 8 < 18446744073709551616
    → IsMapped mem dest (length (gathered buffers) + 8)
    → write_each vm_written mem dest buffers ≡ ok (overwrite mem dest (gathered buffers))
unfolding write_each
write_each-overwrite vm_written mem dest [] room m = ap ok (sym (overwrite_same mem dest [] tt))
write_each-overwrite vm_written mem dest (b ∷ buffers) room m =
    let n = length b in
    let k = length (gathered buffers) in
    let size : length (b ++ gathered buffers) ≡ n + k = length-append b (gathered buffers) in
    let at : to_word (dest + n) ≡ dest + n = omega (arith, size) in
    let mem' = overwrite mem dest b in
    let first = write_data-overwrite vm_written mem dest b (omega (arith, size)) (
      IsMapped-le mem dest (in_words n) (length (b ++ gathered buffers) + 8) (omega (arith, size))
        m) in
    let m' : IsMapped mem' (dest + n) (k + 8) = IsMapped-after mem' dest n (k + 8) (
      overwrite-IsMapped mem dest b dest (n + (k + 8)) (
        IsMapped-le mem dest (n + (k + 8)) (length (b ++ gathered buffers) + 8)
          (omega (arith, size)) m)) in
    let later = write_each-overwrite vm_written mem' (dest + n) buffers (omega (arith, size)) m' in
    rw (first, at, later, write_each)
      (ap ok (overwrite_after mem dest b (gathered buffers) (dest + n) refl))

-- Buffers that are gathered are written one behind the other: where there is memory for their
-- bytes and eight more, and the addresses do not wrap around, writev_data changes memory to the
-- bytes of all buffers, in order, and nothing else, whatever part process_vm_writev writes.
pub writev_data-overwrite :
    (vm_written : Mem → ℕ → Bytes → ℕ) (mem : Mem) (dest : ℕ) (buffers : List Bytes)
    → dest + length (gathered buffers) + 8 < 18446744073709551616
    → IsMapped mem dest (length (gathered buffers) + 8)
    → writev_data vm_written mem dest buffers ≡ ok (overwrite mem dest (gathered buffers))
unfolding writev_data
writev_data-overwrite vm_written mem dest buffers room m =
    let all = gathered buffers in
    let written = vm_written mem dest all in
    elim (Bool-cases (written == length all)) [
      | inl e ↦
          let whole : take written all ≡ all =
            take-all written all (ground (arith, (==_iff written (length all)).0)) in
          rw (e, whole, writev_data) refl
      | inr e ↦
          rw
            (
              e,
              write_each-overwrite vm_written (overwrite mem dest (take written all)) dest buffers
                  room (overwrite-IsMapped mem dest (take written all) dest (length all + 8) m),
              writev_data,
            )
            (ap ok (overwrite_again mem dest written all))
    ]
