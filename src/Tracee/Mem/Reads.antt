-- ===== src/Tracee/Mem/Reads.antt =====
-- Reading word by word, in proot/src/tracee/mem.c, is reading byte by byte.
use doki_proot.Prelude.{
  ℕ, zero, suc, ◌+◌, ◌*◌, ◌/◌, ◌%◌, ◌≤◌, ◌<◌, ◌≡◌, refl, sym, ◌∙◌, ap, Bool-cases, inl, inr, ◌==◌,
  ==_iff, false, ◌++◌, Bytes, length, length-drop, length-take-le, take, take-take, take-drop, drop,
  ok, ◌>>=◌, arith,
}
use doki_proot.Tracee.Mem.{Mem, to_word, read_words, read_trailing, read_data}
use doki_proot.Tracee.Mem.Words.{Holds, bytes_at-Holds, Holds-drop, Holds-take, Holds-unique}

-- The bytes of the words that a copy touches.
abbrev pub in_words : ℕ → ℕ
in_words size = (size + 7) / 8 * 8

read_words-Holds :
    (n : ℕ) (mem : Mem) (src : ℕ) (r : Bytes)
    → n * 8 ≤ length r
    → src + length r < 18446744073709551616
    → Holds mem src r
    → read_words n mem src ≡ ok (take (n * 8) r)
unfolding read_words
read_words-Holds zero mem src r l room h = refl
read_words-Holds (suc n) mem src r l room h =
    let next : to_word (src + 8) ≡ src + 8 = omega arith in
    let size : suc n * 8 ≡ 8 + n * 8 = omega arith in
    let later =
      read_words-Holds n mem (src + 8) (drop 8 r) (omega (arith, length-drop 8 r))
        (omega (arith, length-drop 8 r)) (Holds-drop mem 8 src r (omega arith) h) in
    rw (size, bytes_at-Holds mem 8 src r (omega arith) h, next, later, read_words)
      (ap ok (take-drop 8 (n * 8) r))

read_trailing-Holds :
    (mem : Mem) (src n : ℕ) (r : Bytes)
    → n < 8
    → (0 < n → 8 ≤ length r)
    → Holds mem src r
    → read_trailing mem src n ≡ ok (take n r)
unfolding read_trailing
read_trailing-Holds mem src zero r l full h = refl
read_trailing-Holds mem src (suc n) r l full h =
    let some_bytes : (suc n == 0) ≡ false = ground arith in
    rw (some_bytes, bytes_at-Holds mem 8 src r (full (omega arith)) h, read_trailing)
      (ap ok (take-take (suc n) 8 r (omega arith)))

-- What process_vm_readv reads is what memory holds.
abbrev pub IsTruthful : (Mem → ℕ → ℕ → Bytes) → Type 0
IsTruthful vm_read = (mem : Mem) (src size : ℕ) → Holds mem src (vm_read mem src size)

read_by_words-Holds :
    (mem : Mem) (src size : ℕ) (r : Bytes)
    → length r ≡ in_words size
    → src + in_words size < 18446744073709551616
    → Holds mem src r
    → (read_words (size / 8) mem src >>= λ words.
        read_trailing mem (to_word (src + size / 8 * 8)) (size % 8) >>= λ trailing.
        ok (words ++ trailing))
      ≡ ok (take size r)
read_by_words-Holds mem src size r l room h =
    let full = size / 8 in
    let at : to_word (src + full * 8) ≡ src + full * 8 = omega arith in
    let words = read_words-Holds full mem src r (omega arith) (omega arith) h in
    let trailing =
      read_trailing-Holds mem (src + full * 8) (size % 8) (drop (full * 8) r) (omega arith)
        (λ p. omega (arith, length-drop (full * 8) r))
        (Holds-drop mem (full * 8) src r (omega arith) h) in
    let parts : full * 8 + size % 8 ≡ size = omega arith in
    rw (words, at, trailing) (ap ok (take-drop (full * 8) (size % 8) r ∙ ap (λ n. take n r) parts))

-- Reading, where there is memory for all words that are touched, and the addresses do not wrap
-- around, gives the bytes of memory, whatever part process_vm_readv reads.
pub read_data-Holds :
    (vm_read : Mem → ℕ → ℕ → Bytes) (mem : Mem) (src size : ℕ) (r : Bytes)
    → IsTruthful vm_read
    → length r ≡ in_words size
    → src + in_words size < 18446744073709551616
    → Holds mem src r
    → read_data vm_read mem src size ≡ ok (take size r)
unfolding read_data
read_data-Holds vm_read mem src size r truthful l room h =
    elim (Bool-cases (length (vm_read mem src size) == size)) [
      | inl e ↦
          let whole : length (vm_read mem src size) ≡ size =
            (==_iff (length (vm_read mem src size)) size).0 e in
          rw (e, read_data)
            (ap ok (
              Holds-unique mem src (vm_read mem src size) (take size r)
                (whole ∙ sym (length-take-le size r (omega arith))) (truthful mem src size)
                (Holds-take mem size src r h)))
      | inr e ↦ rw (e, read_data) (read_by_words-Holds mem src size r l room h)
    ]
