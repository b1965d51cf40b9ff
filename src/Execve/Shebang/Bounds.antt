-- ===== src/Execve/Shebang/Bounds.antt =====
-- The buffers that extract_shebang of proot/src/execve/shebang.c fills are large enough.
use doki_proot.Prelude.{
  ℕ, suc, ◌+◌, ◌≤◌, ◌<◌, not, ◌&&◌, ◌||◌, Option, none, some, [], ◌∷◌, ◌++◌, Bytes, c_string,
  length, length-append, ltb, if◌then◌else◌, Errno, Result, ok, fail, Ensures, take-le, Ensures-if,
  Ensures-bind, Ensures-ok, arith, ◌>>=◌, ◌==◌,
}
use doki_proot.Execve.Shebang.{
  Script, is_blank, trim, at_end, skip_leading, slurp_argument, slurp_path, extract_shebang,
}

-- Both strings are shorter than BINPRM_BUF_SIZE, so their NUL bytes fit in too; and the
-- interpreter's path by three bytes.
abbrev pub IsShort : ℕ → Bytes × Bytes → Type 0
IsShort size (interpreter, argument) = (length interpreter + 3 ≤ size) × (length argument < size)

abbrev pub IsShortScript : ℕ → Option (Bytes × Bytes) → Type 0
IsShortScript size none = Unit
IsShortScript size (some found) = IsShort size found

c_string-length : (s : Bytes) → length (c_string s) ≤ length s
unfolding c_string
c_string-length [] = omega arith
c_string-length (c ∷ s) = ground (arith, c_string-length s)

trim-length : (s : Bytes) → length (trim s) ≤ length s
unfolding trim
trim-length s = take-le _ s

Ensures-at_end :
    {A : Type 0} (P : A → Type 0) (e : Option Errno) (m : Result A)
    → Ensures P m
    → Ensures P (at_end e m)
unfolding at_end
Ensures-at_end P none m h = h
Ensures-at_end P (some code) m h = tt

module _ (size : ℕ) (e : Option Errno) where
  -- How far the bytes are read: not beyond BINPRM_BUF_SIZE.
  abbrev IsStart : ℕ × ℕ × Bytes → Type 0
  IsStart (n, tmp, rest) = (3 ≤ n) × (n ≤ size)

  skip_leading-IsStart :
      (n : ℕ) (bytes : Bytes) → 2 ≤ n → n < size → Ensures IsStart (skip_leading size e n bytes)
  unfolding skip_leading
  skip_leading-IsStart n [] low high = Ensures-at_end IsStart e (fail _) tt
  skip_leading-IsStart n (c ∷ bytes) low high =
      Ensures-if IsStart (is_blank c && ltb (suc n) size) (skip_leading size e (suc n) bytes) _
        (λ more. skip_leading-IsStart (suc n) bytes (omega arith) (ground arith))
        (λ stop. (omega arith, omega arith))

  slurp_argument-IsShort :
      (n : ℕ) (path argument : Bytes) (tmp : ℕ) (rest : Bytes)
      → length path + 3 ≤ size
      → length argument < n
      → n ≤ size
      → Ensures (IsShort size) (slurp_argument size e n path argument tmp rest)
  unfolding slurp_argument
  slurp_argument-IsShort n path argument tmp [] p a high =
      let at_eof = Ensures-at_end (IsShort size) e (ok (path, [])) (p, omega arith) in
      ground (
        arith,
        at_eof,
        c_string-length argument,
        c_string-length (trim argument),
        trim-length argument,
      )
  slurp_argument-IsShort n path argument tmp (next ∷ rest) p a high =
      let later =
        slurp_argument-IsShort (suc n) path (argument ++ tmp ∷ []) next rest p
          (omega (arith, length-append argument (tmp ∷ []))) in
      ground (
        arith,
        later,
        c_string-length argument,
        c_string-length (trim argument),
        trim-length argument,
      )

  slurp_path-IsShort :
      (n : ℕ) (path : Bytes) (tmp : ℕ) (rest : Bytes)
      → length path + 3 ≤ n
      → n ≤ size
      → Ensures (IsShort size) (slurp_path size e n path tmp rest)
  unfolding slurp_path
  slurp_path-IsShort n path tmp [] p high =
      let short : length (c_string path) + 3 ≤ size = omega (arith, c_string-length path) in
      let at_eof = Ensures-at_end (IsShort size) e (ok (c_string path, [])) (short, omega arith) in
      let argument = slurp_argument-IsShort n (c_string path) [] tmp [] short (omega arith) high in
      ground (arith, short, at_eof, argument)
  slurp_path-IsShort n path tmp (next ∷ rest) p high =
      let short : length (c_string path) + 3 ≤ size = omega (arith, c_string-length path) in
      let path' = path ++ (if is_blank tmp then 0 else tmp) ∷ [] in
      let argument =
        slurp_argument-IsShort n (c_string path) [] tmp (next ∷ rest) short (omega arith) high in
      let later =
        slurp_path-IsShort (suc n) path' next rest
          (omega (arith, length-append path ((if is_blank tmp then 0 else tmp) ∷ []))) in
      ground (arith, short, argument, later)

extract_shebang-of_bytes :
    (size : ℕ) (bytes : Bytes) (e : Option Errno)
    → 3 ≤ size
    → Ensures (IsShortScript size) (extract_shebang size (record { bytes = bytes; read_error = e }))
unfolding extract_shebang
extract_shebang-of_bytes size [] e h = Ensures-at_end (IsShortScript size) e (ok none) tt
extract_shebang-of_bytes size (first ∷ []) e h = tt
extract_shebang-of_bytes size (first ∷ second ∷ line) e h =
    let after : ℕ × ℕ × Bytes → Result (Option (Bytes × Bytes)) =
      λ start. slurp_path size e start.0 [] start.1 start.2 >>= λ found. ok (some found) in
    Ensures-if (IsShortScript size) (not (first == b'#') || not (second == b'!')) (ok none)
      (skip_leading size e 2 line >>= λ start. after start) (λ other. tt)
      λ script.
        Ensures-bind (IsShortScript size) (skip_leading size e 2 line) after
          λ (n, tmp, rest) skipped.
            let start =
              Ensures-ok (IsStart size e) (skip_leading size e 2 line)
                (skip_leading-IsStart size e 2 line (omega arith) (omega arith)) skipped in
            Ensures-bind (IsShortScript size) (slurp_path size e n [] tmp rest)
              (λ found. ok (some found))
              λ found slurped.
                Ensures-ok (IsShort size) (slurp_path size e n [] tmp rest)
                  (slurp_path-IsShort size e n [] tmp rest (omega (arith, start.0)) start.1) slurped

-- Whatever a file contains and wherever reading it fails: the interpreter and the argument that
-- are extracted from it are shorter than BINPRM_BUF_SIZE, if that is 3 at least, so they fit in
-- their buffers with their NUL bytes.
pub extract_shebang-IsShort :
    (size : ℕ) (script : Script)
    → 3 ≤ size
    → Ensures (IsShortScript size) (extract_shebang size script)
extract_shebang-IsShort size script h =
    extract_shebang-of_bytes size script.bytes script.read_error h
