-- ===== src/Execve/Shebang/Slurp.antt =====
-- How the loops of extract_shebang (proot/src/execve/shebang.c) go over blanks, names and arguments.
use doki_proot.Prelude.{
  ℕ, zero, suc, ◌+◌, ◌<◌, ◌≡◌, ◌≢◌, refl, true, false, ◌&&◌, Option, [], ◌∷◌, ◌++◌, append_assoc,
  map, Bytes, c_string, char_at, length, All, ltb, Errno, ok, arith,
}
use doki_proot.Execve.Shebang.{
  is_blank, is_newline, last_is_nul, trim, skip_leading, slurp_argument, slurp_path,
}

abbrev pub IsBlank : ℕ → Type 0
IsBlank c = is_blank c ≡ true

-- A byte of an argument, and one of an interpreter's path.
abbrev pub IsText : ℕ → Type 0
IsText c = (is_newline c ≡ false) × (c ≢ 0)

abbrev pub IsName : ℕ → Type 0
IsName c = IsText c × (is_blank c ≡ false)

IsName-append : (xs ys : Bytes) → All IsName xs → All IsName ys → All IsName (xs ++ ys)
IsName-append [] ys h k = k
IsName-append (x ∷ xs) ys h k = (h.0, IsName-append xs ys h.1 k)

char_at-IsName : (path : Bytes) (i : ℕ) → All IsName path → i < length path → char_at path i ≢ 0
char_at-IsName [] i h k = absurd (omega arith)
char_at-IsName (x ∷ path) zero h k = h.0.0.1
char_at-IsName (x ∷ path) (suc i) h k = char_at-IsName path i h.1 (omega arith)

last-IsName : (path : Bytes) → All IsName path → (ltb 1 (length path) && last_is_nul path) ≡ false
unfolding last_is_nul
last-IsName [] h = refl
last-IsName (x ∷ []) h = refl
last-IsName (x ∷ y ∷ path) h =
    ground (arith, char_at-IsName (x ∷ y ∷ path) (suc (length path)) h (omega arith))

module _ (size : ℕ) (e : Option Errno) where
  pub skip_leading-blanks :
      (n : ℕ) (blanks : Bytes) (c : ℕ) (rest : Bytes)
      → All IsBlank blanks
      → is_blank c ≡ false
      → n + length blanks + 1 < size
      → skip_leading size e n (blanks ++ c ∷ rest) ≡ ok (n + length blanks + 1, c, rest)
  unfolding skip_leading
  skip_leading-blanks n [] c rest h k room = ground arith
  skip_leading-blanks n (b ∷ blanks) c rest h k room =
      ground (arith, skip_leading-blanks (suc n) blanks c rest h.1 k (omega arith))

  pub slurp_path-name :
      (n : ℕ) (path : Bytes) (x : ℕ) (xs : Bytes) (y : ℕ) (rest : Bytes)
      → All IsName path
      → All IsName (x ∷ xs)
      → n + length xs < size
      → slurp_path size e n path x (xs ++ y ∷ rest)
        ≡ slurp_path size e (n + suc (length xs)) (path ++ x ∷ xs) y rest
  unfolding slurp_path
  slurp_path-name n path x [] y rest h k room = ground (arith, last-IsName path h)
  slurp_path-name n path x (z ∷ xs) y rest h k room =
      let later =
        slurp_path-name (suc n) (path ++ x ∷ []) z xs y rest
          (IsName-append path (x ∷ []) h (k.0, tt)) k.1 (omega arith) in
      ground (arith, last-IsName path h, later, append_assoc path (x ∷ []) (z ∷ xs))

  pub slurp_path-blanks :
      (n : ℕ) (path : Bytes) (x : ℕ) (xs : Bytes) (y : ℕ) (rest : Bytes)
      → All IsBlank (x ∷ xs)
      → n + length xs < size
      → slurp_path size e n path x (xs ++ y ∷ rest)
        ≡ slurp_path size e (n + suc (length xs)) (path ++ map (λ c. 0) (x ∷ xs)) y rest
  unfolding slurp_path
  slurp_path-blanks n path x [] y rest k room = ground arith
  slurp_path-blanks n path x (z ∷ xs) y rest k room =
      let later = slurp_path-blanks (suc n) (path ++ 0 ∷ []) z xs y rest k.1 (omega arith) in
      ground (arith, later, append_assoc path (0 ∷ []) (map (λ c. 0) (z ∷ xs)))

  slurp_argument-newline :
      (n : ℕ) (path argument : Bytes) (y : ℕ) (rest : Bytes)
      → is_newline y ≡ true
      → n < size
      → slurp_argument size e n path argument y rest ≡ ok (path, c_string (trim argument))
  unfolding slurp_argument
  slurp_argument-newline n path argument y [] end room = ground arith
  slurp_argument-newline n path argument y (z ∷ rest) end room = ground arith

  pub slurp_argument-text :
      (n : ℕ) (path argument : Bytes) (x : ℕ) (xs : Bytes) (y : ℕ) (rest : Bytes)
      → All IsText (x ∷ xs)
      → is_newline y ≡ true
      → n + suc (length xs) < size
      → slurp_argument size e n path argument x (xs ++ y ∷ rest)
        ≡ ok (path, c_string (trim (argument ++ x ∷ xs)))
  unfolding slurp_argument
  slurp_argument-text n path argument x [] y rest k end room =
      let later =
        slurp_argument-newline (suc n) path (argument ++ x ∷ []) y rest end (omega arith) in
      ground (arith, later)
  slurp_argument-text n path argument x (z ∷ xs) y rest k end room =
      let later =
        slurp_argument-text (suc n) path (argument ++ x ∷ []) z xs y rest k.1 end (omega arith) in
      ground (arith, later, append_assoc argument (x ∷ []) (z ∷ xs))

  -- A byte behind a space starts the argument.
  pub slurp_path-argument :
      (n : ℕ) (path : Bytes) (y : ℕ) (rest : Bytes)
      → IsName y
      → n < size
      → 1 < length path
      → last_is_nul path ≡ true
      → slurp_path size e n path y rest ≡ slurp_argument size e n (c_string path) [] y rest
  unfolding slurp_path
  slurp_path-argument n path y [] k room long nul = ground arith
  slurp_path-argument n path y (z ∷ rest) k room long nul = ground arith
