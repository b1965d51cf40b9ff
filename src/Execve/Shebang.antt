-- ===== src/Execve/Shebang.antt =====
-- `extract_shebang` of proot/src/execve/shebang.c: the interpreter and the argument that the first
-- line of a script names. BINPRM_BUF_SIZE is the system's and stands as a parameter.
pub mod Slurp
pub mod Ends
pub mod Line
pub mod Bounds
use doki_proot.Prelude.{
  ℕ, zero, suc, ◌-◌, Bool, true, false, not, ◌&&◌, ◌||◌, Option, none, some, List, [], ◌∷◌, ◌++◌,
  Bytes, c_string, char_at, length, take, ltb, ◌==◌, if◌then◌else◌, Errno, Result, ok, fail,
  e_noexec, ◌>>=◌,
}
use doki_proot.Canon.Component.{back_while}

-- A file that is read byte by byte: its bytes, and the error in the place of its end, if any.
pub record Script : Type 0 where
  pub bytes : Bytes
  pub read_error : Option Errno

unfoldable pub is_blank : ℕ → Bool
is_blank c = c == b' ' || c == 9

-- '\n' and '\r'
unfoldable pub is_newline : ℕ → Bool
is_newline c = c == 10 || c == 13

-- The last element of a buffer, `user_path[i - 1]`.
unfoldable pub last_is_nul : Bytes → Bool
last_is_nul path = char_at path (length path - 1) == 0

-- The removal of trailing spaces, which leaves the first byte.
unfoldable pub trim : Bytes → Bytes
unfolding back_while is_blank
trim argument =
    take (back_while (λ n. is_blank (char_at argument (n - 1))) (length argument)) argument

-- At the end of what can be read.
unfoldable pub at_end {ℓ} : {A : Type ℓ} → Option Errno → Result A → Result A
at_end none eof = eof
at_end (some code) eof = fail code

module _ (binprm_buf_size : ℕ) (read_error : Option Errno) where
  -- Leading spaces: the length read, the byte `tmp` that ends them, and what follows it.
  unfoldable pub skip_leading : ℕ → Bytes → Result (ℕ × ℕ × Bytes)
  unfolding is_blank at_end
  skip_leading current_length [] = at_end read_error (fail e_noexec)
  skip_leading current_length (tmp ∷ rest) =
      let again = skip_leading (suc current_length) rest in
      if is_blank tmp && ltb (suc current_length) binprm_buf_size
      then again
      else ok (suc current_length, tmp, rest)

  -- From the label `argument`: `tmp` is put behind the argument so far.
  unfoldable pub slurp_argument : ℕ → Bytes → Bytes → ℕ → Bytes → Result (Bytes × Bytes)
  unfolding is_newline trim at_end c_string
  slurp_argument current_length path argument tmp [] =
      if not (ltb current_length binprm_buf_size)
      then ok (path, c_string argument)
      else if is_newline tmp
      then ok (path, c_string (trim argument))
      else at_end read_error (ok (path, []))
  slurp_argument current_length path argument tmp (next ∷ rest) =
      let again = slurp_argument (suc current_length) path (argument ++ tmp ∷ []) next rest in
      if not (ltb current_length binprm_buf_size)
      then ok (path, c_string argument)
      else if is_newline tmp
      then ok (path, c_string (trim argument))
      else again

  -- The interpreter's path: spaces are written as NUL, and a byte behind one starts the argument.
  -- At the end of the file, the last byte written is overwritten.
  unfoldable pub slurp_path : ℕ → Bytes → ℕ → Bytes → Result (Bytes × Bytes)
  unfolding is_newline is_blank last_is_nul c_string at_end slurp_argument
  slurp_path current_length path tmp [] =
      if not (ltb current_length binprm_buf_size) || (not (is_blank tmp) && is_newline tmp)
      then ok (c_string path, [])
      else if not (is_blank tmp) && ltb 1 (length path) && last_is_nul path
      then slurp_argument current_length (c_string path) [] tmp []
      else at_end read_error (ok (c_string path, []))
  slurp_path current_length path tmp (next ∷ rest) =
      let again =
        slurp_path (suc current_length) (path ++ (if is_blank tmp then 0 else tmp) ∷ []) next
          rest in
      if not (ltb current_length binprm_buf_size) || (not (is_blank tmp) && is_newline tmp)
      then ok (c_string path, [])
      else if not (is_blank tmp) && ltb 1 (length path) && last_is_nul path
      then slurp_argument current_length (c_string path) [] tmp (next ∷ rest)
      else again

-- The interpreter and its argument, if the file is a script.
unfoldable pub extract_shebang : ℕ → Script → Result (Option (Bytes × Bytes))
unfolding at_end skip_leading slurp_path
extract_shebang binprm_buf_size script = elim script.bytes [
  | [] ↦ at_end script.read_error (ok none)
  | first ∷ bytes ↦ elim bytes [
    | [] ↦ ok none
    | second ∷ line ↦
        if not (first == b'#') || not (second == b'!')
        then ok none
        else (skip_leading binprm_buf_size script.read_error 2 line >>= λ start.
            slurp_path binprm_buf_size script.read_error start.0 [] start.1 start.2 >>= λ found.
            ok (some found))
  ]
]
