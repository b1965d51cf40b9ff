-- ===== src/Execve/Shebang/Line.antt =====
-- A script's first line is read back by extract_shebang of proot/src/execve/shebang.c.
use doki_proot.Prelude.{
  ℕ, suc, ◌+◌, ◌-◌, ◌<◌, ◌≡◌, refl, sym, ◌∙◌, ap, true, false, Option, some, [], ◌∷◌, ◌++◌,
  append_assoc, map, Bytes, c_string, c_string-ended, char_at, length, length-append, All, Errno,
  ok, arith,
}
use doki_proot.Execve.Shebang.{
  is_blank, is_newline, last_is_nul, slurp_argument, slurp_path, extract_shebang,
}
use doki_proot.Execve.Shebang.Slurp.{
  IsBlank, IsText, IsName, skip_leading-blanks, slurp_path-name, slurp_path-blanks,
  slurp_argument-text, slurp_path-argument,
}
use doki_proot.Execve.Shebang.Ends.{
  IsText-proper, c_string-same, trim-blanks, char_at-zeros, IsText-append, IsName-IsText,
}

-- A first line that names an interpreter, with blanks before and behind it, and what follows.
abbrev pub first_line : Bytes → Bytes → Bytes → Bytes → Bytes
first_line before interpreter after rest =
    b'#' ∷ b'!' ∷ (before ++ (interpreter ++ (after ++ rest)))

-- A path of an interpreter: not empty, without blanks, newlines and NULs.
pub record IsInterpreter (interpreter : Bytes) : Type 0 where
  pub named : 0 < length interpreter
  pub names : All IsName interpreter

-- An argument: not empty, without newlines and NULs, and no blanks at its ends.
pub record IsArgument (argument : Bytes) : Type 0 where
  pub given : 0 < length argument
  pub texts : All IsText argument
  pub begins : is_blank (char_at argument 0) ≡ false
  pub ends : is_blank (char_at argument (length argument - 1)) ≡ false

module _ (size : ℕ) (e : Option Errno) where
  -- From an interpreter to what follows the blanks behind it.
  slurp_path-interpreter :
      (n i : ℕ) (il : Bytes) (f : ℕ) (fs : Bytes) (y : ℕ) (rest : Bytes)
      → All IsName (i ∷ il)
      → All IsBlank (f ∷ fs)
      → n + length il + length fs + 1 < size
      → slurp_path size e n [] i (il ++ f ∷ (fs ++ y ∷ rest))
        ≡ slurp_path size e
            (n + suc (length il) + suc (length fs))
            ((i ∷ il) ++ map (λ c. 0) (f ∷ fs))
            y
            rest
  slurp_path-interpreter n i il f fs y rest h k room =
      slurp_path-name size e n [] i il f (fs ++ y ∷ rest) tt h (omega arith)
      ∙ slurp_path-blanks size e (n + suc (length il)) (i ∷ il) f fs y rest k (omega arith)

  slurp_argument-line :
      (n : ℕ) (path : Bytes) (a : ℕ) (al trailing : Bytes) (newline : ℕ) (rest : Bytes)
      → IsArgument (a ∷ al)
      → All IsBlank trailing
      → is_newline newline ≡ true
      → n + suc (length al + length trailing) < size
      → slurp_argument size e n path [] a (al ++ (trailing ++ newline ∷ rest)) ≡ ok (path, a ∷ al)
  slurp_argument-line n path a al trailing newline rest h k end room =
      rw (sym (append_assoc al trailing (newline ∷ rest))) (
        slurp_argument-text size e n path [] a (al ++ trailing) newline rest
          (h.texts.0, IsText-append al trailing h.texts.1 k) end
          (omega (arith, length-append al trailing))
        ∙ ap (λ s. ok (path, s))
            (ap c_string (trim-blanks (a ∷ al) trailing h.given h.ends k)
              ∙ c_string-same (a ∷ al) h.texts))

-- A script whose first line, with its newline, is shorter than BINPRM_BUF_SIZE: if it names an
-- interpreter, with any blanks before it, at least one behind it, an argument, which may contain
-- blanks, and any blanks again, then the interpreter and the whole argument are found, whatever
-- follows the line.
pub extract_shebang-argument :
    (size : ℕ) (e : Option Errno) (before interpreter after argument trailing : Bytes) (newline : ℕ)
    (rest : Bytes)
    → All IsBlank before
    → IsInterpreter interpreter
    → All IsBlank after
    → 0 < length after
    → IsArgument argument
    → All IsBlank trailing
    → is_newline newline ≡ true
    → length before + length interpreter + length after + length argument + length trailing + 3
      < size
    → extract_shebang size (record {
      bytes = first_line before interpreter after (argument ++ (trailing ++ newline ∷ rest));
      read_error = e;
    })
      ≡ ok (some (interpreter, argument))
unfolding extract_shebang last_is_nul
extract_shebang-argument size e before [] after argument trailing newline rest b i f p a t end
      room =
    absurd (omega (arith, i.named))
extract_shebang-argument size e before (x ∷ il) [] argument trailing newline rest b i f p a t end
      room =
    absurd (omega arith)
extract_shebang-argument size e before (x ∷ il) (y ∷ fs) [] trailing newline rest b i f p a t end
      room =
    absurd (omega (arith, a.given))
extract_shebang-argument size e before (x ∷ il) (y ∷ fs) (z ∷ al) trailing newline rest b i f p a t
      end room =
    let line = al ++ (trailing ++ newline ∷ rest) in
    let n = 2 + length before + 1 in
    let m = n + suc (length il) + suc (length fs) in
    let path = (x ∷ il) ++ map (λ c. 0) (y ∷ fs) in
    let skipped =
      skip_leading-blanks size e 2 before x (il ++ y ∷ (fs ++ z ∷ line)) b i.names.0.1
        (omega arith) in
    let behind = slurp_path-interpreter size e n x il y fs z line i.names f (omega arith) in
    let long : 1 < length path = omega (arith, length-append (x ∷ il) (map (λ c. 0) (y ∷ fs))) in
    let started =
      slurp_path-argument size e m path z line (a.texts.0, a.begins) (omega arith) long
        (rw
          (char_at-zeros (x ∷ il) (y ∷ fs) (length path - 1)
            (omega (arith, length-append (x ∷ il) (map (λ c. 0) (y ∷ fs)))))
          refl) in
    let read =
      slurp_argument-line size e m (c_string path) z al trailing newline rest a t end
        (omega arith) in
    let name =
      c_string-ended (x ∷ il) (map (λ c. 0) fs)
        (IsText-proper (x ∷ il) (IsName-IsText (x ∷ il) i.names)) in
    rw (skipped, behind, started, read, name) refl
