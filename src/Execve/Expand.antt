-- ===== src/Execve/Expand.antt =====
-- `expand_shebang` of proot/src/execve/shebang.c and `translate_and_check_exec` of
-- proot/src/execve/enter.c: an execve of a script becomes one of its interpreter. The translation
-- of paths, the host's files, the tracee's argv[] and the writing of it are parameters, and so are
-- BINPRM_BUF_SIZE and MAXSYMLINKS, which are the system's.
pub mod Argv
pub mod Runs
use doki_proot.Prelude.{
  ℕ, Errno, zero, suc, ◌+◌, Bool, true, false, not, Option, none, some, List, [], ◌∷◌, Bytes,
  length, is_empty, ◌==◌, if◌then◌else◌, Result, ok, fail, ◌>>=◌, e_noexec, e_noent, e_acces,
  e_perm, e_loop,
}
use doki_proot.Sysvipc.{pos}
use doki_proot.Execve.Shebang.{Script, extract_shebang}
use doki_proot.Execve.Pointers.{
  XPointer, Block, push_array_of_xpointers, write_xpointees, resize_array_of_xpointers,
}

-- What is asked of the host: the translation of a path, access(2) for existence and for execution,
-- lstat(2), and a file's contents, by its host path.
pub record Machine : Type 0 where
  pub translate : Bytes → Result Bytes
  pub is_there : Bytes → Bool
  pub is_executable : Bytes → Bool
  pub has_status : Bytes → Bool
  pub open_script : Bytes → Result Script

-- What has been found: the host path and the path of the program, argv[] if it has been fetched,
-- and whether there was a script.
pub record Expanded : Type 0 where
  pub host_path : Bytes
  pub user_path : Bytes
  pub argv : Option (List XPointer)
  pub has_shebang : Bool

-- argv[] with the interpreter, its argument if there is one, and the script's path in the place of
-- its first entry; if it has none but the null pointer, this is kept.
unfoldable pub write_interpreter : List XPointer → Bytes → Bytes → Bytes → Result (List XPointer)
write_interpreter argv user_path argument old_user_path =
    let more = if length argv == 1 then 1 else 0 in
    if not (is_empty argument)
    then (resize_array_of_xpointers argv 0 (pos (2 + more)) >>= λ argv'.
        write_xpointees argv' 0 (user_path ∷ argument ∷ old_user_path ∷ []))
    else (resize_array_of_xpointers argv 0 (pos (1 + more)) >>= λ argv'.
        write_xpointees argv' 0 (user_path ∷ old_user_path ∷ []))

module _ (binprm_buf_size : ℕ) (m : Machine) where
  unfoldable pub translate_and_check_exec : Bytes → Result Bytes
  translate_and_check_exec user_path =
      if is_empty user_path
      then fail e_noexec
      else (m.translate user_path >>= λ host_path.
          if not (m.is_there host_path)
          then fail e_noent
          else if not (m.is_executable host_path)
          then fail e_acces
          else if not (m.has_status host_path)
          then fail e_perm
          else ok host_path)

  -- The host path of a program, and the interpreter and argument that it names.
  unfoldable pub inspect : Bytes → Result (Bytes × Option (Bytes × Bytes))
  unfolding translate_and_check_exec
  inspect user_path = translate_and_check_exec user_path >>= λ host_path.
      m.open_script host_path >>= λ script.
      extract_shebang binprm_buf_size script >>= λ found. ok (host_path, found)

  module _ (fetch : Result (List XPointer)) where
    abbrev pub fetched : Option (List XPointer) → Result (List XPointer)
    fetched none = fetch
    fetched (some argv) = ok argv

    -- The first argument is the number of rounds that are left.
    unfoldable pub expand_loop : ℕ → Bytes → Option (List XPointer) → Bool → Result Expanded
    unfolding inspect translate_and_check_exec write_interpreter
    expand_loop zero user_path argv has_shebang = fail e_loop
    expand_loop (suc rounds) user_path argv has_shebang =
        let again = expand_loop rounds in
        inspect user_path >>= λ (host_path, found). elim found [
          | none ↦ ok (record {
            host_path = host_path;
            user_path = user_path;
            argv = argv;
            has_shebang = has_shebang;
          })
          | some (interpreter, argument) ↦
              translate_and_check_exec interpreter >>= λ interpreter_path. fetched argv >>= λ array.
              write_interpreter array interpreter argument user_path >>= λ array'.
              again interpreter (some array') true
        ]

    module _ (alloc_mem : ℕ → ℕ) (writev_data : Block → Option Errno) where
      -- argv[] is pushed only on demand.
      unfoldable pub push_argv : Expanded → Result (Expanded × Option Block)
      unfolding push_array_of_xpointers
      push_argv expanded = elim expanded.argv [
        | none ↦ ok (expanded, none)
        | some argv ↦
            push_array_of_xpointers alloc_mem writev_data argv >>= λ block. ok (expanded, block)
      ]

      -- With the rounds of MAXSYMLINKS. What has been found, and the block that is written.
      unfoldable pub expand_shebang : ℕ → Bytes → Result (Expanded × Option Block)
      unfolding expand_loop push_argv
      expand_shebang max_symlinks user_path =
          expand_loop max_symlinks user_path none false >>= push_argv
