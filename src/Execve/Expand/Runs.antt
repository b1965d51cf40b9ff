-- ===== src/Execve/Expand/Runs.antt =====
-- What running a script means, as the manual of execve(2) has it, and that expand_shebang of
-- proot/src/execve/shebang.c does it.
use doki_proot.Prelude.{
  ℕ, Errno, zero, suc, ◌<◌, ◌≡◌, refl, subst, Bool, true, false, Option, none, some, List, Bytes,
  Result, ok, fail, ◌>>=◌, e_loop, arith,
}
use doki_proot.Execve.Pointers.{XPointer, Block, push_array_of_xpointers}
use doki_proot.Execve.Expand.{
  Machine, Expanded, translate_and_check_exec, inspect, fetched, expand_loop, push_argv,
  expand_shebang,
}
use doki_proot.Execve.Expand.Argv.{Argument, script_args, IsShown, written}

module _ (size : ℕ) (m : Machine) where
  -- A path and arguments run as a program, through a number of scripts.
  pub data Runs : ℕ → Bytes → List Argument → Bytes → Bytes → List Argument → Type 0 where
    program :
        (path host_path : Bytes) (args : List Argument)
        → inspect size m path ≡ ok (host_path, none)
        → Runs 0 path args path host_path args
    script :
        (n : ℕ) (path host_path interpreter argument interpreter_path path' host_path' : Bytes)
        (args args' : List Argument)
        → inspect size m path ≡ ok (host_path, some (interpreter, argument))
        → translate_and_check_exec size m interpreter ≡ ok interpreter_path
        → Runs n interpreter (script_args interpreter argument path args) path' host_path' args'
        → Runs (suc n) path args path' host_path' args'

  -- What is left of argv[], and the arguments that it stands for.
  abbrev pub IsArgv : List Argument → Option (List XPointer) → Result (List XPointer) → Type 0
  IsArgv args none fetch = IsShown args fetch
  IsArgv args (some argv) fetch = IsShown args (ok argv)

  -- argv[] is fetched for a script only.
  abbrev pub IsOnDemand : Option (List XPointer) → Bool → Type 0
  IsOnDemand none has_shebang = Unit
  IsOnDemand (some argv) has_shebang = has_shebang ≡ true

  abbrev pub IsRun :
      Result (List XPointer) → Bytes → Bytes → List Argument → Bool → Result Expanded → Type 0
  IsRun fetch path host_path args is_script (fail code) = ⊥
  IsRun fetch path host_path args is_script (ok e) =
      (e.user_path ≡ path)
      × (e.host_path ≡ host_path)
      × IsArgv args e.argv fetch
      × (e.has_shebang ≡ is_script)
      × IsOnDemand e.argv is_script

  -- The array that has been fetched is pushed.
  abbrev pub IsPushOf :
      (ℕ → ℕ) → (Block → Option Errno) → Option (List XPointer) → Option Block → Type 0
  IsPushOf alloc_mem writev_data none written = written ≡ none
  IsPushOf alloc_mem writev_data (some argv) written =
      push_array_of_xpointers alloc_mem writev_data argv ≡ ok written

  -- The run of a program, with its argv[] pushed, or the failure of pushing a script's argv[].
  abbrev pub IsRunPushed :
      Result (List XPointer)
      → Bytes
      → Bytes
      → List Argument
      → Bool
      → (ℕ → ℕ)
      → (Block → Option Errno)
      → Result (Expanded × Option Block)
      → Type 0
  IsRunPushed fetch path host_path args is_script alloc_mem writev_data (ok (e, written)) =
      IsRun fetch path host_path args is_script (ok e)
      × IsPushOf alloc_mem writev_data e.argv written
  IsRunPushed fetch path host_path args is_script alloc_mem writev_data (fail code) =
      (argv : List XPointer) × IsShown args (ok argv)
      × (push_array_of_xpointers alloc_mem writev_data argv ≡ fail code)
      × (is_script ≡ true)

  abbrev pub or_script : ℕ → Bool → Bool
  or_script zero has_shebang = has_shebang
  or_script (suc n) has_shebang = true

  or_script-true : (n : ℕ) → or_script n true ≡ true
  or_script-true zero = refl
  or_script-true (suc n) = refl

  fetched-IsShown :
      (fetch : Result (List XPointer)) (args : List Argument) (argv : Option (List XPointer))
      → IsArgv args argv fetch
      → (array : List XPointer) × (fetched size m fetch argv ≡ ok array) × IsShown args (ok array)
  fetched-IsShown (ok array) args none a = (array, refl, a)
  fetched-IsShown (fail code) args none a = absurd a
  fetched-IsShown fetch args (some array) a = (array, refl, a)

  expand_loop-IsRun :
      (fetch : Result (List XPointer)) (rounds n : ℕ) (path : Bytes) (args : List Argument)
      (path' host_path' : Bytes) (args' : List Argument) (argv : Option (List XPointer))
      (has_shebang : Bool)
      → Runs n path args path' host_path' args'
      → IsArgv args argv fetch
      → IsOnDemand argv has_shebang
      → n < rounds
      → IsRun fetch path' host_path' args'
          (or_script n has_shebang)
          (expand_loop size m fetch rounds path argv has_shebang)
  unfolding expand_loop
  expand_loop-IsRun fetch (suc rounds) _ _ _ _ _ _ argv has_shebang (program path host_path args e)
        a demand k =
      rw e (refl, refl, a, refl, demand)
  expand_loop-IsRun fetch (suc rounds) _ _ _ _ _ _ argv has_shebang
        (script n path host_path interpreter argument interpreter_path path' host_path' args args' e
          check runs)
        a demand k =
      let (array, fetches, shows) = fetched-IsShown fetch args argv a in
      let (array', writes, shows') = written interpreter argument path array args shows in
      let later =
        expand_loop-IsRun fetch rounds n interpreter (script_args interpreter argument path args)
          path' host_path' args' (some array') true runs shows' refl (omega arith) in
      rw (e, check, fetches, writes)
        (subst
          (λ b.
            IsRun fetch path' host_path' args' b
              (expand_loop size m fetch rounds interpreter (some array') true))
          (or_script-true n) later)
  expand_loop-IsRun fetch zero _ _ _ _ _ _ argv has_shebang _ a demand k = absurd (omega arith)

  -- Scripts that are nested to a depth, at least.
  pub data Nests : ℕ → Bytes → Type 0 where
    any : (path : Bytes) → Nests 0 path
    deeper :
        (n : ℕ) (path host_path interpreter argument interpreter_path : Bytes)
        → inspect size m path ≡ ok (host_path, some (interpreter, argument))
        → translate_and_check_exec size m interpreter ≡ ok interpreter_path
        → Nests n interpreter
        → Nests (suc n) path

  expand_loop-deep :
      (fetch : Result (List XPointer)) (rounds : ℕ) (path : Bytes) (args : List Argument)
      (argv : Option (List XPointer)) (has_shebang : Bool)
      → Nests rounds path
      → IsArgv args argv fetch
      → expand_loop size m fetch rounds path argv has_shebang ≡ fail e_loop
  unfolding expand_loop
  expand_loop-deep fetch _ _ args argv has_shebang (any path) a = refl
  expand_loop-deep fetch _ _ args argv has_shebang
        (deeper rounds path host_path interpreter argument interpreter_path e check nests) a =
      let (array, fetches, shows) = fetched-IsShown fetch args argv a in
      let (array', writes, shows') = written interpreter argument path array args shows in
      rw (e, check, fetches, writes)
        (expand_loop-deep fetch rounds interpreter (script_args interpreter argument path args)
          (some array') true nests shows')

  push_argv-IsRunPushed :
      (fetch : Result (List XPointer)) (path host_path : Bytes) (args : List Argument)
      (is_script : Bool) (alloc_mem : ℕ → ℕ) (writev_data : Block → Option Errno)
      (host user : Bytes) (argv : Option (List XPointer)) (has_shebang : Bool)
      → let e : Expanded = record {
        host_path = host;
        user_path = user;
        argv = argv;
        has_shebang = has_shebang;
      } in
        IsRun fetch path host_path args is_script (ok e)
        → IsRunPushed fetch path host_path args is_script alloc_mem writev_data
            (push_argv size m fetch alloc_mem writev_data e)
  unfolding push_argv
  push_argv-IsRunPushed fetch path host_path args is_script alloc_mem writev_data host user none
        has_shebang r =
      (r, refl)
  push_argv-IsRunPushed fetch path host_path args is_script alloc_mem writev_data host user
        (some argv) has_shebang (p, h, a, s, demand) =
      go (push_array_of_xpointers alloc_mem writev_data argv) refl
    where
      go :
          (q : Result (Option Block))
          → push_array_of_xpointers alloc_mem writev_data argv ≡ q
          → IsRunPushed fetch path host_path args is_script alloc_mem writev_data (
              q >>= λ block. ok (
                record {
                  host_path = host;
                  user_path = user;
                  argv = some argv;
                  has_shebang = has_shebang;
                },
                block,
              ))
      go (ok block) e = ((p, h, a, s, demand), e)
      go (fail code) e = (argv, a, e, demand)

  bind_push :
      (fetch : Result (List XPointer)) (path host_path : Bytes) (args : List Argument)
      (is_script : Bool) (alloc_mem : ℕ → ℕ) (writev_data : Block → Option Errno)
      (r : Result Expanded)
      → IsRun fetch path host_path args is_script r
      → IsRunPushed fetch path host_path args is_script alloc_mem writev_data
          (r >>= push_argv size m fetch alloc_mem writev_data)
  bind_push fetch path host_path args is_script alloc_mem writev_data (fail code) h = absurd h
  bind_push fetch path host_path args is_script alloc_mem writev_data (ok e) h =
      push_argv-IsRunPushed fetch path host_path args is_script alloc_mem writev_data e.host_path
        e.user_path e.argv e.has_shebang h

  -- A path that runs as a program through fewer than MAXSYMLINKS scripts, with the arguments that
  -- the tracee's argv[] stands for. If there was a script and pushing an argv[] that stands for
  -- the arguments of that program fails, then expand_shebang may fail by the same error, and it
  -- fails by no other. Else it leaves the path and host path of that program and an argv[] that
  -- stands for its arguments, each script having put its interpreter, the optional argument and its
  -- own path in the place of the first one, tells whether there was a script, and has pushed argv[]
  -- if it was fetched, which it is for scripts only.
  pub expand_shebang-IsRun :
      (fetch : Result (List XPointer)) (alloc_mem : ℕ → ℕ) (writev_data : Block → Option Errno)
      (max_symlinks n : ℕ) (path : Bytes) (args : List Argument) (path' host_path' : Bytes)
      (args' : List Argument)
      → Runs n path args path' host_path' args'
      → IsShown args fetch
      → n < max_symlinks
      → IsRunPushed fetch path' host_path' args'
          (or_script n false)
          alloc_mem
          writev_data
          (expand_shebang size m fetch alloc_mem writev_data max_symlinks path)
  unfolding expand_shebang
  expand_shebang-IsRun fetch alloc_mem writev_data max_symlinks n path args path' host_path' args'
        runs a k =
      bind_push fetch path' host_path' args' (or_script n false) alloc_mem writev_data
        (expand_loop size m fetch max_symlinks path none false)
        (expand_loop-IsRun fetch max_symlinks n path args path' host_path' args' none false runs a
          tt k)

  -- Scripts that are nested to MAXSYMLINKS levels or for ever, and an argv[] that can be read:
  -- expand_shebang returns -ELOOP.
  pub expand_shebang-deep :
      (fetch : Result (List XPointer)) (alloc_mem : ℕ → ℕ) (writev_data : Block → Option Errno)
      (max_symlinks : ℕ) (path : Bytes) (args : List Argument)
      → Nests max_symlinks path
      → IsShown args fetch
      → expand_shebang size m fetch alloc_mem writev_data max_symlinks path ≡ fail e_loop
  unfolding expand_shebang
  expand_shebang-deep fetch alloc_mem writev_data max_symlinks path args nests a =
      rw (expand_loop-deep fetch max_symlinks path args none false nests a) refl
