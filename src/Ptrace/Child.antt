-- ===== src/Ptrace/Child.antt =====
-- The ptracer that a new child gets from its parent, in `new_child` of proot/src/tracee/tracee.c.
use doki_proot.Prelude.{ℕ, ◌%◌, ◌||◌, none, some, ◌==◌, if◌then◌else◌}
use doki_proot.Ptrace.{Table, modify, attach_to_ptracer, has_flag}
use doki_proot.Ptrace.Requests.{set_options}

-- The option that traces the child: PTRACE_O_TRACEFORK, VFORK or CLONE, by SIGCHLD and CLONE_VFORK.
unfoldable pub ptrace_options : ℕ → ℕ
ptrace_options clone_flags =
    if clone_flags == 0
    then 2
    else if clone_flags % 256 == 17
    then 2
    else if has_flag clone_flags 16384
    then 4
    else 8

-- The child is traced by its parent's ptracer if the ptracer's options or CLONE_PTRACE say so, and
-- inherits the seven options of the lowest bits.
unfoldable pub inherit_ptracer : Table → ℕ → ℕ → ℕ → Table
unfolding ptrace_options
inherit_ptracer t parent child clone_flags = elim (t.tracee parent).as_ptracee.ptracer [
  | none ↦ t
  | some ptracer ↦
      let options = (t.tracee parent).as_ptracee.options in
      if has_flag options (ptrace_options clone_flags) || has_flag clone_flags 8192
      then modify (attach_to_ptracer t child ptracer) child (set_options (options % 128))
      else t
]
