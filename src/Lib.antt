-- ===== src/Lib.antt =====
-- Doki-proot: chroot, mount --bind and a faked root for unprivileged users, by tracing the system
-- calls of programs and rewriting their arguments. A program's path is resolved against the guest
-- (canonicalize), its bindings and root are substituted (substitute_binding) into a host path, and
-- host paths that come back are translated the other way (detranslate_path). Extensions emulate
-- further parts of the kernel, such as the System V semaphores.
--
-- Prelude: shared names, Boolean tests on native numbers, lists measured by them, byte strings and
-- C's results. A function that returns a negated errno returns a Result here; a buffer that is
-- written is a result; a C string is the list of its bytes, and reading behind its end gives 0.
--
-- Path: proot/src/path/path.c. Path/Compare is compare_paths2 and compare_paths; Path/Join is
-- join_paths, a fold over its arguments with NULL as none; Path/Prefix is substitute_path_prefix
-- and chop_finality. The lemmas stand in child modules, Path/Compare/Relate being the order of
-- paths that the code implements, and Path/Components the list of names that a path is for.
--
-- Binding: proot/src/path/binding.c. The record Bindings holds the three lists of a tracee;
-- Binding/Insort is the insertion, Binding/Lookup the search, Binding/Order the order that the one
-- establishes and the other relies on, Binding/Substitute the way to the host and back.
--
-- Detranslate: detranslate_path of proot/src/path/path.c and readlink_proc2 of
-- proot/src/path/proc.c. Its callee readlink_proc is a parameter there, as it is in Canon.
-- Detranslate/Root is about its end, which removes the root.
--
-- Canon: proot/src/path/canon.c, as one function for a round of the loop, the loop, and the
-- recursion. The record Host has what lstat, readlink and the extensions answer. Two bounds stand
-- for C's unbounded control flow: the loop has as many rounds as the user path has bytes and one
-- more, each round but the last one leaves a shorter cursor; the recursion has 42 levels, and the
-- code's own limit of 40 symlinks stops it first. Only a file that changes its type while its link
-- is read can use up the rounds.
--
-- Translate: translate_path of proot/src/path/path.c, from the base path, by join_paths,
-- canonicalize and substitute_binding, to the host path, and readlink_proc of
-- proot/src/path/proc.c. The extensions' answers are a record Events, libc's numbers a record
-- Libc.
--
-- Sysvipc: proot/src/extension/sysvipc. Sysvipc/Semaphore is sysvipc_sem.c, on a list of semaphore
-- sets and a list of the tracees of one namespace; the tracee's registers and memory are
-- arguments. An assertion that fails is none. Sysvipc/Semaphore/Waiters has the invariant of the
-- waiting tracees. Sysvipc/Message is sysvipc_msg.c, on a single queue, with its operations in
-- Receive and Send. Sysvipc/Events is the part of sysvipc.c that follows a waiting tracee from
-- event to event; Sysvipc/Events/Reach has the events that are taken to come as a step relation.
--
-- FakeId0: the system calls of proot/src/extension/fake_id0/fake_id0.c that set identities, the
-- macros SETXID, SETREXID, SETRESXID and SETFSXID as functions on the Config of config.h, once for
-- users and groups alike. FakeId0/Kernel states the rules of Linux for setresuid and setreuid; the
-- capability that they ask for is the one that PRoot assumes.
--
-- Syscall: proot/src/syscall. Syscall/Heap is heap.c, with what enter asks of the kernel as a
-- value of Request that exit gets back; Syscall/Heap/Break has the program break that it emulates.
-- Syscall/Chain is chain.c; run_chain is the exits of system calls, one after another, where a
-- parameter stands for what the kernel does to the registers.
--
-- Execve: proot/src/execve. Execve/Shebang is extract_shebang of shebang.c, Execve/Pointers is
-- aoxp.c, where a record entry has the tracee's pointer and the string that replaces it, and
-- Execve/Expand is expand_shebang of shebang.c, where the translation of paths and the files are a
-- record Machine. Execve/Expand/Runs says what running a script means. What the system's headers
-- define (BINPRM_BUF_SIZE, MAXSYMLINKS, ARG_MAX) is a parameter.
--
-- Tracee: proot/src/tracee/mem.c, on memory as a function from addresses to bytes. Tracee/Mem has
-- the copies and the stack, Tracee/Strings read_string. A word is the list of its eight bytes;
-- what process_vm_readv and process_vm_writev copy is a parameter, of which the theorems on
-- reading ask that it is what memory holds, and no more. Addresses are 64-bit words. The fuel of
-- the chunks of a string is one more than the bytes that are wanted, and a chunk takes one at
-- least; without fuel the copy goes on word by word.
--
-- Tracee/Event: handle_tracee_event and restart_tracee of proot/src/tracee/event.c, with the
-- stages of translate_syscall (proot/src/syscall/syscall.c) and the start of a child (new_child of
-- proot/src/tracee/tracee.c). Tracee/Event has the state (Tracer for the static variables, Traced
-- for the tracee) and the two stages, with the chain and chain_next_syscall of Syscall/Chain;
-- Tracee/Event/Answers and Tracee/Event/Handle have one definition for each kind of stop;
-- Tracee/Event/Child is the SIGSTOP of new_child. What the handlers of a system call ask of the
-- loop, and what the kernel answers, is a record Asks, which is any. Tracee/Event/Kernel says
-- which stops the kernel reports, in both orders of seccomp and ptrace, as phases of a system
-- call, Tracee/Event/Reach what is reached by them, and Tracee/Event/Accelerate when the exit of a
-- system call is wanted. Left out: the workaround for a system call's number that cannot be
-- changed, that for a broken PTRACE_POKEDATA, a tracee whose registers cannot be read, and the
-- step of a fork for the parent.
--
-- Ptrace: proot/src/ptrace and proot/src/tracee, where a tracee is itself a tracer. A Table holds
-- the tracees by their addresses and the calls that act on them, as a list of effects. Ptrace is
-- restart_tracee, attach_to_ptracer and detach_from_ptracer; Ptrace/Search is get_ptracee and
-- get_tracee; Ptrace/Events is the first half of handle_ptracee_event, which filters events;
-- Ptrace/Wait is the rest of it and the emulation of wait(2); Ptrace/Requests is
-- translate_ptrace_exit. Ptrace/Child is the ptracer that new_child of proot/src/tracee/tracee.c
-- gives to a child. What PRoot makes of an event (handle_tracee_event) is an argument;
-- Ptrace/Count/Handled says of which changes it may consist, and what the kernel answers is a
-- record Kernel. Assertions are left out, but for that of detach_from_ptracer, whose counter stops
-- at 0 in the model; Ptrace/Count relates it to the tracees. Ptrace/Count/Reach has what can
-- happen to a table as a step relation.
--
-- The files called Samples hold tests on concrete inputs. Not modelled: system calls as such, the
-- tracee's registers, allocation in the tracer and its failure, messages, the glue that is made on
-- the host while bindings are initialized, and the parts of the program that no file above names.
pub mod Prelude
pub mod Path
pub mod Binding
pub mod Detranslate
pub mod Canon
pub mod Sysvipc
pub mod Execve
pub mod FakeId0
pub mod Syscall
pub mod Tracee
pub mod Translate
pub mod Ptrace
