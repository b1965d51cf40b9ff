-- ===== src/Syscall.antt =====
-- The emulation of brk(2) and the chains of system calls, of proot/src/syscall.
pub mod Heap
pub mod Chain
