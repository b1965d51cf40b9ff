-- ===== src/Execve.antt =====
-- The execution of programs, of proot/src/execve.
pub mod Shebang
pub mod Pointers
pub mod Expand
mod Samples
