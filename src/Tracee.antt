-- ===== src/Tracee.antt =====
-- The memory of a tracee, of proot/src/tracee.
pub mod Mem
pub mod Strings
mod Event
mod Samples
