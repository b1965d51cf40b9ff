-- ===== src/Path.antt =====
-- proot/src/path/path.c: the comparison, joining and prefix substitution of path names.
pub mod Compare
pub mod Components
pub mod Join
pub mod Prefix
mod Samples
