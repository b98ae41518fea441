-- ===== src/Std.antt =====
-- vm/src/std and vm/src/term.c: the operations on texts, functions, lists and terms.
mod Tests
pub mod Strings
pub mod Functions
pub mod Lists
pub mod Equality
pub mod Terms
pub mod Dirs
