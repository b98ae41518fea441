-- ===== src/Load.antt =====
-- vm/src/std/owl_code.c, and how vm/src/vm.c and vm/src/util/file.c find the code of a module.
mod Tests
pub mod Files
pub mod Scanner
pub mod Module
