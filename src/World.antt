-- ===== src/World.antt =====
-- What vm/src calls and does not implement: the string interning library vm/lib/intern, the C
-- library, the operating system, and the compiler (compiler/src, in Rust) behind its C interface.
pub mod Tests
use owlang.Base.{ℕ, Option, List, Bool}

-- `struct dirent`, as far as the source reads it
pub record DirEntry : Type 0 where
  pub d_name : List ℕ
  pub is_reg : Bool

-- Texts are lists of bytes without the NUL at their end, and pointers are addresses.
pub record World : Type 1 where
  -- `struct strings` of vm/lib/intern
  pub Strings : Type 0
  pub strings_new : Strings
  pub strings_intern : Strings → List ℕ → ℕ × Strings
  pub strings_lookup : Strings → List ℕ → ℕ
  -- the pointer to the text with this id, or 0
  pub strings_lookup_id : Strings → ℕ → ℕ
  -- the text at a pointer into the pool
  pub strings_at : Strings → ℕ → Option (List ℕ)
  -- the address of a string literal, and the literal at an address
  pub literal : List ℕ → ℕ
  pub literal_at : ℕ → Option (List ℕ)
  -- the address of the static `EMPTY_RRB`
  pub empty_rrb_at : ℕ
  -- the address that the n-th call of `malloc` returns
  pub malloc : ℕ → ℕ
  -- the bytecode that the compiler gives for a file name
  pub compile_file_to_memory : List ℕ → List ℕ
  -- `PATH_MAX` of the platform, and the working directory
  pub path_max : ℕ
  pub getcwd : List ℕ
  -- the entries of a directory, if it can be opened
  pub opendir : List ℕ → Option (List DirEntry)
  -- the content of a file, if it can be opened
  pub fread : List ℕ → Option (List ℕ)
  -- the environment variable `OWL_LOAD_PATH`
  pub owl_load_path : Option (List ℕ)
