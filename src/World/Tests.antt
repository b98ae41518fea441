-- ===== src/World/Tests.antt =====
-- A concrete world for the tests: interned texts are kept in a list, and the id of a text is its
-- place there, counted from 1.
use owlang.Base.{
  ℕ, ◌+◌, ◌*◌, Bool, true, false, Option, none, some, List, [], ◌∷◌, ◌++◌, length, ◌==◌, ◌&&◌,
  if◌then◌else◌,
}
use owlang.World.{World}

abbrev same_text : List ℕ → List ℕ → Bool
same_text [] [] = true
same_text (x ∷ xs) (y ∷ ys) = x == y && same_text xs ys
same_text _ _ = false

abbrev id_of : List (List ℕ) → List ℕ → ℕ → ℕ
id_of [] t i = 0
id_of (s ∷ ss) t i = let rest = id_of ss t (i + 1) in if same_text s t then i else rest

abbrev intern : List (List ℕ) → List ℕ → ℕ × List (List ℕ)
intern ss t = let id = id_of ss t 1 in if id == 0 then (length ss + 1, ss ++ t ∷ []) else (id, ss)

-- Texts of a pool are at 10000000 and up, by their ids.
abbrev pool_text : List (List ℕ) → ℕ → ℕ → Option (List ℕ)
pool_text [] i p = none
pool_text (s ∷ ss) i p =
    let rest = pool_text ss (i + 1) p in if p == 10000000 + i then some s else rest

abbrev pub test_world : World
test_world = record {
  Strings = List (List ℕ);
  strings_new = [];
  strings_intern = intern;
  strings_lookup = λ ss t. id_of ss t 1;
  strings_lookup_id = λ ss id. 10000000 + id;
  strings_at = λ ss p. pool_text ss 1 p;
  literal = λ t. 20000000;
  literal_at = λ p. none;
  empty_rrb_at = 30000000;
  malloc = λ n. 1000 * 1000 + n * 200000;
  compile_file_to_memory = λ f. [];
  path_max = 4096;
  getcwd = b'/' ∷ [];
  opendir = λ d. none;
  fread = λ f. none;
  owl_load_path = none;
}
