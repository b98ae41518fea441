-- ===== src/Load/Files.antt =====
-- `module_name_from_filename` of vm/src/util/file.c, and `find_module_from_dir`,
-- `find_file_for_module` and `vm_load_module_from_file` of vm/src/vm.c.
pub mod Names
use owlang.Base.{
  ℕ, suc, zero, ◌+◌, Bool, true, false, Option, none, some, List, [], ◌∷◌, ◌++◌, length, ltb, leb,
  ◌==◌, if◌then◌else◌,
}
use owlang.Base.Outcome.{Outcome, done, fault, ◌>>=◌}
use owlang.World.{World, DirEntry}
use owlang.Std.Equality.{same_bytes}

-- `rindex(s, c)`: what stands before the last `c` and behind it
unfoldable pub rindex : ℕ → List ℕ → Option (List ℕ × List ℕ)
rindex c [] = none
rindex c (x ∷ xs) = elim (rindex c xs) [
  | some (before, behind) ↦ some (x ∷ before, behind)
  | none ↦ if x == c then some ([], xs) else none
]

-- The part behind the last `/`.
unfoldable pub base_name : List ℕ → List ℕ
unfolding rindex
base_name filename = elim (rindex b'/' filename) [ none ↦ filename | some (dir, name) ↦ name ]

-- Where no `.` is in the name, the source writes through NULL.
unfoldable pub module_name_from_filename : List ℕ → Outcome (List ℕ)
unfolding base_name rindex
module_name_from_filename filename = elim (rindex b'.' (base_name filename)) [
  | none ↦ fault
  | some (name, extension) ↦ done name
]

-- the bytes of `module_file`
abbrev path_capacity : ℕ
path_capacity = 500

-- `sprintf(buffer, "%s/%s", dirname, d_name)`
unfoldable module_path : List ℕ → List ℕ → Outcome (List ℕ)
module_path dirname d_name =
    let path = dirname ++ b'/' ∷ d_name in
    if ltb (length path) path_capacity then done path else fault

unfoldable search_entries : List ℕ → List ℕ → List DirEntry → Outcome (Option (List ℕ))
unfolding module_name_from_filename module_path same_bytes
search_entries dirname module_name [] = done none
search_entries dirname module_name (entry ∷ entries) =
    let rest = search_entries dirname module_name entries in
    if entry.is_reg
    then (module_name_from_filename entry.d_name >>= λ found.
        if same_bytes found module_name
        then (module_path dirname entry.d_name >>= λ path. done (some path))
        else rest)
    else rest

-- The path of the module's file in a directory.
unfoldable find_module_from_dir : World → List ℕ → List ℕ → Outcome (Option (List ℕ))
unfolding search_entries
find_module_from_dir w dirname module_name = elim (w.opendir dirname) [
  | none ↦ done none
  | some entries ↦ search_entries dirname module_name entries
]

-- A token is not empty.
unfoldable end_token : List ℕ → List (List ℕ) → List (List ℕ)
end_token [] rest = rest
end_token (t ∷ token) rest = (t ∷ token) ∷ rest

-- The tokens of `strtok(s, ":")`, `token` being what is read of the present one.
unfoldable tokens : List ℕ → List ℕ → List (List ℕ)
unfolding end_token
tokens token [] = end_token token []
tokens token (x ∷ xs) = elim (x == b':') [
  | true ↦ end_token token (tokens [] xs)
  | false ↦ tokens (token ++ x ∷ []) xs
]

unfoldable find_in_dirs : World → List ℕ → List (List ℕ) → Outcome (Option (List ℕ))
unfolding find_module_from_dir
find_in_dirs w module_name [] = done none
find_in_dirs w module_name (load_dir ∷ dirs) =
    find_module_from_dir w load_dir module_name
    >>= elim [ some path ↦ done (some path) | none ↦ find_in_dirs w module_name dirs ]

-- Where the variable is not set, the source reads through NULL.
unfoldable pub find_file_for_module : World → List ℕ → Outcome (Option (List ℕ))
unfolding find_in_dirs tokens
find_file_for_module w module_name = elim w.owl_load_path [
  | none ↦ fault
  | some load_path ↦ find_in_dirs w module_name (tokens [] load_path)
]

-- `fopen` and `fread`; where the file cannot be opened, the source seeks in NULL
unfoldable pub read_module_file : World → List ℕ → Outcome (List ℕ)
read_module_file w filename = elim (w.fread filename) [ none ↦ fault | some content ↦ done content ]
