-- ===== src/Load/Files/Names.antt =====
-- The names of module files, as vm/src/util/file.c reads them.
use owlang.Base.{ℕ, ◌≡◌, refl, arith, none, some, List, [], ◌∷◌, ◌++◌}
use owlang.Base.Outcome.{done}
use owlang.Load.Files.{rindex, base_name, module_name_from_filename}

-- The last `c` is found behind any prefix.
rindex-append :
    (c : ℕ) (before behind : List ℕ)
    → rindex c behind ≡ none
    → rindex c (before ++ c ∷ behind) ≡ some (before, behind)
unfolding rindex
rindex-append c [] behind h = rw h (ground arith)
rindex-append c (x ∷ before) behind h = rw (rindex-append c before behind h) refl

rindex-none_append :
    (c : ℕ) (xs ys : List ℕ) → rindex c xs ≡ none → rindex c ys ≡ none → rindex c (xs ++ ys) ≡ none
unfolding rindex
rindex-none_append c [] ys h k = k
rindex-none_append c (x ∷ xs) ys h k = ground (arith, rindex-none_append c xs ys)

base_name-append :
    (dir name : List ℕ) → rindex b'/' name ≡ none → base_name (dir ++ b'/' ∷ name) ≡ name
unfolding base_name
base_name-append dir name h = rw (base_name, rindex-append b'/' dir name h) refl

-- Of a path `dir/name.extension`, with no `/` in name and extension and no `.` in the extension,
-- `module_name_from_filename` gives the name, which may hold dots itself.
pub module_name_from_filename-path :
    (dir name extension : List ℕ)
    → rindex b'/' name ≡ none
    → rindex b'/' extension ≡ none
    → rindex b'.' extension ≡ none
    → module_name_from_filename (dir ++ b'/' ∷ (name ++ b'.' ∷ extension)) ≡ done name
unfolding rindex module_name_from_filename
module_name_from_filename-path dir name extension n e d =
    let no_slash : rindex b'/' (name ++ b'.' ∷ extension) ≡ none =
      rindex-none_append b'/' name (b'.' ∷ extension) n (rw (rindex, e) refl) in
    rw
      (
        module_name_from_filename,
        base_name-append dir (name ++ b'.' ∷ extension) no_slash,
        rindex-append b'.' name extension d,
      )
      refl
