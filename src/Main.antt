-- ===== src/Main.antt =====
-- vm/src/main.c: the search path, and the program's start.

mod Tests
use owlang.Base.{
  ℕ, suc, ◌≡◌, refl, Option, none, some, List, [], ◌∷◌, ◌++◌, ◌+◌, length, leb, if◌then◌else◌,
  arith, length-append, true, false,
}
use owlang.Base.Outcome.{Outcome, done, fault, bind}
use owlang.World.{World}
use owlang.Vm.{Op, vm_new, lift, ◌>>◌, ◌>>=◌}
use owlang.Load.Files.{module_name_from_filename}
use owlang.Load.Module.{vm_load_module_from_file}
use owlang.Ops.Step.{vm_run_function}

-- `sprintf` of a text into an array of `size` bytes; the NUL stands behind it.
unfoldable sprintf : ℕ → List ℕ → Outcome (List ℕ)
sprintf size text = if leb (suc (length text)) size then done text else fault

-- `relative_stdlib`
abbrev relative_stdlib : List ℕ
relative_stdlib =
    b'.' ∷ b'.' ∷ b'/' ∷ b'.' ∷ b'.' ∷ b'/' ∷ b'.' ∷ b'b' ∷ b'u' ∷ b'i' ∷ b'l' ∷ b'd' ∷ b'/' ∷ b's'
    ∷ b't' ∷ b'd' ∷ b'l' ∷ b'i' ∷ b'b' ∷ []

-- `setenv`
unfoldable set_load_path : World → List ℕ → Option (List ℕ) → Outcome World
unfolding sprintf
set_load_path w absolute_stdlib none = done (record w { owl_load_path = some absolute_stdlib })
set_load_path w absolute_stdlib (some load_path) =
    bind
      (sprintf (length load_path + length absolute_stdlib + 1)
        (load_path ++ b':' ∷ absolute_stdlib))
      λ final_path. done (record w { owl_load_path = some final_path })

-- The world with the environment variable set. `this_dir` is the directory of the source file.
unfoldable init_load_path : World → List ℕ → Outcome World
unfolding sprintf set_load_path
init_load_path w this_dir =
    let separated = this_dir ++ b'/' ∷ relative_stdlib in
    bind (sprintf (length this_dir + length relative_stdlib + 2) separated)
      λ absolute_stdlib. set_load_path w absolute_stdlib w.owl_load_path

-- `".main\\0"`: a backslash and a digit
abbrev main_suffix : List ℕ
main_suffix = b'.' ∷ b'm' ∷ b'a' ∷ b'i' ∷ b'n' ∷ 92 ∷ b'0' ∷ []

abbrev usage : List ℕ → List ℕ
usage program =
    b'U'
    ∷ b's'
    ∷ b'a'
    ∷ b'g'
    ∷ b'e'
    ∷ b':'
    ∷ b' '
    ∷ (program
        ++ b' ' ∷ b'i' ∷ b'n' ∷ b'p' ∷ b'u' ∷ b't' ∷ b'-' ∷ b'f' ∷ b'i' ∷ b'l' ∷ b'e' ∷ 10 ∷ [])

module _ {w : World} where
  -- What follows `vm_new`. The fuel is that of `vm_run`.
  unfoldable run_file : ℕ → List ℕ → Op w (Unit {0})
  unfolding vm_load_module_from_file vm_run_function module_name_from_filename sprintf
  run_file fuel filename = do
    vm_load_module_from_file filename
    main_module ← lift (module_name_from_filename filename)
    main_function ← lift (sprintf (length main_module + 8) (main_module ++ main_suffix))
    vm_run_function fuel main_function

-- What is on stdout where `main` returns. An empty `argv` has NULL where the usage names the program.
unfoldable pub main : ℕ → World → List ℕ → List (List ℕ) → Outcome (List ℕ)
unfolding init_load_path run_file vm_new
main fuel w this_dir [] = fault
main fuel w this_dir (program ∷ []) = done (usage program)
main fuel w this_dir (program ∷ filename ∷ rest) =
    bind (init_load_path w this_dir)
      λ w'. bind (run_file fuel filename (vm_new w')) λ (_, vm). done vm.stdout

-- Where the program is given a file and OWL_LOAD_PATH is set, `main` writes a byte behind the array
-- for the joined path, before it makes a machine: the array has no room for the NUL.
pub main-load_path :
    (fuel : ℕ) (w : World) (this_dir program filename path : List ℕ) (rest : List (List ℕ))
    → w.owl_load_path ≡ some path
    → main fuel w this_dir (program ∷ filename ∷ rest) ≡ fault
unfolding main init_load_path sprintf
main-load_path fuel w this_dir program filename path rest e =
    let dir = this_dir ++ b'/' ∷ relative_stdlib in
    let first : leb (suc (length dir)) (length this_dir + length relative_stdlib + 2) ≡ true =
      ground (arith, length-append this_dir (b'/' ∷ relative_stdlib)) in
    let second : leb (suc (length (path ++ b':' ∷ dir))) (length path + length dir + 1) ≡ false =
      ground (arith, length-append path (b':' ∷ dir)) in
    rw (first, e, second) refl
