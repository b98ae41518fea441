-- ===== src/Load/Tests.antt =====
-- Module names at concrete paths.
use owlang.Base.{◌≡◌, refl, ◌++◌, ◌∷◌, []}
use owlang.Base.{ℕ, List, [], ◌<◌, ◌≤◌, arith}
use owlang.Base.Outcome.{Outcome, done}
use owlang.World.Tests.{test_world}
use owlang.Vm.{Vm}
use owlang.Rrb.Memory.{push_bytes}
use owlang.Vm.Memory.{load_rrb, owl_alloc, owl_alloc_all, align}
use owlang.Term.{owl_extract_ptr, owl_tag_as}
use owlang.Std.Lists.{rrb_to_list}
use owlang.Rrb.Push.{rrb_push}
use owlang.Vm.Tests.{machine_with}
use owlang.Load.Module.{owl_load_module}
use owlang.Load.Module.Kept.{owl_load_module-kept}
use owlang.Load.Files.{rindex, module_name_from_filename}
use owlang.Load.Files.Names.{module_name_from_filename-path}

module_name_from_filename-path_example :
    module_name_from_filename (
      (b's' ∷ b't' ∷ b'd' ∷ b'l' ∷ b'i' ∷ b'b' ∷ [])
      ++ b'/'
        ∷ ((b'l' ∷ b'i' ∷ b's' ∷ b't' ∷ b'.' ∷ b'v' ∷ b'1' ∷ [])
            ++ b'.' ∷ (b'o' ∷ b'w' ∷ b'l' ∷ b'c' ∷ [])))
    ≡ done (b'l' ∷ b'i' ∷ b's' ∷ b't' ∷ b'.' ∷ b'v' ∷ b'1' ∷ [])
unfolding rindex
module_name_from_filename-path_example =
    module_name_from_filename-path (b's' ∷ b't' ∷ b'd' ∷ b'l' ∷ b'i' ∷ b'b' ∷ [])
      (b'l' ∷ b'i' ∷ b's' ∷ b't' ∷ b'.' ∷ b'v' ∷ b'1' ∷ []) (b'o' ∷ b'w' ∷ b'l' ∷ b'c' ∷ []) refl
      refl refl

-- A machine with a return loaded, and the code of a function that stores 300 and returns.
abbrev with_return : Vm test_world
with_return = record (machine_with (6 ∷ [])) { code_size = 1 }

abbrev bytecode : List ℕ
bytecode = 12 ∷ 2 ∷ b'f' ∷ 0 ∷ 1 ∷ 0 ∷ 44 ∷ 1 ∷ 6 ∷ []

abbrev loaded_of : Outcome (ℕ × Vm test_world) → Vm test_world
loaded_of (done (list, vm)) = vm
loaded_of _ = with_return

abbrev list_of : Outcome (ℕ × Vm test_world) → ℕ
list_of (done (list, vm)) = list
list_of _ = 0

owl_load_module-kept_example :
    ((i : ℕ)
      → i < 1
      → (loaded_of (owl_load_module bytecode with_return)).code i ≡ with_return.code i)
    × (1 ≤ (loaded_of (owl_load_module bytecode with_return)).code_size)
    × ((loaded_of (owl_load_module bytecode with_return)).code_size ≤ 0xffff)
unfolding machine_with owl_load_module load_rrb owl_extract_ptr rrb_to_list owl_tag_as rrb_push
    owl_alloc owl_alloc_all push_bytes align
owl_load_module-kept_example =
    owl_load_module-kept with_return (loaded_of (owl_load_module bytecode with_return)) bytecode
      (list_of (owl_load_module bytecode with_return)) (omega arith) refl
