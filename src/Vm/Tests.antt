-- ===== src/Vm/Tests.antt =====
-- Machines for the tests, and reads and an allocation on them.
use owlang.Base.{ℕ, ◌+◌, ◌≡◌, ◌⊎◌, List, [], ◌∷◌, get_or, arith, ◌<◌, ◌^◌, ◌/◌}
use owlang.Base.Outcome.{done, exited}
use owlang.World.Tests.{test_world}
use owlang.Term.{int_from_owl_int, owl_tag_of}
use owlang.Vm.{Vm, vm_new}
use owlang.Vm.Memory.{owl_alloc}
use owlang.Vm.Memory.Alloc.{BlockAt, owl_alloc_lem}
use owlang.Vm.Registers.{next_int}
use owlang.Vm.Registers.Operands.{next_int_lem}

-- A new machine with some code.
unfoldable pub machine_with : List ℕ → Vm test_world
unfolding vm_new
machine_with code = record (vm_new test_world) { code = λ i. get_or code i 0 }

abbrev store_int_code : List ℕ
store_int_code = 2 ∷ 7 ∷ 44 ∷ 1 ∷ []

abbrev after_register : Vm test_world
after_register = record (machine_with store_int_code) { ip = 1 }

next_int_lem_example :
    (value : ℕ) × (next_int after_register ≡ done (value, record after_register { ip = 3 }))
    × (int_from_owl_int value ≡ 300)
    × (int_from_owl_int value < 2 ^ 16)
    × (owl_tag_of value ≡ 1)
unfolding machine_with
next_int_lem_example = next_int_lem after_register (omega arith) (omega arith) (omega arith)

owl_alloc_lem_example :
    ((owl_alloc 13 after_register ≡ exited 1)
      × (after_register.gc.to_space + after_register.gc.size / 2
          < after_register.gc.alloc_ptr + 13 + 8))
    ⊎ ((ptr : ℕ) × (vm' : Vm test_world) × (owl_alloc 13 after_register ≡ done (ptr, vm'))
        × BlockAt 13 after_register ptr vm')
owl_alloc_lem_example = owl_alloc_lem 13 after_register (omega arith)
