-- ===== src/Std/Functions/Keeps.antt =====
-- What the operations on functions in vm/src/std/owl_function.c keep of the machine.
use owlang.Base.{ℕ, ◌+◌, ◌*◌, length, ltb, []}
use owlang.World.{World}
use owlang.Term.{owl_extract_ptr}
use owlang.Vm.{Vm, Function, Object}
use owlang.Vm.Memory.{load_function_at}
use owlang.Vm.Memory.Keeps.{alloc_object-Keeps, store-Keeps}
use owlang.Vm.Keeps.{
  Keeps, writes-Keeps, then-Keeps, bind-Keeps, pure-Keeps, reads-Keeps, if-Keeps, faults-Keeps,
}
use owlang.Vm.Stable.{Stable}
use owlang.Std.Functions.{
  owl_function_init, owl_anon_function_init, owl_function_set_upvalue, owl_function_name,
  function_size,
}

module _ {w : World} {P : Vm w → Type 0} where
  pub owl_function_name-Keeps : (function : ℕ) → Keeps P (owl_function_name function)
  unfolding owl_function_name
  owl_function_name-Keeps function =
      bind-Keeps (reads-Keeps (load_function_at (owl_extract_ptr function))) λ fun. pure-Keeps _

-- a function without upvalues
abbrev declared : ℕ → ℕ → Function
declared name location = record { location = location; name = name; n_upvalues = 0; upvalues = [] }

module _ {w : World} {P : Vm w → Type 0} (s : Stable P) where
  pub owl_function_init-Keeps : (name location : ℕ) → Keeps P (owl_function_init name location)
  unfolding owl_function_init
  owl_function_init-Keeps name location =
      bind-Keeps
        (writes-Keeps (λ vm. w.malloc vm.mallocs) (λ vm. record vm { mallocs = vm.mallocs + 1 })
          s.malloc)
        λ ptr.
          then-Keeps (store-Keeps s ptr (Object.function (declared name location))) (pure-Keeps ptr)

  pub owl_anon_function_init-Keeps :
      (location n_upvalues : ℕ) → Keeps P (owl_anon_function_init location n_upvalues)
  unfolding owl_anon_function_init
  owl_anon_function_init-Keeps location n_upvalues =
      alloc_object-Keeps s (function_size + n_upvalues * 8) _

  pub owl_function_set_upvalue-Keeps :
      (fun index value : ℕ) → Keeps P (owl_function_set_upvalue fun index value)
  unfolding owl_function_set_upvalue
  owl_function_set_upvalue-Keeps fun index value =
      bind-Keeps (reads-Keeps (load_function_at fun)) λ function.
        if-Keeps (ltb index (length function.upvalues)) (store-Keeps s fun _) faults-Keeps
