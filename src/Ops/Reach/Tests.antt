-- ===== src/Ops/Reach/Tests.antt =====
-- A run: a module is loaded, its function is called, and its first instruction is executed.
use owlang.Base.{refl, [], ◌∷◌, some}
use owlang.Base.Outcome.{Outcome, done}
use owlang.World.{World}
use owlang.World.Tests.{test_world}
use owlang.Term.{owl_extract_ptr, owl_tag_as}
use owlang.Rrb.Push.{rrb_push}
use owlang.Vm.{Vm, vm_new}
use owlang.Vm.Memory.{load_rrb, load_function_at, owl_alloc, owl_alloc_all, align}
use owlang.Rrb.Memory.{push_bytes}
use owlang.Vm.Registers.{setup_next_stackframe, jump_to, next_byte, next_int, set_reg, advance}
use owlang.Std.Lists.{rrb_to_list}
use owlang.Gc.{gc_safepoint}
use owlang.Load.Module.{vm_load_module_from_file}
use owlang.Ops.Calls.{op_call, load_function}
use owlang.Ops.Values.{op_store_int}
use owlang.Ops.Step.{step, write_code}
use owlang.Ops.Reach.{Reached, IsSafe, new, loads, starts, runs, started, call_code, Reached-IsSafe}

-- Every file is the module with a function `f` that stores 300 and returns.
abbrev with_module : World
with_module = record test_world {
  fread = λ name. some (12 ∷ 2 ∷ b'f' ∷ 0 ∷ 1 ∷ 0 ∷ 44 ∷ 1 ∷ 6 ∷ []);
}

abbrev after : Outcome (Unit {0} × Vm with_module) → Vm with_module
after (done (_, vm)) = vm
after _ = vm_new with_module

abbrev loaded : Vm with_module
loaded = after (vm_load_module_from_file (b'f' ∷ []) (vm_new with_module))

abbrev called : Vm with_module
called = started loaded.code_size (after (write_code loaded.code_size (call_code 1) loaded))

abbrev entered : Vm with_module
entered = after (step called)

abbrev stored : Vm with_module
stored = after (step entered)

loaded-Reached : Reached loaded
unfolding vm_load_module_from_file vm_new load_rrb owl_extract_ptr rrb_to_list owl_tag_as rrb_push
    owl_alloc owl_alloc_all push_bytes align
loaded-Reached = loads (b'f' ∷ []) new refl

called-Reached : Reached called
unfolding vm_load_module_from_file vm_new load_rrb owl_extract_ptr rrb_to_list owl_tag_as rrb_push
    owl_alloc owl_alloc_all push_bytes align write_code
called-Reached = starts 1 loaded-Reached refl

entered-Reached : Reached entered
unfolding vm_load_module_from_file vm_new load_rrb owl_extract_ptr rrb_to_list owl_tag_as rrb_push
    owl_alloc owl_alloc_all push_bytes align write_code step gc_safepoint load_function_at
    setup_next_stackframe jump_to next_byte op_call load_function
entered-Reached = runs called-Reached refl

stored-Reached : Reached stored
unfolding vm_load_module_from_file vm_new load_rrb owl_extract_ptr rrb_to_list owl_tag_as rrb_push
    owl_alloc owl_alloc_all push_bytes align write_code step gc_safepoint load_function_at
    setup_next_stackframe jump_to next_byte next_int set_reg advance op_call load_function
    op_store_int
stored-Reached = runs entered-Reached refl

Reached-IsSafe_example : IsSafe stored
Reached-IsSafe_example = Reached-IsSafe stored-Reached
