-- ===== src/Load/Module/Kept.antt =====
-- What `owl_load_module` of vm/src/std/owl_code.c does to the code loaded before.
use owlang.Base.{ℕ, suc, ◌≤◌, ◌<◌, ◌≡◌, arith, List, length}
use owlang.Base.Outcome.{done}
use owlang.World.{World}
use owlang.Vm.{Vm, code_capacity, pure}
use owlang.Std.Lists.{rrb_to_list}
use owlang.Load.Module.{Loader, load_loop, owl_load_module}
use owlang.Load.Module.Growth.{bind-done, Wrote}
use owlang.Load.Module.Rounds.{load_loop-Writes}

module _ {w : World} where
  at_end :
      {vm : Vm w} (vm₁ vm' : Vm w) (l : Loader) (list : ℕ) (start : Loader)
      → Wrote vm start 0 vm₁ l
      → pure l.function_list vm₁ ≡ done (list, vm')
      → ((i : ℕ) → i < start.code_ptr → vm'.code i ≡ vm.code i)
        × (start.code_ptr ≤ vm'.code_size)
        × (vm'.code_size ≤ code_capacity)
  at_end vm₁ vm' l list start wrote e =
      let same : vm' ≡ vm₁ = ground arith in
      rw same (wrote.kept, omega (arith, wrote.after.ahead), omega (arith, wrote.after.ahead))

  -- When a module has been loaded, all code loaded before is as it was, and `code_size` has not become
  -- smaller and is inside the buffer.
  pub owl_load_module-kept :
      (vm vm' : Vm w) (bytecode : List ℕ) (list : ℕ)
      → vm.code_size ≤ code_capacity
      → owl_load_module bytecode vm ≡ done (list, vm')
      → ((i : ℕ) → i < vm.code_size → vm'.code i ≡ vm.code i)
        × (vm.code_size ≤ vm'.code_size)
        × (vm'.code_size ≤ code_capacity)
  unfolding owl_load_module
  owl_load_module-kept vm vm' bytecode list small h =
      let start : Loader = record {
        code_ptr = vm.code_size;
        bytes = bytecode;
        function_list = rrb_to_list w.empty_rrb_at;
      } in
      let ((l, vm₁), e, r) = bind-done (load_loop (suc (length bytecode)) start vm) _ h in
      let wrote =
        load_loop-Writes (suc (length bytecode)) vm vm₁ start l
          (record { ahead = omega arith; inside = small }) e in
      at_end vm₁ vm' l list start wrote r
