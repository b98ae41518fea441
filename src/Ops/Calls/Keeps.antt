-- ===== src/Ops/Calls/Keeps.antt =====
-- What calls and returns of vm/src/opcodes.c keep of the machine.
use owlang.Base.{ℕ, ◌-◌, ◌<◌, ◌≡◌, refl, arith, Bool, true, false, length, ltb, ◌==◌}
use owlang.World.{World}
use owlang.Term.{OwlTag, tag_value, owl_extract_ptr, owl_tag_of}
use owlang.Vm.{Vm, register_count, no_function, max_depth}
use owlang.Vm.Memory.{load_string, load_function_at}
use owlang.Vm.Keeps.{
  Leaves, Keeps, bind-Keeps, then-Keeps, pure-Keeps, reads-Keeps, if-Keeps, stops-Keeps,
  faults-Keeps,
}
use owlang.Vm.Stable.{Stable, with_register}
use owlang.Vm.Registers.Keeps.{
  next_byte-Keeps, jump_to-Keeps, advance-Keeps, get_var-Keeps, set_reg-Keeps,
  setup_next_stackframe-Keeps,
}
use owlang.Gc.Keeps.{gc_safepoint-Keeps}
use owlang.Load.Module.Keeps.{vm_load_module-Keeps}
use owlang.Std.Functions.{owl_function_from}
use owlang.Ops.Calls.{
  before_dot, fname_capacity, function_slot, load_module_of, load_function, set_current_function,
  enter, op_call, op_call_local, leave_frame, op_return, op_capture,
}

module _ {w : World} {P : Vm w → Type 0} (s : Stable P) where
  function_slot-Keeps : (function_id : ℕ) → Keeps P (function_slot function_id)
  unfolding function_slot
  function_slot-Keeps function_id = record { at = λ vm h. ground arith }

  load_module_of-Keeps : (function_id : ℕ) → Keeps P (load_module_of function_id)
  unfolding load_module_of
  load_module_of-Keeps function_id =
      bind-Keeps
        (reads-Keeps (λ vm. load_string (w.strings_lookup_id vm.function_names function_id) vm))
        λ fname.
          if-Keeps (ltb (length fname) fname_capacity) (vm_load_module-Keeps s (before_dot fname))
            faults-Keeps

  load_function-Keeps : (function_id : ℕ) → Keeps P (load_function function_id)
  unfolding load_function
  load_function-Keeps function_id = bind-Keeps (function_slot-Keeps function_id) λ function.
      if-Keeps (function == no_function)
        (then-Keeps (load_module_of-Keeps function_id) (
          bind-Keeps (function_slot-Keeps function_id)
            λ loaded. if-Keeps (loaded == no_function) stops-Keeps (pure-Keeps loaded)))
        (pure-Keeps function)

  set_current_function-Keeps : (fun : ℕ) → Keeps P (set_current_function fun)
  unfolding set_current_function
  set_current_function-Keeps fun = record { at = λ vm h. s.current vm fun h }

  enter-Keeps : (fun arity ret_reg : ℕ) → Keeps P (enter fun arity ret_reg)
  unfolding enter
  enter-Keeps fun arity ret_reg = then-Keeps (set_current_function-Keeps fun) (
      then-Keeps (setup_next_stackframe-Keeps s fun arity ret_reg) (
        bind-Keeps (reads-Keeps (load_function_at fun))
          λ function. jump_to-Keeps s.locally function.location))

  pub op_call-Keeps : Keeps P op_call
  unfolding op_call
  op_call-Keeps = bind-Keeps (next_byte-Keeps s.locally) λ ret_reg.
      bind-Keeps (next_byte-Keeps s.locally) λ function_id.
        bind-Keeps (next_byte-Keeps s.locally) λ arity.
          then-Keeps (gc_safepoint-Keeps s max_depth)
            (bind-Keeps (load_function-Keeps function_id) λ fun. enter-Keeps fun arity ret_reg)

  pub op_call_local-Keeps : Keeps P op_call_local
  unfolding op_call_local
  op_call_local-Keeps = bind-Keeps (next_byte-Keeps s.locally) λ ret_reg.
      bind-Keeps (next_byte-Keeps s.locally) λ function_reg.
        bind-Keeps (get_var-Keeps function_reg) λ function.
          bind-Keeps (next_byte-Keeps s.locally) λ arity.
            if-Keeps (owl_tag_of function == tag_value OwlTag.function)
              (enter-Keeps (owl_extract_ptr function) arity ret_reg) stops-Keeps

  pub op_capture-Keeps : Keeps P op_capture
  unfolding op_capture
  op_capture-Keeps = bind-Keeps (next_byte-Keeps s.locally) λ result_reg.
      bind-Keeps (next_byte-Keeps s.locally) λ function_id.
        bind-Keeps (load_function-Keeps function_id) λ function.
          then-Keeps (set_reg-Keeps s.locally result_reg (owl_function_from function))
            (advance-Keeps s.locally 1)

  -- The machine that a return leaves, where the register of the result is `reg`.
  returned-Leaves :
      (vm : Vm w) (reg term : ℕ)
      → (vm.current_frame == 0) ≡ false
      → reg < register_count
      → P vm
      → Leaves P (
          leave_frame
            (vm.frames vm.current_frame).ret_address
            (with_register (vm.current_frame - 1) reg term vm))
  unfolding leave_frame
  returned-Leaves vm reg term above small h =
      let other : (vm.current_frame == vm.current_frame - 1) ≡ false = ground arith in
      rw other (
        rw other at (
          s.leave (with_register (vm.current_frame - 1) reg term vm) (ground arith)
            (s.locally.register vm (vm.current_frame - 1) reg term small h)))

  op_return-Leaves : (vm : Vm w) → P vm → Leaves P (op_return vm)
  unfolding op_return
  op_return-Leaves vm h = by_frame _ refl
    where
      reg : ℕ
      reg = (vm.frames vm.current_frame).ret_register

      by_register :
          (below : Bool)
          → (vm.current_frame == 0) ≡ false
          → ltb reg register_count ≡ below
          → Leaves P (op_return vm)
      by_register true above below =
          rw (above, below)
            (returned-Leaves vm reg ((vm.frames vm.current_frame).registers 0) above (ground arith)
              h)
      by_register false above past = rw (above, past) tt

      by_frame : (lowest : Bool) → (vm.current_frame == 0) ≡ lowest → Leaves P (op_return vm)
      by_frame true lowest = rw lowest tt
      by_frame false above = by_register _ above refl

  pub op_return-Keeps : Keeps P op_return
  op_return-Keeps = record { at = op_return-Leaves }
