-- ===== src/Ops/Calls.antt =====
-- Calls and returns of vm/src/opcodes.c.
pub mod Enter
pub mod Return
pub mod Closure
pub mod Keeps
use owlang.Base.{
  ℕ, ◌+◌, ◌-◌, ◌%◌, ◌^◌, Bool, true, false, Option, none, some, List, [], ◌∷◌, length, ltb, ◌==◌,
  if◌then◌else◌,
}
use owlang.Base.Outcome.{Outcome, done, exited, fault}
use owlang.World.{World}
use owlang.Term.{OwlTag, tag_value, owl_extract_ptr, owl_tag_of}
use owlang.Vm.{
  Vm, Op, Frame, register_count, max_functions, no_function, max_depth, update, ◌>>=◌, ◌>>◌, pure,
  lift, die,
}
use owlang.Vm.Memory.{load_string, load_function_at}
use owlang.Vm.Registers.{
  next_byte, jump_to, advance, get_var, set_reg, write_register, setup_next_stackframe,
}
use owlang.Gc.{gc_safepoint}
use owlang.Load.Module.{vm_load_module}
use owlang.Std.Functions.{owl_function_from}

-- `strsep(&name, ".")`: the part before the first `.`
unfoldable before_dot : List ℕ → List ℕ
before_dot [] = []
before_dot (x ∷ xs) = let rest = before_dot xs in if x == b'.' then [] else x ∷ rest

-- the bytes of `fname_buf`
abbrev fname_capacity : ℕ
fname_capacity = 255

module _ {w : World} where
  -- `vm->functions[function_id]`
  unfoldable function_slot : ℕ → Op w ℕ
  function_slot function_id vm =
      if ltb function_id max_functions then done (vm.functions function_id, vm) else fault

  -- The name is copied into a buffer, and the module before its `.` is loaded.
  unfoldable pub load_module_of : ℕ → Op w (Unit {0})
  unfolding before_dot load_string
  load_module_of function_id = do
    fname ← λ vm. lift (load_string (w.strings_lookup_id vm.function_names function_id) vm) vm
    if ltb (length fname) fname_capacity then vm_load_module (before_dot fname) else λ vm. fault

  -- A function that is not there after its module was loaded ends the process.
  unfoldable pub load_function : ℕ → Op w ℕ
  unfolding function_slot
  load_function function_id = do
    function ← function_slot function_id
    if function == no_function
        then (do
          load_module_of function_id
          loaded ← function_slot function_id
          if loaded == no_function then die else pure loaded)
        else pure function

  unfoldable set_current_function : ℕ → Op w (Unit {0})
  set_current_function fun vm = done (tt, record vm { current_function = fun })

  -- The end of both calls: the new frame, and the jump to the function's code.
  unfoldable pub enter : ℕ → ℕ → ℕ → Op w (Unit {0})
  unfolding set_current_function setup_next_stackframe load_function_at jump_to
  enter fun arity ret_reg = do
    set_current_function fun
    setup_next_stackframe fun arity ret_reg
    function ← λ vm. lift (load_function_at fun vm) vm
    jump_to function.location

  unfoldable pub op_call : Op w (Unit {0})
  unfolding enter
  op_call = do
    ret_reg ← next_byte
    function_id ← next_byte
    arity ← next_byte
    gc_safepoint max_depth
    fun ← load_function function_id
    enter fun arity ret_reg

  unfoldable pub op_call_local : Op w (Unit {0})
  unfolding enter
  op_call_local = do
    ret_reg ← next_byte
    function_reg ← next_byte
    function ← get_var function_reg
    arity ← next_byte
    if owl_tag_of function == tag_value OwlTag.function
        then enter (owl_extract_ptr function) arity ret_reg
        else die

  -- `memset(curr_frame->registers, 0, …)`, and the frame is left
  unfoldable leave_frame : ℕ → Op w (Unit {0})
  leave_frame ret_address vm = done (
    tt,
    record vm {
      frames =
          update vm.frames vm.current_frame
            (record (vm.frames vm.current_frame) { registers = λ _. 0 });
      current_frame = vm.current_frame - 1;
      ip = ret_address;
    },
  )

  -- Where no frame is below the current one, the source writes outside the array.
  unfoldable pub op_return : Op w (Unit {0})
  unfolding write_register leave_frame
  op_return vm =
      let curr_frame = vm.frames vm.current_frame in
      if vm.current_frame == 0
      then fault
      else (write_register (vm.current_frame - 1) curr_frame.ret_register (curr_frame.registers 0)
            >> leave_frame curr_frame.ret_address)
          vm

  unfoldable pub op_capture : Op w (Unit {0})
  op_capture = do
    result_reg ← next_byte
    function_id ← next_byte
    function ← load_function function_id
    set_reg result_reg (owl_function_from function)
    advance 1
