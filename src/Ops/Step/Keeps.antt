-- ===== src/Ops/Step/Keeps.antt =====
-- What an instruction of vm/src/opcodes.c and a round of the loop of vm/src/vm.c keep of the machine.
use owlang.Base.{
  ℕ, ◌+◌, ◌≡◌, refl, arith, Bool, true, false, Option, none, some, List, [], ◌∷◌, ltb,
  if◌then◌else◌,
}
use owlang.Base.Outcome.{done, fault}
use owlang.World.{World}
use owlang.Opcodes.{Opcode, opcode_of}
use owlang.Term.{owl_true, owl_false, owl_nil}
use owlang.Vm.{Vm, update, code_capacity}
use owlang.Vm.Keeps.{Leaves, Keeps, bind-Keeps, then-Keeps, pure-Keeps, if-Keeps, faults-Keeps}
use owlang.Vm.Stable.{Stable}
use owlang.Vm.Registers.Keeps.{here-Keeps}
use owlang.Ops.Control.Keeps.{
  op_exit-Keeps, op_gc_collect-Keeps, op_jmp-Keeps, op_test-Keeps, op_unknown-Keeps,
}
use owlang.Ops.Values.Keeps.{
  op_add-Keeps, op_eq-Keeps, op_greater_than-Keeps, op_mov-Keeps, op_not-Keeps, op_not_eq-Keeps,
  op_store_int-Keeps, op_sub-Keeps, store_constant-Keeps,
}
use owlang.Ops.Data.Keeps.{
  op_anon_fn-Keeps, op_code_load-Keeps, op_concat-Keeps, op_file_ls-Keeps, op_file_pwd-Keeps,
  op_function_name-Keeps, op_list-Keeps, op_list_count-Keeps, op_list_nth-Keeps,
  op_list_slice-Keeps, op_load_string-Keeps, op_print-Keeps, op_string_contains-Keeps,
  op_string_count-Keeps, op_string_slice-Keeps, op_to_string-Keeps, op_tuple-Keeps,
  op_tuple_nth-Keeps,
}
use owlang.Ops.Calls.Keeps.{op_call-Keeps, op_call_local-Keeps, op_capture-Keeps, op_return-Keeps}
use owlang.Ops.Step.{opcode_impl, run_opcode, step, write_code}

module _ {w : World} {P : Vm w → Type 0} (s : Stable P) where
  opcode_impl-Keeps : (opcode : Opcode) → Keeps P (opcode_impl opcode)
  unfolding opcode_impl
  opcode_impl-Keeps Opcode.op_exit = op_exit-Keeps s
  opcode_impl-Keeps Opcode.op_store_int = op_store_int-Keeps s.locally
  opcode_impl-Keeps Opcode.op_print = op_print-Keeps s
  opcode_impl-Keeps Opcode.op_add = op_add-Keeps s.locally
  opcode_impl-Keeps Opcode.op_sub = op_sub-Keeps s.locally
  opcode_impl-Keeps Opcode.op_call = op_call-Keeps s
  opcode_impl-Keeps Opcode.op_return = op_return-Keeps s
  opcode_impl-Keeps Opcode.op_mov = op_mov-Keeps s.locally
  opcode_impl-Keeps Opcode.op_jmp = op_jmp-Keeps s
  opcode_impl-Keeps Opcode.op_tuple = op_tuple-Keeps s
  opcode_impl-Keeps Opcode.op_tuple_nth = op_tuple_nth-Keeps s
  opcode_impl-Keeps Opcode.op_list = op_list-Keeps s
  opcode_impl-Keeps Opcode.op_pub_fn = op_unknown-Keeps s
  opcode_impl-Keeps Opcode.op_store_true = store_constant-Keeps s.locally owl_true
  opcode_impl-Keeps Opcode.op_store_false = store_constant-Keeps s.locally owl_false
  opcode_impl-Keeps Opcode.op_test = op_test-Keeps s
  opcode_impl-Keeps Opcode.op_eq = op_eq-Keeps s.locally
  opcode_impl-Keeps Opcode.op_not_eq = op_not_eq-Keeps s.locally
  opcode_impl-Keeps Opcode.op_not = op_not-Keeps s.locally
  opcode_impl-Keeps Opcode.op_store_nil = store_constant-Keeps s.locally owl_nil
  opcode_impl-Keeps Opcode.op_greater_than = op_greater_than-Keeps s.locally
  opcode_impl-Keeps Opcode.op_load_string = op_load_string-Keeps s
  opcode_impl-Keeps Opcode.op_file_pwd = op_file_pwd-Keeps s
  opcode_impl-Keeps Opcode.op_concat = op_concat-Keeps s
  opcode_impl-Keeps Opcode.op_file_ls = op_file_ls-Keeps s
  opcode_impl-Keeps Opcode.op_capture = op_capture-Keeps s
  opcode_impl-Keeps Opcode.op_call_local = op_call_local-Keeps s
  opcode_impl-Keeps Opcode.op_list_nth = op_list_nth-Keeps s
  opcode_impl-Keeps Opcode.op_list_count = op_list_count-Keeps s
  opcode_impl-Keeps Opcode.op_list_slice = op_list_slice-Keeps s
  opcode_impl-Keeps Opcode.op_string_slice = op_string_slice-Keeps s
  opcode_impl-Keeps Opcode.op_code_load = op_code_load-Keeps s
  opcode_impl-Keeps Opcode.op_function_name = op_function_name-Keeps s
  opcode_impl-Keeps Opcode.op_string_count = op_string_count-Keeps s
  opcode_impl-Keeps Opcode.op_string_contains = op_string_contains-Keeps s
  opcode_impl-Keeps Opcode.op_to_string = op_to_string-Keeps s
  opcode_impl-Keeps Opcode.op_anon_fn = op_anon_fn-Keeps s
  opcode_impl-Keeps Opcode.op_gc_collect = op_gc_collect-Keeps s

  run_opcode-Keeps : (opcode : Option Opcode) → Keeps P (run_opcode opcode)
  unfolding run_opcode
  run_opcode-Keeps none = op_unknown-Keeps s
  run_opcode-Keeps (some opcode) = opcode_impl-Keeps opcode

  pub step-Keeps : Keeps P step
  unfolding step
  step-Keeps =
      bind-Keeps here-Keeps
        λ opcode. if-Keeps (ltb opcode 255) (run_opcode-Keeps (opcode_of opcode)) faults-Keeps

  write_byte-Leaves :
      (at b : ℕ) (vm : Vm w)
      → P vm
      → Leaves P (
          if ltb at code_capacity
          then done (tt, record vm { code = update vm.code at b })
          else fault)
  write_byte-Leaves at b vm h = by_room _ refl
    where
      by_room :
          (below : Bool)
          → ltb at code_capacity ≡ below
          → Leaves P (
              if ltb at code_capacity
              then done (tt, record vm { code = update vm.code at b })
              else fault)
      by_room true below = rw below (s.emit vm at b (ground arith) h)
      by_room false past = rw past tt

  pub write_code-Keeps : (at : ℕ) (bytes : List ℕ) → Keeps P (write_code at bytes)
  unfolding write_code
  write_code-Keeps at [] = pure-Keeps tt
  write_code-Keeps at (b ∷ bs) =
      then-Keeps (record { at = write_byte-Leaves at b }) (write_code-Keeps (at + 1) bs)
