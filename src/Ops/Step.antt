-- ===== src/Ops/Step.antt =====
-- `opcode_init` of vm/src/opcodes.c, and `vm_run` and `vm_run_function` of vm/src/vm.c.
pub mod Binary
pub mod Keeps
use owlang.Base.{
  ℕ, zero, suc, ◌+◌, ◌%◌, Option, none, some, List, [], ◌∷◌, ltb, ◌==◌, if◌then◌else◌,
}
use owlang.Base.Outcome.{done, fault, out_of_fuel}
use owlang.World.{World}
use owlang.Opcodes.{Opcode, opcode_of}
use owlang.Term.{owl_true, owl_false, owl_nil}
use owlang.Vm.{Op, update, code_capacity, ◌>>=◌, ◌>>◌, pure, lift, die}
use owlang.Vm.Registers.{code_at}
use owlang.Ops.Calls.{op_call, op_call_local, op_return, op_capture}
use owlang.Ops.Control.{op_unknown, op_exit, op_test, op_jmp, op_gc_collect}
use owlang.Ops.Values.{
  op_store_int, op_mov, store_constant, op_add, op_sub, op_greater_than, op_eq, op_not_eq, op_not,
}
use owlang.Ops.Data.{
  op_tuple, op_list, op_tuple_nth, op_load_string, op_print, op_file_pwd, op_file_ls, op_concat,
  op_list_nth, op_list_count, op_list_slice, op_string_slice, op_code_load, op_function_name,
  op_string_count, op_string_contains, op_to_string, op_anon_fn,
}

module _ {w : World} where
  -- The entries that `opcode_init` makes. `OP_PUB_FN` has none.
  unfoldable opcode_impl : Opcode → Op w (Unit {0})
  opcode_impl Opcode.op_exit = op_exit
  opcode_impl Opcode.op_store_int = op_store_int
  opcode_impl Opcode.op_print = op_print
  opcode_impl Opcode.op_add = op_add
  opcode_impl Opcode.op_sub = op_sub
  opcode_impl Opcode.op_call = op_call
  opcode_impl Opcode.op_return = op_return
  opcode_impl Opcode.op_mov = op_mov
  opcode_impl Opcode.op_jmp = op_jmp
  opcode_impl Opcode.op_tuple = op_tuple
  opcode_impl Opcode.op_tuple_nth = op_tuple_nth
  opcode_impl Opcode.op_list = op_list
  opcode_impl Opcode.op_pub_fn = op_unknown
  opcode_impl Opcode.op_store_true = store_constant owl_true
  opcode_impl Opcode.op_store_false = store_constant owl_false
  opcode_impl Opcode.op_test = op_test
  opcode_impl Opcode.op_eq = op_eq
  opcode_impl Opcode.op_not_eq = op_not_eq
  opcode_impl Opcode.op_not = op_not
  opcode_impl Opcode.op_store_nil = store_constant owl_nil
  opcode_impl Opcode.op_greater_than = op_greater_than
  opcode_impl Opcode.op_load_string = op_load_string
  opcode_impl Opcode.op_file_pwd = op_file_pwd
  opcode_impl Opcode.op_concat = op_concat
  opcode_impl Opcode.op_file_ls = op_file_ls
  opcode_impl Opcode.op_capture = op_capture
  opcode_impl Opcode.op_call_local = op_call_local
  opcode_impl Opcode.op_list_nth = op_list_nth
  opcode_impl Opcode.op_list_count = op_list_count
  opcode_impl Opcode.op_list_slice = op_list_slice
  opcode_impl Opcode.op_string_slice = op_string_slice
  opcode_impl Opcode.op_code_load = op_code_load
  opcode_impl Opcode.op_function_name = op_function_name
  opcode_impl Opcode.op_string_count = op_string_count
  opcode_impl Opcode.op_string_contains = op_string_contains
  opcode_impl Opcode.op_to_string = op_to_string
  opcode_impl Opcode.op_anon_fn = op_anon_fn
  opcode_impl Opcode.op_gc_collect = op_gc_collect

  unfoldable run_opcode : Option Opcode → Op w (Unit {0})
  unfolding opcode_impl op_unknown
  run_opcode none = op_unknown
  run_opcode (some opcode) = opcode_impl opcode

  -- The body of the loop of `vm_run`. The table has 255 entries: the byte 255 is read behind it.
  unfoldable pub step : Op w (Unit {0})
  unfolding code_at run_opcode opcode_of
  step = do
    opcode ← λ vm. code_at vm.ip vm
    if ltb opcode 255 then run_opcode (opcode_of opcode) else λ vm. fault

  -- `while (true)`: it is left by `exit` alone.
  unfoldable pub vm_run : ℕ → Op w (Unit {0})
  unfolding step
  vm_run zero = lift out_of_fuel
  vm_run (suc fuel) = step >> vm_run fuel

  -- `memcpy(&vm->code[vm->code_size], &call_code, 6)`
  unfoldable pub write_code : ℕ → List ℕ → Op w (Unit {0})
  write_code at [] = pure tt
  write_code at (b ∷ bs) = do
    λ vm.
        if ltb at code_capacity then done (tt, record vm { code = update vm.code at b }) else fault
    write_code (at + 1) bs

  -- The id is cut to 8 bits before it is compared with 0.
  unfoldable pub vm_run_function : ℕ → List ℕ → Op w (Unit {0})
  unfolding write_code vm_run
  vm_run_function fuel function_name vm =
      let function_id = w.strings_lookup vm.function_names function_name % 256 in
      let at = vm.code_size in
      if function_id == 0
      then die vm
      else (write_code at (5 ∷ 0 ∷ function_id ∷ 0 ∷ 0 ∷ 0 ∷ [])
            >> ((λ vm'. done (tt, record vm' { ip = at; code_size = at + 6 })) >> vm_run fuel))
          vm
