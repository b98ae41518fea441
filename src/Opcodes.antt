-- ===== src/Opcodes.antt =====
-- vm/src/opcodes.h: the opcodes, numbered from 0 in their order.
use owlang.Base.{ℕ, Option, List, [], ◌∷◌, get_elem?}

pub data Opcode : Type 0 where
  op_exit op_store_int op_print op_add op_sub op_call op_return op_mov op_jmp op_tuple : Opcode
  op_tuple_nth op_list op_pub_fn op_store_true op_store_false op_test op_eq op_not_eq op_not :
      Opcode
  op_store_nil op_greater_than op_load_string op_file_pwd op_concat op_file_ls op_capture : Opcode
  op_call_local op_list_nth op_list_count op_list_slice op_string_slice op_code_load : Opcode
  op_function_name op_string_count op_string_contains op_to_string op_anon_fn op_gc_collect : Opcode

unfoldable opcode_values : List Opcode
opcode_values =
    op_exit ∷ op_store_int ∷ op_print ∷ op_add ∷ op_sub ∷ op_call ∷ op_return ∷ op_mov ∷ op_jmp
    ∷ op_tuple ∷ op_tuple_nth ∷ op_list ∷ op_pub_fn ∷ op_store_true ∷ op_store_false ∷ op_test
    ∷ op_eq ∷ op_not_eq ∷ op_not ∷ op_store_nil ∷ op_greater_than ∷ op_load_string ∷ op_file_pwd
    ∷ op_concat ∷ op_file_ls ∷ op_capture ∷ op_call_local ∷ op_list_nth ∷ op_list_count
    ∷ op_list_slice ∷ op_string_slice ∷ op_code_load ∷ op_function_name ∷ op_string_count
    ∷ op_string_contains ∷ op_to_string ∷ op_anon_fn ∷ op_gc_collect ∷ []

-- The opcode of a byte, if it is one.
unfoldable pub opcode_of : ℕ → Option Opcode
unfolding opcode_values
opcode_of byte = get_elem? opcode_values byte
