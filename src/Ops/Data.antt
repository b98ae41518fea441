-- ===== src/Ops/Data.antt =====
-- The opcodes of vm/src/opcodes.c on texts, tuples, lists and functions.
pub mod Keeps
use owlang.Base.{ℕ, zero, suc, ◌+◌, ◌*◌, ◌%◌, true, false, List, [], ◌∷◌, ◌++◌, leb}
use owlang.Base.Outcome.{done, out_of_fuel}
use owlang.World.{World}
use owlang.Term.{OwlTag, owl_tag_as, int_from_owl_int}
use owlang.Vm.{Op, Object, max_depth, ◌>>=◌, ◌>>◌, pure, lift}
use owlang.Vm.Memory.{owl_alloc, store}
use owlang.Vm.Registers.{next_byte, advance, get_var, set_reg}
use owlang.Std.Strings.{owl_string_from, owl_string_slice, owl_string_count, owl_string_contains}
use owlang.Std.Functions.{
  owl_anon_function_init, owl_function_set_upvalue, owl_function_from, owl_function_name,
}
use owlang.Std.Lists.{owl_list_init, owl_list_push, owl_list_nth, owl_list_count, owl_list_slice}
use owlang.Std.Equality.{u8_rounds}
use owlang.Std.Terms.{owl_concat, owl_tuple_nth, owl_term_to_string}
use owlang.Std.Terms.Print.{owl_term_print}
use owlang.Std.Dirs.{owl_file_pwd, owl_file_ls}
use owlang.Load.Module.{owl_code_load}
use owlang.Ops.Values.{unary, binary}

module _ {w : World} where
  -- the next operand's value
  unfoldable next_var : Op w ℕ
  next_var = do reg ← next_byte; get_var reg

  -- The loop of `op_tuple` over its `uint8_t` counter, `elems` being what is written so far. With
  -- 255 elements the counter wraps, and the loop does not end.
  unfoldable tuple_elements : ℕ → ℕ → ℕ → List ℕ → Op w (List ℕ)
  unfolding next_var
  tuple_elements zero i size elems = lift out_of_fuel
  tuple_elements (suc fuel) i size elems = elim (leb i size) [
    | true ↦ next_var >>= λ elem. tuple_elements fuel ((i + 1) % 256) size (elems ++ elem ∷ [])
    | false ↦ pure elems
  ]

  unfoldable pub op_tuple : Op w (Unit {0})
  unfolding tuple_elements
  op_tuple = do
    reg ← next_byte
    size ← next_byte
    ary ← owl_alloc (8 * (size + 1))
    elems ← tuple_elements u8_rounds 1 size []
    store ary (Object.tuple elems)
    set_reg reg (owl_tag_as ary OwlTag.tuple)
    advance 1

  -- The loop of `op_list`, `rest` rounds being left.
  unfoldable push_operands : ℕ → ℕ → Op w ℕ
  unfolding next_var
  push_operands zero list = pure list
  push_operands (suc rest) list = do
    elem ← next_var
    list' ← owl_list_push list elem
    push_operands rest list'

  unfoldable pub op_list : Op w (Unit {0})
  unfolding push_operands
  op_list = do
    reg ← next_byte
    size ← next_byte
    list₀ ← owl_list_init
    list ← push_operands size list₀
    set_reg reg list
    advance 1

  -- The index is cut to the `uint8_t` of `owl_tuple_nth`.
  unfoldable pub op_tuple_nth : Op w (Unit {0})
  unfolding binary
  op_tuple_nth = binary (λ tuple index. owl_tuple_nth tuple (int_from_owl_int index % 256))

  unfoldable pub op_load_string : Op w (Unit {0})
  op_load_string = do
    reg ← next_byte
    string_id ← next_byte
    string ← λ vm. done (w.strings_lookup_id vm.intern_pool string_id, vm)
    set_reg reg (owl_string_from string)
    advance 1

  unfoldable pub op_print : Op w (Unit {0})
  op_print = do reg ← next_byte; value ← get_var reg; owl_term_print max_depth value; advance 1

  unfoldable pub op_file_pwd : Op w (Unit {0})
  op_file_pwd = do reg ← next_byte; cwd ← owl_file_pwd; set_reg reg cwd; advance 1

  unfoldable pub op_file_ls : Op w (Unit {0})
  unfolding unary
  op_file_ls = unary owl_file_ls

  unfoldable pub op_concat : Op w (Unit {0})
  unfolding binary
  op_concat = binary owl_concat

  unfoldable pub op_list_nth : Op w (Unit {0})
  unfolding binary
  op_list_nth = binary owl_list_nth

  unfoldable pub op_list_count : Op w (Unit {0})
  unfolding unary
  op_list_count = unary owl_list_count

  -- Four operands: a register for the result, and three whose values `f` is given.
  unfoldable ternary : (ℕ → ℕ → ℕ → Op w ℕ) → Op w (Unit {0})
  unfolding next_var
  ternary f = do
    ret_reg ← next_byte
    subject ← next_var
    from ← next_var
    to ← next_var
    result ← f subject from to
    set_reg ret_reg result
    advance 1

  unfoldable pub op_list_slice : Op w (Unit {0})
  unfolding ternary
  op_list_slice = ternary owl_list_slice

  unfoldable pub op_string_slice : Op w (Unit {0})
  unfolding ternary
  op_string_slice = ternary owl_string_slice

  unfoldable pub op_code_load : Op w (Unit {0})
  unfolding unary
  op_code_load = unary owl_code_load

  unfoldable pub op_function_name : Op w (Unit {0})
  unfolding unary
  op_function_name = unary owl_function_name

  unfoldable pub op_string_count : Op w (Unit {0})
  unfolding unary
  op_string_count = unary owl_string_count

  unfoldable pub op_string_contains : Op w (Unit {0})
  unfolding binary
  op_string_contains = binary owl_string_contains

  unfoldable pub op_to_string : Op w (Unit {0})
  unfolding unary
  op_to_string = unary (owl_term_to_string max_depth)

  -- The loop over the upvalues, `rest` rounds being left.
  unfoldable set_upvalues : ℕ → ℕ → ℕ → Op w (Unit {0})
  unfolding next_var
  set_upvalues zero i fun = pure tt
  set_upvalues (suc rest) i fun = do
    value ← next_var
    owl_function_set_upvalue fun i value
    set_upvalues rest (i + 1) fun

  -- The code of the function begins behind the operands.
  unfoldable pub op_anon_fn : Op w (Unit {0})
  unfolding set_upvalues
  op_anon_fn = do
    ret_reg ← next_byte
    jmp ← next_byte
    _ ← next_byte
    n_upvals ← next_byte
    location ← λ vm. done (vm.ip + n_upvals + 1, vm)
    fun ← owl_anon_function_init location n_upvals
    set_upvalues n_upvals 0 fun
    set_reg ret_reg (owl_function_from fun)
    advance jmp
