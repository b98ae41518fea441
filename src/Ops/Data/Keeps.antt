-- ===== src/Ops/Data/Keeps.antt =====
-- What the opcodes on texts, tuples, lists and functions of vm/src/opcodes.c keep of the machine.
use owlang.Base.{ℕ, zero, suc, ◌+◌, ◌*◌, ◌%◌, Bool, true, false, List, [], ◌∷◌, ◌++◌, leb}
use owlang.World.{World}
use owlang.Term.{OwlTag, owl_tag_as, int_from_owl_int}
use owlang.Vm.{Vm, Op, Object, max_depth, ◌>>=◌, pure}
use owlang.Vm.Keeps.{Keeps, bind-Keeps, then-Keeps, pure-Keeps, gets-Keeps, starves-Keeps}
use owlang.Vm.Stable.{Stable}
use owlang.Vm.Memory.Keeps.{owl_alloc-Keeps, store-Keeps}
use owlang.Vm.Registers.{next_byte}
use owlang.Vm.Registers.Keeps.{next_byte-Keeps, advance-Keeps, get_var-Keeps, set_reg-Keeps}
use owlang.Std.Strings.{owl_string_from}
use owlang.Std.Strings.Keeps.{
  owl_string_slice-Keeps, owl_string_count-Keeps, owl_string_contains-Keeps,
}
use owlang.Std.Functions.{owl_function_from}
use owlang.Std.Functions.Keeps.{
  owl_anon_function_init-Keeps, owl_function_set_upvalue-Keeps, owl_function_name-Keeps,
}
use owlang.Std.Lists.Keeps.{
  owl_list_init-Keeps, owl_list_push-Keeps, owl_list_nth-Keeps, owl_list_count-Keeps,
  owl_list_slice-Keeps,
}
use owlang.Std.Equality.{u8_rounds}
use owlang.Std.Terms.Keeps.{owl_concat-Keeps, owl_tuple_nth-Keeps, owl_term_to_string-Keeps}
use owlang.Std.Terms.Print.Keeps.{owl_term_print-Keeps}
use owlang.Std.Dirs.Keeps.{owl_file_pwd-Keeps, owl_file_ls-Keeps}
use owlang.Load.Module.Keeps.{owl_code_load-Keeps}
use owlang.Ops.Values.Keeps.{unary-Keeps, binary-Keeps, finish-Keeps}
use owlang.Ops.Data.{
  next_var, tuple_elements, op_tuple, push_operands, op_list, op_tuple_nth, op_load_string,
  op_print, op_file_pwd, op_file_ls, op_concat, op_list_nth, op_list_count, ternary, op_list_slice,
  op_string_slice, op_code_load, op_function_name, op_string_count, op_string_contains,
  op_to_string, set_upvalues, op_anon_fn,
}

module _ {w : World} {P : Vm w → Type 0} (s : Stable P) where
  operand-Keeps : Keeps P next_byte
  operand-Keeps = next_byte-Keeps s.locally

  next_var-Keeps : Keeps P next_var
  unfolding next_var
  next_var-Keeps = bind-Keeps operand-Keeps λ reg. get_var-Keeps reg

  element-Keeps :
      (more : Bool) (elems : List ℕ) (rest : ℕ → Op w (List ℕ))
      → ((elem : ℕ) → Keeps P (rest elem))
      → Keeps P
          (elim more as (λ _. Op w (List ℕ)) [ true ↦ next_var >>= rest | false ↦ pure elems ])
  element-Keeps true elems rest keeps = bind-Keeps next_var-Keeps keeps
  element-Keeps false elems rest keeps = pure-Keeps elems

  tuple_elements-Keeps :
      (fuel i size : ℕ) (elems : List ℕ) → Keeps P (tuple_elements fuel i size elems)
  unfolding tuple_elements
  tuple_elements-Keeps zero i size elems = starves-Keeps
  tuple_elements-Keeps (suc fuel) i size elems =
      element-Keeps (leb i size) elems
        (λ elem. tuple_elements fuel ((i + 1) % 256) size (elems ++ elem ∷ []))
        λ elem. tuple_elements-Keeps fuel ((i + 1) % 256) size (elems ++ elem ∷ [])

  pub op_tuple-Keeps : Keeps P op_tuple
  unfolding op_tuple
  op_tuple-Keeps = bind-Keeps operand-Keeps λ reg. bind-Keeps operand-Keeps λ size.
      bind-Keeps (owl_alloc-Keeps s (8 * (size + 1))) λ ary.
        bind-Keeps (tuple_elements-Keeps u8_rounds 1 size []) λ elems.
          then-Keeps (store-Keeps s ary (Object.tuple elems))
            (finish-Keeps s.locally reg (owl_tag_as ary OwlTag.tuple))

  push_operands-Keeps : (rest list : ℕ) → Keeps P (push_operands rest list)
  unfolding push_operands
  push_operands-Keeps zero list = pure-Keeps list
  push_operands-Keeps (suc rest) list =
      bind-Keeps next_var-Keeps
        λ elem. bind-Keeps (owl_list_push-Keeps s list elem) λ list'. push_operands-Keeps rest list'

  pub op_list-Keeps : Keeps P op_list
  unfolding op_list
  op_list-Keeps = bind-Keeps operand-Keeps λ reg. bind-Keeps operand-Keeps λ size.
      bind-Keeps owl_list_init-Keeps
        λ list₀. bind-Keeps (push_operands-Keeps size list₀) λ list. finish-Keeps s.locally reg list

  pub op_tuple_nth-Keeps : Keeps P op_tuple_nth
  unfolding op_tuple_nth
  op_tuple_nth-Keeps =
      binary-Keeps s.locally _
        λ tuple index. owl_tuple_nth-Keeps tuple (int_from_owl_int index % 256)

  pub op_load_string-Keeps : Keeps P op_load_string
  unfolding op_load_string
  op_load_string-Keeps = bind-Keeps operand-Keeps λ reg. bind-Keeps operand-Keeps λ string_id.
      bind-Keeps (gets-Keeps (λ vm. w.strings_lookup_id vm.intern_pool string_id))
        λ string. finish-Keeps s.locally reg (owl_string_from string)

  pub op_print-Keeps : Keeps P op_print
  unfolding op_print
  op_print-Keeps = bind-Keeps operand-Keeps λ reg.
      bind-Keeps (get_var-Keeps reg)
        λ value. then-Keeps (owl_term_print-Keeps s max_depth value) (advance-Keeps s.locally 1)

  pub op_file_pwd-Keeps : Keeps P op_file_pwd
  unfolding op_file_pwd
  op_file_pwd-Keeps =
      bind-Keeps operand-Keeps
        λ reg. bind-Keeps (owl_file_pwd-Keeps s) λ cwd. finish-Keeps s.locally reg cwd

  pub op_file_ls-Keeps : Keeps P op_file_ls
  unfolding op_file_ls
  op_file_ls-Keeps = unary-Keeps s.locally _ (owl_file_ls-Keeps s)

  pub op_concat-Keeps : Keeps P op_concat
  unfolding op_concat
  op_concat-Keeps = binary-Keeps s.locally _ (owl_concat-Keeps s)

  pub op_list_nth-Keeps : Keeps P op_list_nth
  unfolding op_list_nth
  op_list_nth-Keeps = binary-Keeps s.locally _ owl_list_nth-Keeps

  pub op_list_count-Keeps : Keeps P op_list_count
  unfolding op_list_count
  op_list_count-Keeps = unary-Keeps s.locally _ owl_list_count-Keeps

  ternary-Keeps :
      (f : ℕ → ℕ → ℕ → Op w ℕ)
      → ((subject from to : ℕ) → Keeps P (f subject from to))
      → Keeps P (ternary f)
  unfolding ternary
  ternary-Keeps f keeps = bind-Keeps operand-Keeps λ ret_reg. bind-Keeps next_var-Keeps λ subject.
      bind-Keeps next_var-Keeps λ from.
        bind-Keeps next_var-Keeps
          λ to. bind-Keeps (keeps subject from to) λ result. finish-Keeps s.locally ret_reg result

  pub op_list_slice-Keeps : Keeps P op_list_slice
  unfolding op_list_slice
  op_list_slice-Keeps = ternary-Keeps _ (owl_list_slice-Keeps s)

  pub op_string_slice-Keeps : Keeps P op_string_slice
  unfolding op_string_slice
  op_string_slice-Keeps = ternary-Keeps _ (owl_string_slice-Keeps s)

  pub op_code_load-Keeps : Keeps P op_code_load
  unfolding op_code_load
  op_code_load-Keeps = unary-Keeps s.locally _ (owl_code_load-Keeps s)

  pub op_function_name-Keeps : Keeps P op_function_name
  unfolding op_function_name
  op_function_name-Keeps = unary-Keeps s.locally _ owl_function_name-Keeps

  pub op_string_count-Keeps : Keeps P op_string_count
  unfolding op_string_count
  op_string_count-Keeps = unary-Keeps s.locally _ owl_string_count-Keeps

  pub op_string_contains-Keeps : Keeps P op_string_contains
  unfolding op_string_contains
  op_string_contains-Keeps = binary-Keeps s.locally _ owl_string_contains-Keeps

  pub op_to_string-Keeps : Keeps P op_to_string
  unfolding op_to_string
  op_to_string-Keeps = unary-Keeps s.locally _ (owl_term_to_string-Keeps s max_depth)

  set_upvalues-Keeps : (rest i fun : ℕ) → Keeps P (set_upvalues rest i fun)
  unfolding set_upvalues
  set_upvalues-Keeps zero i fun = pure-Keeps tt
  set_upvalues-Keeps (suc rest) i fun = bind-Keeps next_var-Keeps λ value.
      then-Keeps (owl_function_set_upvalue-Keeps s fun i value)
        (set_upvalues-Keeps rest (i + 1) fun)

  pub op_anon_fn-Keeps : Keeps P op_anon_fn
  unfolding op_anon_fn
  op_anon_fn-Keeps = bind-Keeps operand-Keeps λ ret_reg. bind-Keeps operand-Keeps λ jmp.
      bind-Keeps operand-Keeps λ _. bind-Keeps operand-Keeps λ n_upvals.
        bind-Keeps (gets-Keeps (λ vm. vm.ip + n_upvals + 1)) λ location.
          bind-Keeps (owl_anon_function_init-Keeps s location n_upvals) λ fun.
            then-Keeps (set_upvalues-Keeps n_upvals 0 fun) (
              then-Keeps (set_reg-Keeps s.locally ret_reg (owl_function_from fun))
                (advance-Keeps s.locally jmp))
