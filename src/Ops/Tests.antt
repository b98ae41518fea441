-- ===== src/Ops/Tests.antt =====
-- Calls, returns and arithmetic at concrete machines.
use owlang.Base.{
  ℕ, ◌+◌, ◌-◌, ◌*◌, ◌^◌, ◌<◌, ◌≡◌, ◌↔◌, refl, arith, [], ◌∷◌, true, some, none, ◌==◌, if◌then◌else◌,
  get_or, zero, suc,
}
use owlang.Base.Outcome.{done, fault}
use owlang.World.Tests.{test_world}
use owlang.Term.{owl_int_from, int_from_owl_int, owl_tag_of, owl_term_truthy}
use owlang.Vm.{Vm, Function, Object, no_frame}
use owlang.Vm.Tests.{machine_with}
use owlang.Vm.Registers.{copy_arguments, get_var}
use owlang.Ops.Values.{add_terms, sub_terms, greater_than}
use owlang.Ops.Step.{step}
use owlang.Ops.Step.Binary.{assigned, adds, step-binary}
use owlang.Ops.Values.Arithmetic.{add_sub_terms_lem, sub-add, greater_than_iff, sub-wraps}
use owlang.Ops.Calls.{enter, op_return}
use owlang.Ops.Calls.Enter.{
  OperandsFit, ArgumentsCopied, Entered, copy_arguments_lem, enter-Entered,
}
use owlang.Ops.Calls.Return.{Returned, op_return-Returned}
use owlang.Ops.Calls.Closure.{get_var-op_return}

abbrev named_function : Function
named_function = record { location = 40; name = 20000000; n_upvalues = 0; upvalues = [] }

-- An `OP_CALL` with result register 9 and two operands, 3 and 4, and a function at address 1000.
abbrev calling : Vm test_world
calling = record (machine_with (5 ∷ 9 ∷ 1 ∷ 2 ∷ 3 ∷ 4 ∷ [])) {
  ip = 3;
  frames = λ _. record no_frame { registers = λ j. owl_int_from (j * 10) };
  objects = λ p. if p == 1000 then some (Object.function named_function) else none;
}

calling_fit : OperandsFit calling 2
unfolding machine_with
calling_fit = record { inside = omega arith; registers = λ k h. by_operand k h }
  where
    by_operand : (k : ℕ) → k < 2 → get_or (5 ∷ 9 ∷ 1 ∷ 2 ∷ 3 ∷ 4 ∷ []) (3 + 1 + k) 0 < 100
    by_operand zero h = omega arith
    by_operand (suc zero) h = omega arith
    by_operand (suc (suc k)) h = absurd (omega arith)

copy_arguments_lem_example :
    (vm' : Vm test_world) × (copy_arguments 2 0 1 calling ≡ done (tt, vm'))
    × ArgumentsCopied calling 2 0 1 vm'
unfolding machine_with
copy_arguments_lem_example =
    copy_arguments_lem 2 0 1 calling calling_fit (omega arith) (omega arith)

enter-Entered_example :
    (vm' : Vm test_world) × (enter 1000 2 9 calling ≡ done (tt, vm'))
    × Entered calling 1000 2 9 40 vm'
unfolding machine_with
enter-Entered_example =
    enter-Entered calling 1000 2 9 named_function calling_fit (omega arith) (omega arith)
      (omega arith) refl (omega arith)

-- A named function, at address 1000, that was called for register 9.
abbrev returning : Vm test_world
returning = record calling {
  current_frame = 1;
  current_function = 1000;
  frames = λ _. record no_frame {
    ret_address = 6;
    ret_register = 9;
    registers = λ j. owl_int_from (j * 10);
  };
}

op_return-Returned_example :
    (vm' : Vm test_world) × (op_return returning ≡ done (tt, vm')) × Returned returning vm'
op_return-Returned_example = op_return-Returned returning (omega arith) (omega arith)

get_var-op_return_example :
    (vm' : Vm test_world) × (op_return returning ≡ done (tt, vm')) × (get_var 128 vm' ≡ fault)
get_var-op_return_example =
    get_var-op_return returning 128 (omega arith) (omega arith)
      (record { f = named_function; is_f = refl; none_captured = refl }) (omega arith)

-- 20 + 22, and the words 161 and 177 of the integers 20 and 22.
add_sub_terms_lem_example :
    (int_from_owl_int (add_terms 161 177) ≡ 42)
    × (int_from_owl_int (sub_terms 161 177) ≡ 2 ^ 61 - 2)
    × (owl_tag_of (add_terms 161 177) ≡ 1)
    × (owl_tag_of (sub_terms 161 177) ≡ 1)
unfolding int_from_owl_int
add_sub_terms_lem_example = add_sub_terms_lem 161 177 (omega arith) (omega arith)

sub-add_example : sub_terms (add_terms 161 177) 177 ≡ 161
unfolding owl_tag_of
sub-add_example = sub-add 161 177 (omega arith) (omega arith) refl

greater_than_iff_example :
    (owl_term_truthy (greater_than 177 161) ≡ true) ↔ (int_from_owl_int 161 < int_from_owl_int 177)
greater_than_iff_example = greater_than_iff 177 161

sub-wraps_example : owl_term_truthy (greater_than (sub_terms 161 177) 161) ≡ true
unfolding int_from_owl_int
sub-wraps_example = sub-wraps 161 177 (omega arith) (omega arith) (omega arith) (omega arith)

-- An addition of the registers 3 and 4 into register 9.
abbrev adding : Vm test_world
adding = record (machine_with (3 ∷ 9 ∷ 3 ∷ 4 ∷ [])) {
  frames = λ _. record no_frame { registers = λ j. owl_int_from (j * 10) };
}

step-binary_example : step adding ≡ done (tt, assigned adding 9 (add_terms 241 321) 4)
unfolding machine_with owl_int_from
step-binary_example = step-binary adding 3 add_terms adds refl (record {
  inside = omega arith;
  first = omega arith;
  second = omega arith;
  third = omega arith;
})
