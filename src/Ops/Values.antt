-- ===== src/Ops/Values.antt =====
-- The opcodes of vm/src/opcodes.c on words: constants, moves, arithmetic and comparison.
pub mod Arithmetic
pub mod Keeps
use owlang.Base.{ℕ, ◌+◌, ◌-◌, ◌%◌, ◌^◌, Bool, not, ltb}
use owlang.World.{World}
use owlang.Term.{
  owl_true, owl_false, owl_nil, owl_int_from, int_from_owl_int, owl_bool, owl_negate, word,
}
use owlang.Vm.{Vm, Op, max_depth, ◌>>=◌, ◌>>◌, pure, lift}
use owlang.Vm.Registers.{next_byte, next_int, advance, get_var, set_reg}
use owlang.Std.Equality.{owl_terms_eq}

-- `owl_int_from(int_from_owl_int(val1) + int_from_owl_int(val2))` on 64 bits
unfoldable pub add_terms : ℕ → ℕ → ℕ
add_terms val1 val2 = owl_int_from ((int_from_owl_int val1 + int_from_owl_int val2) % word)

unfoldable pub sub_terms : ℕ → ℕ → ℕ
sub_terms val1 val2 = owl_int_from ((int_from_owl_int val1 + word - int_from_owl_int val2) % word)

unfoldable pub greater_than : ℕ → ℕ → ℕ
greater_than val1 val2 = owl_bool (ltb (int_from_owl_int val2) (int_from_owl_int val1))

module _ {w : World} where
  unfoldable pub op_store_int : Op w (Unit {0})
  op_store_int = do reg ← next_byte; value ← next_int; set_reg reg value; advance 1

  unfoldable pub op_mov : Op w (Unit {0})
  op_mov = do
    reg1 ← next_byte
    reg2 ← next_byte
    value ← get_var reg2
    set_reg reg1 value
    advance 1

  -- `op_store_true`, `op_store_false` and `op_store_nil`
  unfoldable pub store_constant : ℕ → Op w (Unit {0})
  store_constant value = do reg ← next_byte; set_reg reg value; advance 1

  -- Three operands: a register for the result, and two whose values `f` is given.
  unfoldable pub binary : (ℕ → ℕ → Op w ℕ) → Op w (Unit {0})
  binary f = do
    reg1 ← next_byte
    reg2 ← next_byte
    reg3 ← next_byte
    val1 ← get_var reg2
    val2 ← get_var reg3
    result ← f val1 val2
    set_reg reg1 result
    advance 1

  unfoldable pub op_add : Op w (Unit {0})
  unfolding binary
  op_add = binary (λ val1 val2. pure (add_terms val1 val2))

  unfoldable pub op_sub : Op w (Unit {0})
  unfolding binary
  op_sub = binary (λ val1 val2. pure (sub_terms val1 val2))

  unfoldable pub op_greater_than : Op w (Unit {0})
  unfolding binary
  op_greater_than = binary (λ val1 val2. pure (greater_than val1 val2))

  unfoldable pub op_eq : Op w (Unit {0})
  unfolding binary
  op_eq = binary (λ left right. do
    same ← λ vm. lift (owl_terms_eq max_depth left right vm) vm
    pure (owl_bool same))

  unfoldable pub op_not_eq : Op w (Unit {0})
  unfolding binary
  op_not_eq = binary (λ left right. do
    same ← λ vm. lift (owl_terms_eq max_depth left right vm) vm
    pure (owl_bool (not same)))

  -- Two operands: a register for the result, and one whose value `f` is given.
  unfoldable pub unary : (ℕ → Op w ℕ) → Op w (Unit {0})
  unary f = do
    ret_reg ← next_byte
    reg ← next_byte
    value ← get_var reg
    result ← f value
    set_reg ret_reg result
    advance 1

  unfoldable pub op_not : Op w (Unit {0})
  unfolding unary
  op_not = unary (λ value. pure (owl_negate value))
