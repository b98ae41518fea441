-- ===== src/Ops/Values/Keeps.antt =====
-- What the opcodes on words of vm/src/opcodes.c keep of the machine.
use owlang.Base.{ℕ, not}
use owlang.World.{World}
use owlang.Term.{owl_bool, owl_negate}
use owlang.Vm.{Vm, Op, max_depth, ◌>>◌}
use owlang.Vm.Registers.{set_reg, advance}
use owlang.Vm.Keeps.{Keeps, bind-Keeps, then-Keeps, pure-Keeps, reads-Keeps}
use owlang.Vm.Stable.{KeptLocally}
use owlang.Vm.Registers.Keeps.{
  next_byte-Keeps, next_int-Keeps, advance-Keeps, get_var-Keeps, set_reg-Keeps,
}
use owlang.Std.Equality.{owl_terms_eq}
use owlang.Ops.Values.{
  op_store_int, op_mov, store_constant, binary, unary, op_add, op_sub, op_greater_than, op_eq,
  op_not_eq, op_not, add_terms, sub_terms, greater_than,
}

module _ {w : World} {P : Vm w → Type 0} (s : KeptLocally P) where
  -- The result is put into a register, and the instruction is left behind.
  pub finish-Keeps : (reg value : ℕ) → Keeps P (set_reg reg value >> advance 1)
  finish-Keeps reg value = then-Keeps (set_reg-Keeps s reg value) (advance-Keeps s 1)

  pub op_store_int-Keeps : Keeps P op_store_int
  unfolding op_store_int
  op_store_int-Keeps =
      bind-Keeps (next_byte-Keeps s)
        λ reg. bind-Keeps (next_int-Keeps s) λ value. finish-Keeps reg value

  pub op_mov-Keeps : Keeps P op_mov
  unfolding op_mov
  op_mov-Keeps = bind-Keeps (next_byte-Keeps s) λ reg1.
      bind-Keeps (next_byte-Keeps s)
        λ reg2. bind-Keeps (get_var-Keeps reg2) λ value. finish-Keeps reg1 value

  pub store_constant-Keeps : (value : ℕ) → Keeps P (store_constant value)
  unfolding store_constant
  store_constant-Keeps value = bind-Keeps (next_byte-Keeps s) λ reg. finish-Keeps reg value

  pub binary-Keeps :
      (f : ℕ → ℕ → Op w ℕ) → ((val1 val2 : ℕ) → Keeps P (f val1 val2)) → Keeps P (binary f)
  unfolding binary
  binary-Keeps f keeps = bind-Keeps (next_byte-Keeps s) λ reg1.
      bind-Keeps (next_byte-Keeps s) λ reg2. bind-Keeps (next_byte-Keeps s) λ reg3.
        bind-Keeps (get_var-Keeps reg2) λ val1.
          bind-Keeps (get_var-Keeps reg3)
            λ val2. bind-Keeps (keeps val1 val2) λ result. finish-Keeps reg1 result

  pub unary-Keeps : (f : ℕ → Op w ℕ) → ((value : ℕ) → Keeps P (f value)) → Keeps P (unary f)
  unfolding unary
  unary-Keeps f keeps = bind-Keeps (next_byte-Keeps s) λ ret_reg.
      bind-Keeps (next_byte-Keeps s) λ reg.
        bind-Keeps (get_var-Keeps reg)
          λ value. bind-Keeps (keeps value) λ result. finish-Keeps ret_reg result

  pub op_add-Keeps : Keeps P op_add
  unfolding op_add
  op_add-Keeps = binary-Keeps _ λ val1 val2. pure-Keeps (add_terms val1 val2)

  pub op_sub-Keeps : Keeps P op_sub
  unfolding op_sub
  op_sub-Keeps = binary-Keeps _ λ val1 val2. pure-Keeps (sub_terms val1 val2)

  pub op_greater_than-Keeps : Keeps P op_greater_than
  unfolding op_greater_than
  op_greater_than-Keeps = binary-Keeps _ λ val1 val2. pure-Keeps (greater_than val1 val2)

  pub op_eq-Keeps : Keeps P op_eq
  unfolding op_eq
  op_eq-Keeps = binary-Keeps _ λ left right.
      bind-Keeps (reads-Keeps (owl_terms_eq max_depth left right))
        λ same. pure-Keeps (owl_bool same)

  pub op_not_eq-Keeps : Keeps P op_not_eq
  unfolding op_not_eq
  op_not_eq-Keeps = binary-Keeps _ λ left right.
      bind-Keeps (reads-Keeps (owl_terms_eq max_depth left right))
        λ same. pure-Keeps (owl_bool (not same))

  pub op_not-Keeps : Keeps P op_not
  unfolding op_not
  op_not-Keeps = unary-Keeps _ λ value. pure-Keeps (owl_negate value)
