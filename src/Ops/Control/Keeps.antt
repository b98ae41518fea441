-- ===== src/Ops/Control/Keeps.antt =====
-- What jumps, exit and the collector's opcode of vm/src/opcodes.c keep of the machine.
use owlang.Base.{◌+◌, ◌-◌, ◌%◌, ◌^◌}
use owlang.World.{World}
use owlang.Term.{owl_term_truthy, owl_int_from}
use owlang.Vm.{Vm, max_depth}
use owlang.Vm.Keeps.{Keeps, bind-Keeps, then-Keeps, gets-Keeps, if-Keeps, stops-Keeps}
use owlang.Vm.Memory.{gc_usage}
use owlang.Vm.Stable.{Stable}
use owlang.Vm.Registers.Keeps.{next_byte-Keeps, advance-Keeps, get_var-Keeps, set_reg-Keeps}
use owlang.Gc.Keeps.{gc_collect-Keeps}
use owlang.Ops.Control.{op_unknown, op_exit, op_test, op_jmp, op_gc_collect}

module _ {w : World} {P : Vm w → Type 0} (s : Stable P) where
  pub op_unknown-Keeps : Keeps P op_unknown
  unfolding op_unknown
  op_unknown-Keeps = stops-Keeps

  pub op_exit-Keeps : Keeps P op_exit
  unfolding op_exit
  op_exit-Keeps = bind-Keeps (next_byte-Keeps s.locally) λ exit_code. stops-Keeps

  pub op_test-Keeps : Keeps P op_test
  unfolding op_test
  op_test-Keeps = bind-Keeps (next_byte-Keeps s.locally) λ reg.
      bind-Keeps (next_byte-Keeps s.locally) λ instr. bind-Keeps (get_var-Keeps reg) λ value.
        if-Keeps (owl_term_truthy value) (advance-Keeps s.locally instr) (advance-Keeps s.locally 1)

  pub op_jmp-Keeps : Keeps P op_jmp
  unfolding op_jmp
  op_jmp-Keeps = bind-Keeps (next_byte-Keeps s.locally) λ loc. advance-Keeps s.locally loc

  pub op_gc_collect-Keeps : Keeps P op_gc_collect
  unfolding op_gc_collect
  op_gc_collect-Keeps = bind-Keeps (next_byte-Keeps s.locally) λ ret_reg.
      bind-Keeps (gets-Keeps gc_usage) λ usage_before. then-Keeps (gc_collect-Keeps s max_depth) (
        bind-Keeps (gets-Keeps gc_usage) λ usage_after.
          then-Keeps
            (set_reg-Keeps s.locally ret_reg
              (owl_int_from ((usage_before + 2 ^ 64 - usage_after) % 2 ^ 64)))
            (advance-Keeps s.locally 1))
