-- ===== src/Ops/Control.antt =====
-- Jumps, exit and the collector's opcode of vm/src/opcodes.c.
pub mod Keeps
use owlang.Base.{◌+◌, ◌-◌, ◌%◌, ◌^◌, if◌then◌else◌}
use owlang.Base.Outcome.{exited}
use owlang.World.{World}
use owlang.Term.{owl_term_truthy, owl_int_from}
use owlang.Vm.{Op, max_depth, ◌>>=◌, ◌>>◌}
use owlang.Vm.Memory.{gc_usage}
use owlang.Vm.Registers.{next_byte, advance, get_var, set_reg}
use owlang.Gc.{gc_collect}
use owlang.Base.Outcome.{done}

module _ {w : World} where
  unfoldable pub op_unknown : Op w (Unit {0})
  op_unknown vm = exited 1

  -- The number of allocated bytes that is printed before is left out.
  unfoldable pub op_exit : Op w (Unit {0})
  op_exit = do exit_code ← next_byte; λ vm. exited exit_code

  unfoldable pub op_test : Op w (Unit {0})
  op_test = do
    reg ← next_byte
    instr ← next_byte
    value ← get_var reg
    if owl_term_truthy value then advance instr else advance 1

  unfoldable pub op_jmp : Op w (Unit {0})
  op_jmp = do loc ← next_byte; advance loc

  unfoldable pub op_gc_collect : Op w (Unit {0})
  op_gc_collect = do
    ret_reg ← next_byte
    usage_before ← λ vm. done (gc_usage vm, vm)
    gc_collect max_depth
    usage_after ← λ vm. done (gc_usage vm, vm)
    set_reg ret_reg (owl_int_from ((usage_before + 2 ^ 64 - usage_after) % 2 ^ 64))
    advance 1
