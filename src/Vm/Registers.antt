-- ===== src/Vm/Registers.antt =====
-- The access to code and registers in vm/src/opcodes.c.
pub mod Operands
pub mod Keeps
use owlang.Base.{ℕ, zero, suc, ◌+◌, ◌-◌, ◌*◌, ◌/◌, ◌%◌, ◌^◌, ltb, leb, ◌==◌, if◌then◌else◌}
use owlang.Base.Outcome.{done, fault, aborted}
use owlang.World.{World}
use owlang.Term.{owl_int_from}
use owlang.Rrb.{read}
use owlang.Vm.{
  Vm, Op, Frame, register_count, stack_depth, code_capacity, update, ◌>>=◌, ◌>>◌, pure, lift,
}
use owlang.Vm.Memory.{load_function_at}

module _ {w : World} where
  -- `vm->code[at]`
  unfoldable pub code_at : ℕ → Op w ℕ
  code_at at vm = if ltb at code_capacity then done (vm.code at, vm) else fault

  -- `vm->ip += n` on `unsigned int`
  unfoldable pub advance : ℕ → Op w (Unit {0})
  advance n vm = done (tt, record vm { ip = (vm.ip + n) % 2 ^ 32 })

  unfoldable pub jump_to : ℕ → Op w (Unit {0})
  jump_to at vm = done (tt, record vm { ip = at % 2 ^ 32 })

  unfoldable pub next_byte : Op w ℕ
  unfolding code_at advance
  next_byte = do advance 1; λ vm. code_at vm.ip vm

  unfoldable pub next_int : Op w ℕ
  unfolding next_byte
  next_int = do
    val1 ← next_byte
    val2 ← next_byte
    pure (owl_int_from ((val1 + 256 * val2) % 2 ^ 16))

  -- `registers[reg]` of a frame; the array has `REGISTER_COUNT` slots
  unfoldable register_at : Frame → ℕ → Op w ℕ
  register_at frame reg vm =
      if ltb reg register_count then done (frame.registers reg, vm) else fault

  -- A register from 128 on is an upvalue of the current function.
  unfoldable pub get_var : ℕ → Op w ℕ
  unfolding register_at load_function_at read
  get_var reg =
      if leb 128 reg
      then (do
        fun ← λ vm. lift (load_function_at vm.current_function vm) vm
        lift (read fun.upvalues (reg - 128)))
      else λ vm. register_at (vm.frames vm.current_frame) reg vm

  -- `frames[frame].registers[reg] = term`
  unfoldable pub write_register : ℕ → ℕ → ℕ → Op w (Unit {0})
  write_register frame reg term vm =
      if ltb reg register_count
      then done (
        tt,
        record vm {
          frames = update vm.frames frame (record (vm.frames frame) {
            registers = update (vm.frames frame).registers reg term;
          });
        },
      )
      else fault

  unfoldable pub set_reg : ℕ → ℕ → Op w (Unit {0})
  unfolding write_register
  set_reg reg term vm = write_register vm.current_frame reg term vm

  -- The loop over the arguments: `arity` rounds are left, and `i` are done.
  unfoldable pub copy_arguments : ℕ → ℕ → ℕ → Op w (Unit {0})
  unfolding next_byte get_var write_register
  copy_arguments zero i next_frame = pure tt
  copy_arguments (suc rest) i next_frame = do
    reg ← next_byte
    arg ← get_var reg
    write_register next_frame (i + 1) arg
    copy_arguments rest (i + 1) next_frame

  unfoldable pub setup_next_stackframe : ℕ → ℕ → ℕ → Op w (Unit {0})
  unfolding copy_arguments
  setup_next_stackframe fun arity ret_reg vm =
      let next_frame = vm.current_frame + 1 in
      if ltb next_frame stack_depth
      then (copy_arguments arity 0 next_frame >> (λ vm'. done (
        tt,
        record vm' {
          frames = update vm'.frames next_frame (record (vm'.frames next_frame) {
            ret_address = (vm'.ip + 1) % 2 ^ 32;
            ret_register = ret_reg;
            function = fun;
          });
          current_frame = vm'.current_frame + 1;
        },
      )))
          vm
      else aborted
