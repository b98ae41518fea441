-- ===== src/Vm/Registers/Operands.antt =====
-- What an instruction reads behind its opcode, in vm/src/opcodes.c.
use owlang.Base.{ℕ, ◌+◌, ◌*◌, ◌%◌, ◌^◌, ◌<◌, ◌≡◌, arith, ltb, true}
use owlang.Base.Outcome.{done}
use owlang.World.{World}
use owlang.Term.{int_from_owl_int, owl_int_from, owl_tag_of}
use owlang.Vm.{Vm, code_capacity}
use owlang.Vm.Registers.{next_byte, next_int}

module _ {w : World} where
  -- Inside the code buffer a byte is read and the instruction pointer moves on by one.
  next_byte_lem :
      (vm : Vm w)
      → vm.ip + 1 < code_capacity
      → next_byte vm ≡ done (vm.code (vm.ip + 1), record vm { ip = vm.ip + 1 })
  unfolding next_byte
  next_byte_lem vm h =
      let small : (vm.ip + 1) % 2 ^ 32 ≡ vm.ip + 1 = omega arith in rw small (ground arith)

  -- Where two operand bytes are inside the code, the integer of an instruction is read from them, the
  -- low one first; it is below 2 ^ 16.
  pub next_int_lem :
      (vm : Vm w)
      → vm.ip + 2 < code_capacity
      → vm.code (vm.ip + 1) < 256
      → vm.code (vm.ip + 2) < 256
      → (value : ℕ) × (next_int vm ≡ done (value, record vm { ip = vm.ip + 2 }))
        × (int_from_owl_int value ≡ vm.code (vm.ip + 1) + 256 * vm.code (vm.ip + 2))
        × (int_from_owl_int value < 2 ^ 16)
        × (owl_tag_of value ≡ 1)
  unfolding next_int owl_int_from int_from_owl_int owl_tag_of
  next_int_lem vm h lo hi =
      let first : (vm.ip + 1) % 2 ^ 32 ≡ vm.ip + 1 = omega arith in
      let second : (vm.ip + 1 + 1) % 2 ^ 32 ≡ vm.ip + 2 = omega arith in
      let whole : (vm.code (vm.ip + 1) + 256 * vm.code (vm.ip + 2)) % 2 ^ 16
          ≡ vm.code (vm.ip + 1) + 256 * vm.code (vm.ip + 2) =
        omega arith in
      let inside : ltb (vm.ip + 1) code_capacity ≡ true = ground arith in
      let inside' : ltb (vm.ip + 2) code_capacity ≡ true = ground arith in
      (
        owl_int_from (vm.code (vm.ip + 1) + 256 * vm.code (vm.ip + 2)),
        rw (first, inside, second, inside', whole),
        omega arith,
        omega arith,
        omega arith,
      )
