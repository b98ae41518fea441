-- ===== src/Ops/Step/Binary.antt =====
-- One round of the loop of vm/src/vm.c at the operations on two integers of vm/src/opcodes.c.
use owlang.Base.{ℕ, ◌+◌, ◌%◌, ◌^◌, ◌<◌, ◌≡◌, refl, arith, true, false, ltb, leb}
use owlang.Base.Outcome.{done}
use owlang.World.{World}
use owlang.Vm.{Vm, register_count, code_capacity, update, pure}
use owlang.Vm.Registers.{next_byte, get_var, set_reg}
use owlang.Ops.Values.{add_terms, sub_terms, greater_than, binary, op_add, op_sub, op_greater_than}
use owlang.Ops.Step.{step}

-- The opcodes with two integers, and what they compute.
pub data Computes : ℕ → (ℕ → ℕ → ℕ) → Type 0 where
  adds : Computes 3 add_terms
  subtracts : Computes 4 sub_terms
  compares : Computes 20 greater_than

module _ {w : World} where
  -- An instruction with three register operands, all inside the code.
  pub record ThreeRegisters (vm : Vm w) : Type 0 where
    pub inside : vm.ip + 3 < code_capacity
    pub first : vm.code (vm.ip + 1) < register_count
    pub second : vm.code (vm.ip + 2) < register_count
    pub third : vm.code (vm.ip + 3) < register_count

  -- The machine after `registers[first] = term` and a move of `n` bytes.
  abbrev pub assigned : Vm w → ℕ → ℕ → ℕ → Vm w
  assigned vm reg term n = record vm {
    frames = update vm.frames vm.current_frame (record (vm.frames vm.current_frame) {
      registers = update (vm.frames vm.current_frame).registers reg term;
    });
    ip = vm.ip + n;
  }

  binary_registers :
      (vm : Vm w) (f : ℕ → ℕ → ℕ)
      → ThreeRegisters vm
      → binary (λ a b. pure (f a b)) vm
        ≡ done (
          tt,
          assigned vm
              (vm.code (vm.ip + 1))
              (f
                ((vm.frames vm.current_frame).registers (vm.code (vm.ip + 2)))
                ((vm.frames vm.current_frame).registers (vm.code (vm.ip + 3))))
              4,
        )
  unfolding binary next_byte get_var set_reg
  binary_registers vm f fit =
      let inside = fit.inside in
      let ip₁ : (vm.ip + 1) % 2 ^ 32 ≡ vm.ip + 1 = omega arith in
      let ip₂ : (vm.ip + 1 + 1) % 2 ^ 32 ≡ vm.ip + 2 = omega arith in
      let ip₃ : (vm.ip + 2 + 1) % 2 ^ 32 ≡ vm.ip + 3 = omega arith in
      let ip₄ : (vm.ip + 3 + 1) % 2 ^ 32 ≡ vm.ip + 4 = omega arith in
      let in₁ : ltb (vm.ip + 1) code_capacity ≡ true = ground arith in
      let in₂ : ltb (vm.ip + 2) code_capacity ≡ true = ground arith in
      let in₃ : ltb (vm.ip + 3) code_capacity ≡ true = ground arith in
      let low₂ : leb 128 (vm.code (vm.ip + 2)) ≡ false = ground (arith, fit.second) in
      let low₃ : leb 128 (vm.code (vm.ip + 3)) ≡ false = ground (arith, fit.third) in
      let r₁ : ltb (vm.code (vm.ip + 1)) register_count ≡ true = ground (arith, fit.first) in
      let r₂ : ltb (vm.code (vm.ip + 2)) register_count ≡ true = ground (arith, fit.second) in
      let r₃ : ltb (vm.code (vm.ip + 3)) register_count ≡ true = ground (arith, fit.third) in
      rw (ip₁, in₁, ip₂, in₂, ip₃, in₃, low₂, r₂, low₃, r₃, r₁, ip₄) refl

  -- At the opcode of an addition, a subtraction or a comparison, with three registers inside the code,
  -- one round of the loop puts the result for the second and third register into the first one and
  -- goes on behind the operands; nothing else changes.
  pub step-binary :
      (vm : Vm w) (opcode : ℕ) (f : ℕ → ℕ → ℕ)
      → Computes opcode f
      → vm.code vm.ip ≡ opcode
      → ThreeRegisters vm
      → step vm
        ≡ done (
          tt,
          assigned vm
              (vm.code (vm.ip + 1))
              (f
                ((vm.frames vm.current_frame).registers (vm.code (vm.ip + 2)))
                ((vm.frames vm.current_frame).registers (vm.code (vm.ip + 3))))
              4,
        )
  unfolding step op_add op_sub op_greater_than
  step-binary vm _ _ adds op fit =
      let inside = fit.inside in
      let here : ltb vm.ip code_capacity ≡ true = ground arith in
      rw (here, op) (binary_registers vm add_terms fit)
  step-binary vm _ _ subtracts op fit =
      let inside = fit.inside in
      let here : ltb vm.ip code_capacity ≡ true = ground arith in
      rw (here, op) (binary_registers vm sub_terms fit)
  step-binary vm _ _ compares op fit =
      let inside = fit.inside in
      let here : ltb vm.ip code_capacity ≡ true = ground arith in
      rw (here, op) (binary_registers vm greater_than fit)
