-- ===== src/Vm/Registers/Keeps.antt =====
-- What the access to operands and registers in vm/src/opcodes.c keeps, for the instructions.
use owlang.Base.{
  ℕ, zero, suc, ◌+◌, ◌-◌, ◌%◌, ◌^◌, ◌<◌, ◌≡◌, refl, arith, Bool, true, false, ltb, leb,
}
use owlang.Base.Outcome.{Outcome, done, exited, aborted, fault, out_of_fuel}
use owlang.Base.Outcome
use owlang.World.{World}
use owlang.Rrb.{read}
use owlang.Vm.{Vm, register_count, stack_depth}
use owlang.Vm.Memory.{load_function_at}
use owlang.Vm.Registers.{
  advance, jump_to, next_byte, next_int, get_var, write_register, set_reg, copy_arguments,
  setup_next_stackframe, code_at, register_at,
}
use owlang.Vm.Keeps.{Leaves, Keeps, bind-Keeps, pure-Keeps, reads-Keeps, if-Keeps}
use owlang.Vm.Stable.{KeptLocally, Stable, entered}

module _ {w : World} {P : Vm w → Type 0} where
  pub code_at-Keeps : (at : ℕ) → Keeps P (code_at at)
  unfolding code_at
  code_at-Keeps at = record { at = λ vm h. ground arith }

  -- `code_at vm.ip`
  pub here-Keeps : Keeps P (λ vm. code_at vm.ip vm)
  here-Keeps = record { at = λ vm h. (code_at-Keeps vm.ip).at vm h }

  register_at-Keeps : (reg : ℕ) → Keeps P (λ vm. register_at (vm.frames vm.current_frame) reg vm)
  unfolding register_at
  register_at-Keeps reg = record { at = λ vm h. ground arith }

  pub get_var-Keeps : (reg : ℕ) → Keeps P (get_var reg)
  unfolding get_var
  get_var-Keeps reg =
      if-Keeps (leb 128 reg)
        (bind-Keeps (reads-Keeps (λ vm. load_function_at vm.current_function vm))
          λ fun. reads-Keeps (λ vm. read fun.upvalues (reg - 128)))
        (register_at-Keeps reg)

module _ {w : World} {P : Vm w → Type 0} (s : KeptLocally P) where
  pub advance-Keeps : (n : ℕ) → Keeps P (advance n)
  unfolding advance
  advance-Keeps n = record { at = λ vm h. s.jump vm ((vm.ip + n) % 2 ^ 32) (omega arith) h }

  pub jump_to-Keeps : (at : ℕ) → Keeps P (jump_to at)
  unfolding jump_to
  jump_to-Keeps at = record { at = λ vm h. s.jump vm (at % 2 ^ 32) (omega arith) h }

  pub next_byte-Keeps : Keeps P next_byte
  unfolding next_byte
  next_byte-Keeps = bind-Keeps (advance-Keeps 1) λ _. here-Keeps

  pub next_int-Keeps : Keeps P next_int
  unfolding next_int
  next_int-Keeps =
      bind-Keeps next_byte-Keeps λ val1. bind-Keeps next_byte-Keeps λ val2. pure-Keeps _

  write_register-Leaves :
      (frame reg term : ℕ) (vm : Vm w) → P vm → Leaves P (write_register frame reg term vm)
  unfolding write_register
  write_register-Leaves frame reg term vm h = by_bound _ refl
    where
      by_bound :
          (below : Bool)
          → ltb reg register_count ≡ below
          → Leaves P (write_register frame reg term vm)
      by_bound true below = rw below (s.register vm frame reg term (ground arith) h)
      by_bound false past = rw past tt

  pub write_register-Keeps : (frame reg term : ℕ) → Keeps P (write_register frame reg term)
  write_register-Keeps frame reg term = record { at = write_register-Leaves frame reg term }

  pub set_reg-Keeps : (reg term : ℕ) → Keeps P (set_reg reg term)
  unfolding set_reg
  set_reg-Keeps reg term = record {
    at = λ vm h. write_register-Leaves vm.current_frame reg term vm h;
  }

  copy_arguments-Keeps : (arity i next_frame : ℕ) → Keeps P (copy_arguments arity i next_frame)
  unfolding copy_arguments
  copy_arguments-Keeps zero i next_frame = pure-Keeps tt
  copy_arguments-Keeps (suc rest) i next_frame = bind-Keeps next_byte-Keeps λ reg.
      bind-Keeps (get_var-Keeps reg) λ arg.
        bind-Keeps (write_register-Keeps next_frame (i + 1) arg)
          λ _. copy_arguments-Keeps rest (i + 1) next_frame

-- What is kept locally is kept together with the number of the current frame.
in_frame :
    {w : World} {P : Vm w → Type 0} (c : ℕ)
    → KeptLocally P
    → KeptLocally (λ vm. P vm × (vm.current_frame ≡ c))
in_frame c s = record {
  jump = λ vm at small (h, e). (s.jump vm at small h, e);
  register = λ vm frame reg term small (h, e). (s.register vm frame reg term small h, e);
}

module _ {w : World} {P : Vm w → Type 0} (s : Stable P) where
  enter-Leaves :
      (fun ret_reg c : ℕ) (r : Outcome (Unit {0} × Vm w))
      → c + 1 < stack_depth
      → Leaves (λ vm. P vm × (vm.current_frame ≡ c)) r
      → Leaves P (
          Outcome.bind r
            λ (_, vm'). done (tt, entered (c + 1) fun ret_reg ((vm'.ip + 1) % 2 ^ 32) vm'))
  enter-Leaves fun ret_reg c (done (_, vm')) small (h, e) =
      rw (← e) (s.enter vm' fun ret_reg ((vm'.ip + 1) % 2 ^ 32) (omega arith) (omega arith) h)
  enter-Leaves fun ret_reg c (exited _) small h = tt
  enter-Leaves fun ret_reg c aborted small h = tt
  enter-Leaves fun ret_reg c fault small h = tt
  enter-Leaves fun ret_reg c out_of_fuel small h = tt

  setup-Leaves :
      (fun arity ret_reg : ℕ) (vm : Vm w)
      → P vm
      → Leaves P (setup_next_stackframe fun arity ret_reg vm)
  unfolding setup_next_stackframe
  setup-Leaves fun arity ret_reg vm h = by_depth _ refl
    where
      by_depth :
          (below : Bool)
          → ltb (vm.current_frame + 1) stack_depth ≡ below
          → Leaves P (setup_next_stackframe fun arity ret_reg vm)
      by_depth true below = rw below (
          enter-Leaves fun ret_reg vm.current_frame
            (copy_arguments arity 0 (vm.current_frame + 1) vm) (ground arith)
            ((copy_arguments-Keeps (in_frame vm.current_frame s.locally) arity 0
                (vm.current_frame + 1)).at
              vm (h, refl)))
      by_depth false past = rw past tt

  pub setup_next_stackframe-Keeps :
      (fun arity ret_reg : ℕ) → Keeps P (setup_next_stackframe fun arity ret_reg)
  setup_next_stackframe-Keeps fun arity ret_reg = record { at = setup-Leaves fun arity ret_reg }
