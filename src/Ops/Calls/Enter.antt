-- ===== src/Ops/Calls/Enter.antt =====
-- How a call of vm/src/opcodes.c sets up the frame of the function that it enters.
use owlang.Base.{
  ℕ, zero, suc, ◌+◌, ◌%◌, ◌^◌, ◌≤◌, ◌<◌, ◌≡◌, ◌≢◌, refl, ap, sym, ◌∙◌, arith, true, false, some,
  ltb, leb, ◌==◌, if◌then◌else◌,
}
use owlang.Base.Outcome.{done}
use owlang.World.{World}
use owlang.Vm.{Vm, Frame, Object, Function, register_count, stack_depth, code_capacity, update}
use owlang.Vm.Registers.{copy_arguments}
use owlang.Ops.Calls.{enter}

module _ {w : World} where
  -- The operands behind the instruction pointer are registers, and inside the code.
  pub record OperandsFit (vm : Vm w) (n : ℕ) : Type 0 where
    pub inside : vm.ip + n < code_capacity
    pub registers : (k : ℕ) → k < n → vm.code (vm.ip + 1 + k) < register_count

  -- `vm'` is `vm` with `n` operands read and copied behind register `i` of frame `f`.
  pub record ArgumentsCopied (vm : Vm w) (n i f : ℕ) (vm' : Vm w) : Type 0 where
    pub ip : vm'.ip ≡ vm.ip + n
    pub code : vm'.code ≡ vm.code
    pub current_frame : vm'.current_frame ≡ vm.current_frame
    pub current_function : vm'.current_function ≡ vm.current_function
    pub objects : vm'.objects ≡ vm.objects
    pub others : (g : ℕ) → g ≢ f → vm'.frames g ≡ vm.frames g
    pub arguments :
        (k : ℕ)
        → k < n
        → (vm'.frames f).registers (i + 1 + k)
          ≡ (vm.frames vm.current_frame).registers (vm.code (vm.ip + 1 + k))
    pub earlier : (j : ℕ) → j ≤ i → (vm'.frames f).registers j ≡ (vm.frames f).registers j

  -- The machine after one round of the loop.
  abbrev one_copied : Vm w → ℕ → ℕ → Vm w
  one_copied vm i f = record vm {
    ip = vm.ip + 1;
    frames = update vm.frames f (record (vm.frames f) {
      registers =
          update (vm.frames f).registers (i + 1)
            ((vm.frames vm.current_frame).registers (vm.code (vm.ip + 1)));
    });
  }

  copy_one :
      (vm : Vm w) (n i f : ℕ)
      → OperandsFit vm (suc n)
      → i + 1 < register_count
      → copy_arguments (suc n) i f vm ≡ copy_arguments n (i + 1) f (one_copied vm i f)
  unfolding copy_arguments
  copy_one vm n i f fit h =
      let fits = fit.inside in
      let plain : vm.code (vm.ip + 1 + 0) < register_count = fit.registers 0 (omega arith) in
      let same : vm.ip + 1 + 0 ≡ vm.ip + 1 = omega arith in
      let reg = rw same at plain in
      let first : (vm.ip + 1) % 2 ^ 32 ≡ vm.ip + 1 = omega arith in
      let inside : ltb (vm.ip + 1) code_capacity ≡ true = ground arith in
      let low : leb 128 (vm.code (vm.ip + 1)) ≡ false = ground arith in
      let known : ltb (vm.code (vm.ip + 1)) register_count ≡ true = ground arith in
      let room : ltb (i + 1) register_count ≡ true = ground arith in
      rw (first, inside, low, known, room)

  -- The frame that is written, and the others, after one round.
  one_copied_frame :
      (vm : Vm w) (i f j : ℕ)
      → ((one_copied vm i f).frames f).registers j ≡ (
          if j == i + 1
          then (vm.frames vm.current_frame).registers (vm.code (vm.ip + 1))
          else (vm.frames f).registers j)
  one_copied_frame vm i f j = ground arith

  one_copied_others : (vm : Vm w) (i f g : ℕ) → g ≢ f → (one_copied vm i f).frames g ≡ vm.frames g
  one_copied_others vm i f g ne = ground arith

  then_rest :
      (vm vm' : Vm w) (n i f : ℕ)
      → f ≢ vm.current_frame
      → ArgumentsCopied (one_copied vm i f) n (i + 1) f vm'
      → ArgumentsCopied vm (suc n) i f vm'
  then_rest vm vm' n i f ne rest = record {
    ip = omega (arith, rest.ip);
    code = rest.code;
    current_frame = rest.current_frame;
    current_function = rest.current_function;
    objects = rest.objects;
    others = λ g ne'. rest.others g ne' ∙ one_copied_others vm i f g ne';
    arguments = elim [
      | zero ↦ λ lt.
          let here : i + 1 + 0 ≡ i + 1 = omega arith in
          let there : vm.ip + 1 + 0 ≡ vm.ip + 1 = omega arith in
          rw (here, there)
            (rest.earlier (i + 1) (omega arith) ∙ one_copied_frame vm i f (i + 1) ∙ ground arith)
      | suc k ↦ λ lt.
          let here : i + 1 + suc k ≡ i + 1 + 1 + k = omega arith in
          let there : vm.ip + 1 + suc k ≡ vm.ip + 1 + 1 + k = omega arith in
          rw (here, there)
            (rest.arguments k (omega arith)
              ∙ ap (λ (fr : Frame). fr.registers (vm.code (vm.ip + 1 + 1 + k)))
                  (one_copied_others vm i f vm.current_frame (λ e. ne (sym e))))
    ];
    earlier = λ j le. rest.earlier j (omega arith) ∙ one_copied_frame vm i f j ∙ ground arith;
  }

  OperandsFit-tail :
      (vm : Vm w) (n i f : ℕ) → OperandsFit vm (suc n) → OperandsFit (one_copied vm i f) n
  OperandsFit-tail vm n i f fit = record {
    inside = omega (arith, fit.inside);
    registers = λ k lt.
        let same : vm.ip + 1 + suc k ≡ vm.ip + 1 + 1 + k = omega arith in
        rw same at (fit.registers (suc k) (omega arith));
  }

  -- Operands that are registers inside the code are all copied: the loop ends, with their values in
  -- the registers behind `i` of another frame, what stood up to `i` and in all other frames as it
  -- was, and the instruction pointer behind them.
  pub copy_arguments_lem :
      (n i f : ℕ) (vm : Vm w)
      → OperandsFit vm n
      → i + n < register_count
      → f ≢ vm.current_frame
      → (vm' : Vm w) × (copy_arguments n i f vm ≡ done (tt, vm')) × ArgumentsCopied vm n i f vm'
  unfolding copy_arguments
  copy_arguments_lem zero i f vm fit h ne = (
    vm,
    refl,
    record {
      ip = omega arith;
      code = refl;
      current_frame = refl;
      current_function = refl;
      objects = refl;
      others = λ g ne'. refl;
      arguments = λ k lt. absurd (omega arith);
      earlier = λ j le. refl;
    },
  )
  copy_arguments_lem (suc n) i f vm fit h ne =
      let fits = fit.inside in
      let (vm', e, rest) =
        copy_arguments_lem n (i + 1) f (one_copied vm i f) (OperandsFit-tail vm n i f fit)
          (omega arith) ne in
      (vm', copy_one vm n i f fit (omega arith) ∙ e, then_rest vm vm' n i f ne rest)

  -- The machine `vm'` runs the callee `fun`: its frame holds the arguments and where to go back to,
  -- and the frames below are those of `vm`.
  pub record Entered (vm : Vm w) (fun arity ret_reg : ℕ) (location : ℕ) (vm' : Vm w) : Type 0 where
    pub ip : vm'.ip ≡ location
    pub current_frame : vm'.current_frame ≡ vm.current_frame + 1
    pub current_function : vm'.current_function ≡ fun
    pub ret_address : (vm'.frames (vm.current_frame + 1)).ret_address ≡ vm.ip + arity + 1
    pub ret_register : (vm'.frames (vm.current_frame + 1)).ret_register ≡ ret_reg
    pub others : (g : ℕ) → g ≢ vm.current_frame + 1 → vm'.frames g ≡ vm.frames g
    pub arguments :
        (k : ℕ)
        → k < arity
        → (vm'.frames (vm.current_frame + 1)).registers (1 + k)
          ≡ (vm.frames vm.current_frame).registers (vm.code (vm.ip + 1 + k))

  -- The machine at the end of a call, `vm` being the one with the arguments copied.
  abbrev entered : Vm w → ℕ → ℕ → ℕ → ℕ → Vm w
  entered vm next_frame fun ret_reg location = record vm {
    frames = update vm.frames next_frame (record (vm.frames next_frame) {
      ret_address = (vm.ip + 1) % 2 ^ 32;
      ret_register = ret_reg;
      function = fun;
    });
    current_frame = vm.current_frame + 1;
    ip = location;
  }

  entered_others :
      (vm : Vm w) (next fun ret_reg location g : ℕ)
      → g ≢ next
      → (entered vm next fun ret_reg location).frames g ≡ vm.frames g
  entered_others vm next fun ret_reg location g ne = ground arith

  entered_register :
      (vm : Vm w) (next fun ret_reg location j : ℕ)
      → ((entered vm next fun ret_reg location).frames next).registers j
        ≡ (vm.frames next).registers j
  entered_register vm next fun ret_reg location j = ground arith

  -- A call with room for a frame, whose operands are less than 100 registers inside the code, of a
  -- function that is there with its location inside the code, succeeds: register k + 1 of the new
  -- frame is the caller's register that operand k names, the return address is the instruction behind
  -- the operands, execution goes on at the function's location, and no other frame changes.
  pub enter-Entered :
      (vm : Vm w) (fun arity ret_reg : ℕ) (f : Function)
      → OperandsFit vm arity
      → arity < register_count
      → vm.current_frame + 1 < stack_depth
      → fun ≢ 0
      → vm.objects fun ≡ some (Object.function f)
      → f.location < code_capacity
      → (vm' : Vm w) × (enter fun arity ret_reg vm ≡ done (tt, vm'))
        × Entered vm fun arity ret_reg f.location vm'
  unfolding enter
  enter-Entered vm fun arity ret_reg f fit few room some_fun is_f there =
      let depth : ltb (vm.current_frame + 1) stack_depth ≡ true = ground arith in
      let not_null : (fun == 0) ≡ false = ground arith in
      let (vm₁, e, copied) =
        copy_arguments_lem arity 0 (vm.current_frame + 1) (record vm { current_function = fun })
          (record { inside = fit.inside; registers = fit.registers }) (omega arith) (omega arith) in
      let location : f.location % 2 ^ 32 ≡ f.location = omega arith in
      let fits = fit.inside in
      let back = copied.ip in
      let address : (vm₁.ip + 1) % 2 ^ 32 ≡ vm.ip + arity + 1 = omega arith in
      let at = copied.current_frame in
      (
        entered vm₁ (vm.current_frame + 1) fun ret_reg f.location,
        rw (depth, e, not_null, copied.objects, is_f, location),
        record {
          ip = refl;
          current_frame = ap (λ (n : ℕ). n + 1) at;
          current_function = copied.current_function;
          ret_address = ground arith;
          ret_register = ground arith;
          others = λ g ne.
              entered_others vm₁ (vm.current_frame + 1) fun ret_reg f.location g ne
              ∙ copied.others g ne;
          arguments = λ k lt.
              entered_register vm₁ (vm.current_frame + 1) fun ret_reg f.location (1 + k)
              ∙ copied.arguments k lt;
        },
      )
