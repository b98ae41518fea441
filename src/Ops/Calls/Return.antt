-- ===== src/Ops/Calls/Return.antt =====
-- Returns of vm/src/opcodes.c.
use owlang.Base.{ℕ, ◌+◌, ◌-◌, ◌<◌, ◌≡◌, ◌≢◌, refl, arith, ◌==◌, if◌then◌else◌}
use owlang.Base.Outcome.{done}
use owlang.World.{World}
use owlang.Vm.{Vm, register_count, update}
use owlang.Ops.Calls.{op_return}
use owlang.Gc.Space.{rest}

module _ {w : World} where
  -- `vm'` is `vm` after its current frame was left.
  pub record Returned (vm vm' : Vm w) : Type 0 where
    pub ip : vm'.ip ≡ (vm.frames vm.current_frame).ret_address
    pub current_frame : vm'.current_frame + 1 ≡ vm.current_frame
    pub registers :
        (j : ℕ)
        → (vm'.frames vm'.current_frame).registers j ≡ (
            if j == (vm.frames vm.current_frame).ret_register
            then (vm.frames vm.current_frame).registers 0
            else (vm.frames (vm.current_frame - 1)).registers j)
    pub cleared : (j : ℕ) → (vm'.frames vm.current_frame).registers j ≡ 0
    -- where the frames return to, and the function of each
    pub ret_address : (g : ℕ) → (vm'.frames g).ret_address ≡ (vm.frames g).ret_address
    pub ret_register : (g : ℕ) → (vm'.frames g).ret_register ≡ (vm.frames g).ret_register
    pub function : (g : ℕ) → (vm'.frames g).function ≡ (vm.frames g).function
    pub others :
        (g : ℕ) → g ≢ vm.current_frame → g + 1 ≢ vm.current_frame → vm'.frames g ≡ vm.frames g
    -- all of the machine but its frames and the instruction pointer
    pub same :
        rest vm'
        ≡ rest (record vm {
          current_frame = vm.current_frame - 1;
          ip = (vm.frames vm.current_frame).ret_address;
        })
    pub gc : vm'.gc ≡ vm.gc
    pub forwards : vm'.forwards ≡ vm.forwards
    pub objects : vm'.objects ≡ vm.objects
    pub current_function : vm'.current_function ≡ vm.current_function

  -- The machine at the end of a return.
  abbrev returned : Vm w → Vm w
  returned vm = record vm {
    frames =
        update
          (update vm.frames (vm.current_frame - 1) (record (vm.frames (vm.current_frame - 1)) {
            registers =
                update (vm.frames (vm.current_frame - 1)).registers
                  (vm.frames vm.current_frame).ret_register
                  ((vm.frames vm.current_frame).registers 0);
          }))
          vm.current_frame
          (record (update vm.frames (vm.current_frame - 1)
            (record (vm.frames (vm.current_frame - 1)) {
              registers =
                  update (vm.frames (vm.current_frame - 1)).registers
                    (vm.frames vm.current_frame).ret_register
                    ((vm.frames vm.current_frame).registers 0);
            })
            vm.current_frame) { registers = λ _. 0 });
    current_frame = vm.current_frame - 1;
    ip = (vm.frames vm.current_frame).ret_address;
  }

  -- Above the lowest frame, and where the frame names a register for its result, a return succeeds:
  -- it goes on at the frame's return address in the frame below, whose result register becomes
  -- register 0 of the frame that is left; that one's registers become zero, and nothing else of the
  -- machine changes, `current_function` and the return data of all frames among it.
  pub op_return-Returned :
      (vm : Vm w)
      → 0 < vm.current_frame
      → (vm.frames vm.current_frame).ret_register < register_count
      → (vm' : Vm w) × (op_return vm ≡ done (tt, vm')) × Returned vm vm'
  unfolding op_return
  op_return-Returned vm above fits = (
    returned vm,
    ground arith,
    record {
      ip = refl;
      current_frame = omega arith;
      registers = λ j. ground arith;
      cleared = λ j. ground arith;
      ret_address = λ g. ground arith;
      ret_register = λ g. ground arith;
      function = λ g. ground arith;
      others = λ g ne ne'. ground arith;
      same = refl;
      gc = refl;
      forwards = refl;
      objects = refl;
      current_function = refl;
    },
  )
