-- ===== src/Ops/Calls/Closure.antt =====
-- Upvalues across calls in vm/src/opcodes.c.
use owlang.Base.{ℕ, ◌≤◌, ◌<◌, ◌≡◌, ◌∙◌, arith, [], some}
use owlang.Base.Outcome.{done, fault}
use owlang.World.{World}
use owlang.Vm.{Vm, Object, Function, register_count}
use owlang.Vm.Registers.{get_var}
use owlang.Ops.Calls.{op_return}
use owlang.Ops.Calls.Return.{op_return-Returned}

module _ {w : World} where
  -- `fun` is the address of a function without upvalues, as every named function is.
  pub record HasNoUpvalues (vm : Vm w) (fun : ℕ) : Type 0 where
    pub f : Function
    pub is_f : vm.objects fun ≡ some (Object.function f)
    pub none_captured : f.upvalues ≡ []

  no_upvalue :
      (vm : Vm w) (reg : ℕ)
      → HasNoUpvalues vm vm.current_function
      → 128 ≤ reg
      → get_var reg vm ≡ fault
  unfolding get_var
  no_upvalue vm reg named up = let e = named.is_f in let n = named.none_captured in ground arith

  -- Above the lowest frame, after the return of a function without upvalues to a register, every
  -- upvalue operand is a read outside an array of upvalues, whichever function goes on: it is read
  -- from the function that has returned.
  pub get_var-op_return :
      (vm : Vm w) (reg : ℕ)
      → 0 < vm.current_frame
      → (vm.frames vm.current_frame).ret_register < register_count
      → HasNoUpvalues vm vm.current_function
      → 128 ≤ reg
      → (vm' : Vm w) × (op_return vm ≡ done (tt, vm')) × (get_var reg vm' ≡ fault)
  get_var-op_return vm reg above fits named up =
      let (vm', e, r) = op_return-Returned vm above fits in
      let same : vm'.objects vm'.current_function ≡ vm.objects vm.current_function =
        rw (r.objects, r.current_function) in
      (
        vm',
        e,
        no_upvalue vm' reg
            (record { f = named.f; is_f = same ∙ named.is_f; none_captured = named.none_captured })
            up,
      )
