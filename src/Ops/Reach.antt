-- ===== src/Ops/Reach.antt =====
-- The machines that a run of the program goes through: vm_new, vm_load_module_from_file,
-- vm_run_function and vm_run of vm/src/vm.c.
mod Tests
use owlang.Base.{
  ℕ, ◌+◌, ◌-◌, ◌*◌, ◌/◌, ◌%◌, ◌^◌, ◌<◌, ◌≤◌, ◌≡◌, ◌⊎◌, inl, inr, refl, arith, subst, List, [], ◌∷◌,
}
use owlang.Base.Outcome.{Outcome, done}
use owlang.World.{World}
use owlang.Vm.{Vm, Op, stack_depth, code_capacity, vm_new}
use owlang.Vm.Keeps.{Leaves, Keeps}
use owlang.Vm.Stable.{KeptLocally, Stable}
use owlang.Load.Module.{vm_load_module_from_file}
use owlang.Load.Module.Keeps.{vm_load_module_from_file-Keeps}
use owlang.Ops.Step.{step, write_code}
use owlang.Ops.Step.Keeps.{step-Keeps, write_code-Keeps}

-- the bytes that `gc_init` takes for both halves of the heap
abbrev pub heap_bytes : ℕ
heap_bytes = 0x1fffe

-- The call that `vm_run_function` writes behind the code.
abbrev pub call_code : ℕ → List ℕ
call_code function_id = 5 ∷ 0 ∷ function_id ∷ 0 ∷ 0 ∷ 0 ∷ []

module _ {w : World} where
  -- Where execution begins.
  abbrev pub started : ℕ → Vm w → Vm w
  started at vm = record vm { ip = at; code_size = at + 6 }

  -- The machines of a run: a new one, and what loading a module, the start of `vm_run_function` and
  -- the rounds of `vm_run` make of it.
  pub data Reached : Vm w → Type 0 where
    new : Reached (vm_new w)
    loads :
        {vm vm' : Vm w} (filename : List ℕ)
        → Reached vm
        → vm_load_module_from_file filename vm ≡ done (tt, vm')
        → Reached vm'
    starts :
        {vm vm' : Vm w} (function_id : ℕ)
        → Reached vm
        → write_code vm.code_size (call_code function_id) vm ≡ done (tt, vm')
        → Reached (started vm.code_size vm')
    runs : {vm vm' : Vm w} → Reached vm → step vm ≡ done (tt, vm') → Reached vm'

  -- The stack of frames has room for the current one, addresses of code fit 32 bits, the halves of the
  -- heap are those of the block that `gc_init` took, and `alloc_ptr` is in the half in use, or a byte
  -- behind its end.
  pub record IsSafe (vm : Vm w) : Type 0 where
    pub frame : vm.current_frame < stack_depth
    pub ip_fits : vm.ip < 2 ^ 32
    pub ret_fits : (i : ℕ) → (vm.frames i).ret_address < 2 ^ 32
    pub counter : vm.bytes_allocated < 2 ^ 64
    pub size : vm.gc.size ≡ heap_bytes
    pub halves :
        (vm.gc.to_space ≡ w.malloc 0) × (vm.gc.from_space ≡ w.malloc 0 + heap_bytes / 2)
        ⊎ (vm.gc.from_space ≡ w.malloc 0) × (vm.gc.to_space ≡ w.malloc 0 + heap_bytes / 2)
    pub above : vm.gc.to_space ≤ vm.gc.alloc_ptr
    pub below : vm.gc.alloc_ptr ≤ vm.gc.to_space + heap_bytes / 2 + 1

  locally-IsSafe : KeptLocally IsSafe
  locally-IsSafe = record {
    jump = λ vm at small h. record {
      frame = h.frame;
      ip_fits = small;
      ret_fits = h.ret_fits;
      counter = h.counter;
      size = h.size;
      halves = h.halves;
      above = h.above;
      below = h.below;
    };
    register = λ vm frame reg term small h. record {
      frame = h.frame;
      ip_fits = h.ip_fits;
      ret_fits = λ i. ground (arith, h.ret_fits i, h.ret_fits frame);
      counter = h.counter;
      size = h.size;
      halves = h.halves;
      above = h.above;
      below = h.below;
    };
  }

  swapped :
      (vm : Vm w)
      → IsSafe vm
      → (vm.gc.from_space ≡ w.malloc 0) × (vm.gc.to_space ≡ w.malloc 0 + heap_bytes / 2)
        ⊎ (vm.gc.to_space ≡ w.malloc 0) × (vm.gc.from_space ≡ w.malloc 0 + heap_bytes / 2)
  swapped vm h = elim h.halves [ inl lower ↦ inr lower | inr upper ↦ inl upper ]

  Stable-IsSafe : Stable IsSafe
  Stable-IsSafe = record {
    locally = locally-IsSafe;
    enter = λ vm fun ret_reg ret_address deep fits h. record {
      frame = deep;
      ip_fits = h.ip_fits;
      ret_fits = λ i. ground (arith, h.ret_fits i);
      counter = h.counter;
      size = h.size;
      halves = h.halves;
      above = h.above;
      below = h.below;
    };
    leave = λ vm deep h. record {
      frame = omega (arith, h.frame);
      ip_fits = h.ret_fits vm.current_frame;
      ret_fits = λ i. ground (arith, h.ret_fits i, h.ret_fits vm.current_frame);
      counter = h.counter;
      size = h.size;
      halves = h.halves;
      above = h.above;
      below = h.below;
    };
    current = λ vm fun h. record {
      frame = h.frame;
      ip_fits = h.ip_fits;
      ret_fits = h.ret_fits;
      counter = h.counter;
      size = h.size;
      halves = h.halves;
      above = h.above;
      below = h.below;
    };
    allocate = λ vm block_size room h. record {
      frame = h.frame;
      ip_fits = h.ip_fits;
      ret_fits = h.ret_fits;
      counter = omega arith;
      size = h.size;
      halves = h.halves;
      above = omega (arith, h.above);
      below = omega (arith, h.size);
    };
    store = λ vm ptr object h. record {
      frame = h.frame;
      ip_fits = h.ip_fits;
      ret_fits = h.ret_fits;
      counter = h.counter;
      size = h.size;
      halves = h.halves;
      above = h.above;
      below = h.below;
    };
    forward = λ vm old new h. record {
      frame = h.frame;
      ip_fits = h.ip_fits;
      ret_fits = h.ret_fits;
      counter = h.counter;
      size = h.size;
      halves = h.halves;
      above = h.above;
      below = h.below;
    };
    swap = λ vm h. record {
      frame = h.frame;
      ip_fits = h.ip_fits;
      ret_fits = h.ret_fits;
      counter = h.counter;
      size = h.size;
      halves = swapped vm h;
      above = omega arith;
      below = omega arith;
    };
    move = λ vm heap_size room h. record {
      frame = h.frame;
      ip_fits = h.ip_fits;
      ret_fits = h.ret_fits;
      counter = h.counter;
      size = h.size;
      halves = h.halves;
      above = omega (arith, h.above);
      below = omega (arith, h.size);
    };
    malloc = λ vm h. record {
      frame = h.frame;
      ip_fits = h.ip_fits;
      ret_fits = h.ret_fits;
      counter = h.counter;
      size = h.size;
      halves = h.halves;
      above = h.above;
      below = h.below;
    };
    output = λ vm text h. record {
      frame = h.frame;
      ip_fits = h.ip_fits;
      ret_fits = h.ret_fits;
      counter = h.counter;
      size = h.size;
      halves = h.halves;
      above = h.above;
      below = h.below;
    };
    name = λ vm names h. record {
      frame = h.frame;
      ip_fits = h.ip_fits;
      ret_fits = h.ret_fits;
      counter = h.counter;
      size = h.size;
      halves = h.halves;
      above = h.above;
      below = h.below;
    };
    intern = λ vm pool h. record {
      frame = h.frame;
      ip_fits = h.ip_fits;
      ret_fits = h.ret_fits;
      counter = h.counter;
      size = h.size;
      halves = h.halves;
      above = h.above;
      below = h.below;
    };
    declare = λ vm id fun h. record {
      frame = h.frame;
      ip_fits = h.ip_fits;
      ret_fits = h.ret_fits;
      counter = h.counter;
      size = h.size;
      halves = h.halves;
      above = h.above;
      below = h.below;
    };
    emit = λ vm at byte inside h. record {
      frame = h.frame;
      ip_fits = h.ip_fits;
      ret_fits = h.ret_fits;
      counter = h.counter;
      size = h.size;
      halves = h.halves;
      above = h.above;
      below = h.below;
    };
    resize = λ vm n h. record {
      frame = h.frame;
      ip_fits = h.ip_fits;
      ret_fits = h.ret_fits;
      counter = h.counter;
      size = h.size;
      halves = h.halves;
      above = h.above;
      below = h.below;
    };
  }

  new-IsSafe : IsSafe (vm_new w)
  unfolding vm_new
  new-IsSafe = record {
    frame = omega arith;
    ip_fits = omega arith;
    ret_fits = λ i. omega arith;
    counter = omega arith;
    size = refl;
    halves = inl (refl, refl);
    above = omega arith;
    below = omega arith;
  }

  -- What an operation keeps holds of the machine that it returns.
  after :
      {P : Vm w → Type 0} {m : Op w (Unit {0})} {vm vm' : Vm w}
      → Keeps P m
      → P vm
      → m vm ≡ done (tt, vm')
      → P vm'
  after {P} {m} {vm} k h e = subst (Leaves P) e (k.at vm h)

  started-IsSafe :
      (vm vm' : Vm w) (function_id : ℕ)
      → write_code vm.code_size (call_code function_id) vm ≡ done (tt, vm')
      → IsSafe vm'
      → IsSafe (started vm.code_size vm')
  unfolding write_code
  started-IsSafe vm vm' function_id e h = record {
    frame = h.frame;
    ip_fits = ground arith;
    ret_fits = h.ret_fits;
    counter = h.counter;
    size = h.size;
    halves = h.halves;
    above = h.above;
    below = h.below;
  }

  -- Every machine of a run is safe.
  pub Reached-IsSafe : {vm : Vm w} → Reached vm → IsSafe vm
  Reached-IsSafe new = new-IsSafe
  Reached-IsSafe (loads filename r e) =
      after (vm_load_module_from_file-Keeps Stable-IsSafe filename) (Reached-IsSafe r) e
  Reached-IsSafe (starts {vm} {vm'} function_id r e) = started-IsSafe vm vm' function_id e (
      after (write_code-Keeps Stable-IsSafe vm.code_size (call_code function_id)) (Reached-IsSafe r)
        e)
  Reached-IsSafe (runs r e) = after (step-Keeps Stable-IsSafe) (Reached-IsSafe r) e
