-- ===== src/Vm/Stable.antt =====
-- The writes that the source makes to the machine, one by one: a property that each of them keeps is
-- kept by every operation that is built from them.
use owlang.Base.{ℕ, ◌+◌, ◌-◌, ◌/◌, ◌%◌, ◌^◌, ◌<◌, ◌≤◌, some, none, List}
use owlang.World.{World}
use owlang.Vm.{Vm, Object, register_count, stack_depth, code_capacity, update}

module _ {w : World} where
  -- `vm->frames[frame].registers[reg] = term`
  abbrev pub with_register : ℕ → ℕ → ℕ → Vm w → Vm w
  with_register frame reg term vm = record vm {
    frames =
        update vm.frames frame
          (record (vm.frames frame) { registers = update (vm.frames frame).registers reg term });
  }

  -- The frame behind the current one is entered.
  abbrev pub entered : ℕ → ℕ → ℕ → ℕ → Vm w → Vm w
  entered next_frame fun ret_reg ret_address vm = record vm {
    frames = update vm.frames next_frame (record (vm.frames next_frame) {
      ret_address = ret_address;
      ret_register = ret_reg;
      function = fun;
    });
    current_frame = vm.current_frame + 1;
  }

  -- The current frame is left.
  abbrev pub left : Vm w → Vm w
  left vm = record vm {
    frames =
        update vm.frames vm.current_frame
          (record (vm.frames vm.current_frame) { registers = λ _. 0 });
    current_frame = vm.current_frame - 1;
    ip = (vm.frames vm.current_frame).ret_address;
  }

  -- A block of the heap, with the byte before it.
  abbrev pub allocated : ℕ → Vm w → Vm w
  allocated block_size vm = record vm {
    gc = record (vm.gc) { alloc_ptr = vm.gc.alloc_ptr + block_size };
    forwards = update vm.forwards (vm.gc.alloc_ptr + 1) 0;
    bytes_allocated = (vm.bytes_allocated + block_size) % 2 ^ 64;
  }

  -- The writes to registers and to the instruction pointer.
  pub record KeptLocally (P : Vm w → Type 0) : Type 0 where
    pub jump : (vm : Vm w) (at : ℕ) → at < 2 ^ 32 → P vm → P (record vm { ip = at })
    pub register :
        (vm : Vm w) (frame reg term : ℕ)
        → reg < register_count
        → P vm
        → P (with_register frame reg term vm)

  -- All writes.
  pub record Stable (P : Vm w → Type 0) : Type 0 where
    pub locally : KeptLocally P
    pub enter :
        (vm : Vm w) (fun ret_reg ret_address : ℕ)
        → vm.current_frame + 1 < stack_depth
        → ret_address < 2 ^ 32
        → P vm
        → P (entered (vm.current_frame + 1) fun ret_reg ret_address vm)
    pub leave : (vm : Vm w) → 0 < vm.current_frame → P vm → P (left vm)
    pub current : (vm : Vm w) (fun : ℕ) → P vm → P (record vm { current_function = fun })
    pub allocate :
        (vm : Vm w) (block_size : ℕ)
        → vm.gc.alloc_ptr + block_size ≤ vm.gc.to_space + vm.gc.size / 2
        → P vm
        → P (allocated block_size vm)
    pub store :
        (vm : Vm w) (ptr : ℕ) (object : Object)
        → P vm
        → P (record vm { objects = update vm.objects ptr (some object) })
    pub forward :
        (vm : Vm w) (old new : ℕ)
        → P vm
        → P (record vm {
          forwards = update (update vm.forwards new 0) old new;
          objects = update vm.objects old none;
        })
    pub swap :
        (vm : Vm w)
        → P vm
        → P (record vm {
          gc = record (vm.gc) {
            to_space = vm.gc.from_space;
            from_space = vm.gc.to_space;
            alloc_ptr = vm.gc.from_space;
          };
        })
    -- the room for the block is checked without the byte before it
    pub move :
        (vm : Vm w) (heap_size : ℕ)
        → vm.gc.alloc_ptr + heap_size ≤ vm.gc.to_space + vm.gc.size / 2
        → P vm
        → P (record vm { gc = record (vm.gc) { alloc_ptr = vm.gc.alloc_ptr + heap_size + 1 } })
    pub malloc : (vm : Vm w) → P vm → P (record vm { mallocs = vm.mallocs + 1 })
    pub output : (vm : Vm w) (text : List ℕ) → P vm → P (record vm { stdout = text })
    pub name : (vm : Vm w) (names : w.Strings) → P vm → P (record vm { function_names = names })
    pub intern : (vm : Vm w) (pool : w.Strings) → P vm → P (record vm { intern_pool = pool })
    pub declare :
        (vm : Vm w) (id fun : ℕ) → P vm → P (record vm { functions = update vm.functions id fun })
    pub emit :
        (vm : Vm w) (at byte : ℕ)
        → at < code_capacity
        → P vm
        → P (record vm { code = update vm.code at byte })
    pub resize : (vm : Vm w) (n : ℕ) → P vm → P (record vm { code_size = n })
