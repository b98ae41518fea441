-- ===== src/Vm/Memory.antt =====
-- The allocation of vm/src/alloc.c, and reads through the pointers in tagged words.
pub mod Alloc
pub mod Keeps
use owlang.Base.{
  ℕ, ◌+◌, ◌-◌, ◌*◌, ◌/◌, ◌%◌, ◌^◌, Bool, Option, none, some, List, [], ◌∷◌, ltb, ◌==◌,
  if◌then◌else◌,
}
use owlang.Base.Outcome.{Outcome, done, exited, fault}
use owlang.World.{World}
use owlang.Rrb.{Rrb, empty_rrb}
use owlang.Vm.{Vm, Op, Object, Function, GcState, update, ◌>>=◌, ◌>>◌, pure, undefined}

-- `align`, on `uint32_t`
unfoldable pub align : ℕ → ℕ
align size = if size % 8 == 0 then size else (size + (8 - size % 8)) % 2 ^ 32

unfoldable as_tuple : Option Object → Outcome (List ℕ)
as_tuple (some (Object.tuple xs)) = done xs
as_tuple _ = fault

unfoldable as_function : Option Object → Outcome Function
as_function (some (Object.function f)) = done f
as_function _ = fault

unfoldable as_list : Option Object → Outcome Rrb
as_list (some (Object.list r)) = done r
as_list _ = fault

unfoldable as_string : Option Object → Option (List ℕ)
as_string (some (Object.string bs)) = some bs
as_string _ = none

unfoldable or_else : Option (List ℕ) → Option (List ℕ) → Option (List ℕ)
or_else (some a) b = some a
or_else none b = b

unfoldable from_some : Option (List ℕ) → Outcome (List ℕ)
from_some (some a) = done a
from_some none = fault

module _ {w : World} where
  unfoldable pub gc_check_overflow : ℕ → Op w (Unit {0})
  gc_check_overflow block_size vm =
      if ltb (vm.gc.to_space + vm.gc.size / 2) (vm.gc.alloc_ptr + block_size)
      then exited 1
      else done (tt, vm)

  -- `owl_alloc`: a byte for the forward flag, then the block that is returned
  unfoldable pub owl_alloc : ℕ → Op w ℕ
  unfolding gc_check_overflow
  owl_alloc n = do
    let block_size = (align n + 1) % 2 ^ 32
    gc_check_overflow block_size
    λ vm. done (
      vm.gc.alloc_ptr + 1,
      record vm {
        gc = record (vm.gc) { alloc_ptr = vm.gc.alloc_ptr + block_size };
        forwards = update vm.forwards (vm.gc.alloc_ptr + 1) 0;
        bytes_allocated = (vm.bytes_allocated + block_size) % 2 ^ 64;
      },
    )

  -- Several calls of `owl_alloc`, one after another.
  unfoldable pub owl_alloc_all : List ℕ → Op w (Unit {0})
  unfolding owl_alloc
  owl_alloc_all [] = pure tt
  owl_alloc_all (n ∷ ns) = owl_alloc n >>= λ _. owl_alloc_all ns

  -- what the code writes to a block that it has just allocated
  unfoldable pub store : ℕ → Object → Op w (Unit {0})
  store ptr object vm = done (tt, record vm { objects = update vm.objects ptr (some object) })

  -- A call of `owl_alloc` and the writes that fill the block.
  unfoldable pub alloc_object : ℕ → Object → Op w ℕ
  unfolding owl_alloc store
  alloc_object n object = do ptr ← owl_alloc n; store ptr object; pure ptr

  unfoldable pub gc_usage : Vm w → ℕ
  gc_usage vm = (vm.gc.alloc_ptr + 2 ^ 32 - vm.gc.to_space % 2 ^ 32) % 2 ^ 32

  -- what stands at an address; nothing stands at NULL
  unfoldable pub load : ℕ → Vm w → Option Object
  load ptr vm = if ptr == 0 then none else vm.objects ptr

  -- the elements of the tuple at an address, `ary[1]` to `ary[ary[0]]`
  unfoldable pub load_tuple : ℕ → Vm w → Outcome (List ℕ)
  unfolding as_tuple load
  load_tuple ptr vm = as_tuple (load ptr vm)

  unfoldable pub load_function_at : ℕ → Vm w → Outcome Function
  unfolding as_function load
  load_function_at ptr vm = as_function (load ptr vm)

  -- `*rrb`; the address of `EMPTY_RRB` is no block of the heap
  unfoldable pub load_rrb : ℕ → Vm w → Outcome Rrb
  unfolding as_list load
  load_rrb ptr vm = if ptr == w.empty_rrb_at then done empty_rrb else as_list (load ptr vm)

  -- the text at a pointer: in the heap, in one of the pools, or a literal of the source
  unfoldable pub load_string : ℕ → Vm w → Outcome (List ℕ)
  unfolding as_string load or_else from_some
  load_string ptr vm =
      if ptr == 0
      then fault
      else from_some (
          or_else (as_string (load ptr vm)) (
            or_else (w.strings_at vm.intern_pool ptr)
              (or_else (w.strings_at vm.function_names ptr) (w.literal_at ptr))))
