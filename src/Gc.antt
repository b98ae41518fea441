-- ===== src/Gc.antt =====
-- The copying collector of vm/src/alloc.c, on whole objects: a block is copied as the object that
-- it holds. The nodes of a list are part of its head here, so that their own forward flags and the
-- memory that they take are left out.
pub mod Keeps
pub mod Relocate
pub mod Space
pub mod Prices
pub mod Refs
pub mod Block
pub mod Forward
pub mod Copy
pub mod Roots
pub mod Collect
mod Tests
use owlang.Base.{
  ℕ, zero, suc, ◌+◌, ◌*◌, ◌/◌, ◌%◌, ◌^◌, Bool, not, ◌&&◌, Option, none, some, List, [], ◌∷◌, length,
  ltb, leb, ◌==◌, if◌then◌else◌,
}
use owlang.Base.Outcome.{done, fault, out_of_fuel}
use owlang.World.{World}
use owlang.Term.{OwlTag, tag_value, owl_extract_ptr, owl_tag_of, owl_tag_with}
use owlang.Rrb.{Node, Nodes}
use owlang.Vm.{Op, Object, GcState, register_count, update, ◌>>=◌, ◌>>◌, pure, lift}
use owlang.Vm.Memory.{align, gc_check_overflow, store, load}
use owlang.Std.Functions.{function_size}
use owlang.Std.Lists.{rrb_size}

-- `ON_HEAP`
unfoldable on_heap : GcState → ℕ → Bool
on_heap gc ptr = leb gc.from_space ptr && leb ptr (gc.from_space + gc.size)

unfoldable swap_spaces : GcState → GcState
swap_spaces gc = record gc {
  to_space = gc.from_space;
  from_space = gc.to_space;
  alloc_ptr = gc.from_space;
}

-- The bytes of an object on the heap. Those of a text are counted without its NUL.
unfoldable object_size : Object → ℕ
unfolding align
object_size (Object.tuple xs) = align ((length xs + 1) * 8 % 2 ^ 32)
object_size (Object.string bytes) = align (length bytes)
object_size (Object.unterminated bytes) = align (length bytes)
object_size (Object.function f) = align (function_size + f.n_upvalues * 8)
object_size (Object.list r) = align rrb_size

-- What the copy of an object holds before its references are updated: a text that fills its block
-- has lost its NUL.
unfoldable copied_object : Object → Object
copied_object (Object.string bytes) =
    if length bytes % 8 == 0 then Object.unterminated bytes else Object.string bytes
copied_object object = object

-- Whether the tag of a term is the one of its object.
unfoldable has_tag : ℕ → Object → Bool
unfolding tag_value
has_tag tag (Object.tuple xs) = tag == tag_value OwlTag.tuple
has_tag tag (Object.string bytes) = tag == tag_value OwlTag.string
has_tag tag (Object.unterminated bytes) = tag == tag_value OwlTag.string
has_tag tag (Object.function f) = tag == tag_value OwlTag.function
has_tag tag (Object.list r) = tag == tag_value OwlTag.list

-- The tags of terms that point at a block.
unfoldable points_at_block : ℕ → Bool
unfolding tag_value
points_at_block tag = leb (tag_value OwlTag.tuple) tag && leb tag (tag_value OwlTag.function)

module _ {w : World} where
  -- `heap_size_of` with the object behind the term; a text whose NUL is missing, or another object
  -- than the tag says, is not read as C defines
  unfoldable heap_object : ℕ → Option Object → Op w Object
  unfolding has_tag
  heap_object tag none = lift fault
  heap_object tag (some (Object.unterminated bytes)) = lift fault
  heap_object tag (some object) = if has_tag tag object then pure object else lift fault

  -- `memcpy` of the block, and the object at its new place
  unfoldable move_block : Object → Op w ℕ
  unfolding object_size copied_object gc_check_overflow store
  move_block object = do
    let heap_size = object_size object
    gc_check_overflow heap_size
    copied ← λ vm. done (
      vm.gc.alloc_ptr + 1,
      record vm { gc = record (vm.gc) { alloc_ptr = vm.gc.alloc_ptr + heap_size + 1 } },
    )
    store copied (copied_object object)
    pure copied

  -- `forward(old, new)`; the address overwrites the old object
  unfoldable pub forward : ℕ → ℕ → Op w (Unit {0})
  forward old new vm = done (
    tt,
    record vm {
      forwards = update (update vm.forwards new 0) old new;
      objects = update vm.objects old none;
    },
  )

  unfoldable copy_all : (ℕ → Op w ℕ) → List ℕ → Op w (List ℕ)
  copy_all copy [] = pure []
  copy_all copy (x ∷ xs) = do x' ← copy x; xs' ← copy_all copy xs; pure (x' ∷ xs')

  -- an upvalue that is not set yet is left alone
  unfoldable copy_set : (ℕ → Op w ℕ) → ℕ → Op w ℕ
  copy_set copy x = if x == 0 then pure 0 else copy x

  mutual
    unfolding copy_all

    copy_list_node : (ℕ → Op w ℕ) → Node → Op w Node
    copy_list_node copy Node.null = pure Node.null
    copy_list_node copy (Node.leaf xs) = do xs' ← copy_all copy xs; pure (Node.leaf xs')
    copy_list_node copy (Node.internal table cs) = do
      cs' ← copy_list_nodes copy cs
      pure (Node.internal table cs')

    copy_list_nodes : (ℕ → Op w ℕ) → Nodes → Op w Nodes
    copy_list_nodes copy Nodes.nil = pure Nodes.nil
    copy_list_nodes copy (Nodes.cons c cs) = do
      c' ← copy_list_node copy c
      cs' ← copy_list_nodes copy cs
      pure (Nodes.cons c' cs')

  -- The object with its references copied.
  unfoldable copy_refs : (ℕ → Op w ℕ) → Object → Op w Object
  unfolding copy_all copy_set copy_list_node
  copy_refs copy (Object.tuple xs) = do xs' ← copy_all copy xs; pure (Object.tuple xs')
  copy_refs copy (Object.function f) = do
    upvalues' ← copy_all (copy_set copy) f.upvalues
    pure (Object.function (record f { upvalues = upvalues' }))
  copy_refs copy (Object.list r) = do
    root' ← copy_list_node copy r.root
    tail' ← copy_all copy r.tail
    pure (Object.list (record r { root = root'; tail = tail' }))
  copy_refs copy (Object.string bytes) = pure (Object.string bytes)
  copy_refs copy (Object.unterminated bytes) = pure (Object.unterminated bytes)

  -- What is done with a block that has not been copied yet.
  unfoldable copy_block : (ℕ → Op w ℕ) → ℕ → Op w ℕ
  unfolding heap_object move_block copy_refs forward
  copy_block copy term = do
    let ptr = owl_extract_ptr term
    object ← λ vm. heap_object (owl_tag_of term) (load ptr vm) vm
    if object_size object == 0 then pure term else (do
      copied ← move_block object
      object' ← copy_refs copy (copied_object object)
      store copied object'
      forward ptr copied
      pure (owl_tag_with copied (owl_tag_of term)))

  -- `copy`. The flag byte is read at every word that is an address in the heap; at an integer or
  -- another word that only looks like one, what it reads is not known. The fuel bounds how deep
  -- terms are nested.
  unfoldable pub copy : ℕ → ℕ → Op w ℕ
  unfolding on_heap points_at_block copy_block
  copy zero term vm = out_of_fuel
  copy (suc fuel) term vm =
      let ptr = owl_extract_ptr term in
      let block = copy_block (copy fuel) term vm in
      if not (on_heap vm.gc ptr)
      then done (term, vm)
      else if not (points_at_block (owl_tag_of term))
      then fault
      else if vm.forwards ptr == 0
      then block
      else done (owl_tag_with (vm.forwards ptr) (owl_tag_of term), vm)

  -- One register of a frame; a zero word is no term.
  unfoldable collect_register : ℕ → ℕ → ℕ → Op w (Unit {0})
  unfolding copy
  collect_register fuel i j vm =
      let object = (vm.frames i).registers j in
      if object == 0
      then done (tt, vm)
      else (copy fuel object >>= λ object'. λ vm'. done (
        tt,
        record vm' {
          frames =
              update vm'.frames i
                (record (vm'.frames i) { registers = update (vm'.frames i).registers j object' });
        },
      ))
          vm

  -- `for (j …; j < REGISTER_COUNT; j++)`, `rest` rounds being left
  unfoldable collect_frame : ℕ → ℕ → ℕ → ℕ → Op w (Unit {0})
  unfolding collect_register
  collect_frame fuel zero i j = pure tt
  collect_frame fuel (suc rest) i j = collect_register fuel i j >> collect_frame fuel rest i (j + 1)

  unfoldable collect_frames : ℕ → ℕ → ℕ → Op w (Unit {0})
  unfolding collect_frame
  collect_frames fuel zero i = pure tt
  collect_frames fuel (suc rest) i =
      collect_frame fuel register_count i 0 >> collect_frames fuel rest (i + 1)

  -- The roots are the registers of the frames in use, and nothing else.
  unfoldable pub gc_collect : ℕ → Op w (Unit {0})
  unfolding swap_spaces collect_frames
  gc_collect fuel = do
    λ vm. done (tt, record vm { gc = swap_spaces vm.gc })
    λ vm. collect_frames fuel (vm.current_frame + 1) 0 vm

  -- `space_size * (BUFFER_PERCENT / 100.0)`, cut to an integer: a tenth of the space
  unfoldable pub gc_safepoint : ℕ → Op w (Unit {0})
  unfolding gc_collect
  gc_safepoint fuel vm =
      let space_size = vm.gc.size / 2 in
      if ltb (vm.gc.to_space + space_size) (vm.gc.alloc_ptr + space_size / 10)
      then gc_collect fuel vm
      else done (tt, vm)
