-- ===== src/Gc/Keeps.antt =====
-- What the collector of vm/src/alloc.c keeps of the machine.
use owlang.Base.{
  ℕ, zero, suc, ◌+◌, ◌/◌, ◌≤◌, ◌<◌, ◌≡◌, refl, arith, Bool, true, false, not, Option, none, some,
  List, [], ◌∷◌, ltb, ◌==◌,
}
use owlang.World.{World}
use owlang.Term.{owl_extract_ptr, owl_tag_of}
use owlang.Rrb.{Node, Nodes}
use owlang.Vm.{Vm, Op, Object, register_count}
use owlang.Vm.Memory.{load}
use owlang.Vm.Memory.Keeps.{store-Keeps}
use owlang.Vm.Keeps.{
  Leaves, if-Leaves, Keeps, bind-Keeps, then-Keeps, pure-Keeps, if-Keeps, writes-Keeps,
}
use owlang.Vm.Stable.{Stable, with_register}
use owlang.Gc.{
  on_heap, object_size, copied_object, points_at_block, heap_object, move_block, forward, copy_all,
  copy_set, copy_list_node, copy_list_nodes, copy_refs, copy_block, copy, collect_register,
  collect_frame, collect_frames, gc_collect, swap_spaces, gc_safepoint,
}

module _ {w : World} {P : Vm w → Type 0} where
  heap_object-Keeps : (tag : ℕ) (object : Option Object) → Keeps P (heap_object tag object)
  unfolding heap_object
  heap_object-Keeps tag none = record { at = λ vm h. tt }
  heap_object-Keeps tag (some (Object.unterminated bytes)) = record { at = λ vm h. tt }
  heap_object-Keeps tag (some (Object.tuple xs)) = record { at = λ vm h. ground arith }
  heap_object-Keeps tag (some (Object.string bytes)) = record { at = λ vm h. ground arith }
  heap_object-Keeps tag (some (Object.function f)) = record { at = λ vm h. ground arith }
  heap_object-Keeps tag (some (Object.list r)) = record { at = λ vm h. ground arith }

module _ {w : World} {P : Vm w → Type 0} (copy : ℕ → Op w ℕ)
    (keeps : (x : ℕ) → Keeps P (copy x)) where
  pub copy_all-Keeps : (xs : List ℕ) → Keeps P (copy_all copy xs)
  unfolding copy_all
  copy_all-Keeps [] = pure-Keeps []
  copy_all-Keeps (x ∷ xs) =
      bind-Keeps (keeps x) λ x'. bind-Keeps (copy_all-Keeps xs) λ xs'. pure-Keeps _

  copy_set-Keeps : (x : ℕ) → Keeps P (copy_set copy x)
  unfolding copy_set
  copy_set-Keeps x = if-Keeps (x == 0) (pure-Keeps 0) (keeps x)

  mutual
    unfolding copy_list_node copy_list_nodes

    copy_list_node-Keeps : (node : Node) → Keeps P (copy_list_node copy node)
    copy_list_node-Keeps Node.null = pure-Keeps Node.null
    copy_list_node-Keeps (Node.leaf xs) = bind-Keeps (copy_all-Keeps xs) λ xs'. pure-Keeps _
    copy_list_node-Keeps (Node.internal table cs) =
        bind-Keeps (copy_list_nodes-Keeps cs) λ cs'. pure-Keeps _

    copy_list_nodes-Keeps : (nodes : Nodes) → Keeps P (copy_list_nodes copy nodes)
    copy_list_nodes-Keeps Nodes.nil = pure-Keeps Nodes.nil
    copy_list_nodes-Keeps (Nodes.cons c cs) =
        bind-Keeps (copy_list_node-Keeps c)
          λ c'. bind-Keeps (copy_list_nodes-Keeps cs) λ cs'. pure-Keeps _

module _ {w : World} {P : Vm w → Type 0} (copy : ℕ → Op w ℕ)
    (keeps : (x : ℕ) → Keeps P (copy x)) where
  copy_refs-Keeps : (object : Object) → Keeps P (copy_refs copy object)
  unfolding copy_refs
  copy_refs-Keeps (Object.tuple xs) = bind-Keeps (copy_all-Keeps copy keeps xs) λ xs'. pure-Keeps _
  copy_refs-Keeps (Object.function f) =
      bind-Keeps (copy_all-Keeps (copy_set copy) (copy_set-Keeps copy keeps) f.upvalues)
        λ upvalues'. pure-Keeps _
  copy_refs-Keeps (Object.list r) =
      bind-Keeps (copy_list_node-Keeps copy keeps r.root)
        λ root'. bind-Keeps (copy_all-Keeps copy keeps r.tail) λ tail'. pure-Keeps _
  copy_refs-Keeps (Object.string bytes) = pure-Keeps _
  copy_refs-Keeps (Object.unterminated bytes) = pure-Keeps _

module _ {w : World} {P : Vm w → Type 0} (s : Stable P) where
  move_block-Leaves : (object : Object) (vm : Vm w) → P vm → Leaves P (move_block object vm)
  unfolding move_block
  move_block-Leaves object vm h = by_room _ refl
    where
      by_room :
          (full : Bool)
          → ltb (vm.gc.to_space + vm.gc.size / 2) (vm.gc.alloc_ptr + object_size object) ≡ full
          → Leaves P (move_block object vm)
      by_room true full = rw full tt
      by_room false fits = rw fits (
          (store-Keeps s (vm.gc.alloc_ptr + 1) (copied_object object)).at _
            (s.move vm (object_size object) (ground arith) h))

  forward-Keeps : (old new : ℕ) → Keeps P (forward old new)
  unfolding forward
  forward-Keeps old new = record { at = λ vm h. s.forward vm old new h }

  copy_block-Keeps :
      (copy : ℕ → Op w ℕ)
      → ((x : ℕ) → Keeps P (copy x))
      → (term : ℕ) → Keeps P (copy_block copy term)
  unfolding copy_block
  copy_block-Keeps copy keeps term =
      bind-Keeps
        (record {
          at = λ vm h.
              (heap_object-Keeps (owl_tag_of term) (load (owl_extract_ptr term) vm)).at vm h;
        })
        λ object. if-Keeps (object_size object == 0) (pure-Keeps term) (
          bind-Keeps (record { at = move_block-Leaves object })
            λ copied. bind-Keeps (copy_refs-Keeps copy keeps (copied_object object)) λ object'.
              then-Keeps (store-Keeps s copied object')
                (then-Keeps (forward-Keeps (owl_extract_ptr term) copied) (pure-Keeps _)))

  pub copy-Keeps : (fuel term : ℕ) → Keeps P (copy fuel term)
  unfolding copy
  copy-Keeps zero term = record { at = λ vm h. tt }
  copy-Keeps (suc fuel) term = record {
    at = λ vm h. if-Leaves P (not (on_heap vm.gc (owl_extract_ptr term))) _ _ h (
        if-Leaves P (not (points_at_block (owl_tag_of term))) _ _ tt (
          if-Leaves P (vm.forwards (owl_extract_ptr term) == 0) _ _
            ((copy_block-Keeps (copy fuel) (copy-Keeps fuel) term).at vm h) h));
  }

  collect_register-Keeps : (fuel i j : ℕ) → j < register_count → Keeps P (collect_register fuel i j)
  unfolding collect_register
  collect_register-Keeps fuel i j small = record {
    at = λ vm h. if-Leaves P ((vm.frames i).registers j == 0) _ _ h (
        (bind-Keeps (copy-Keeps fuel ((vm.frames i).registers j)) λ object'.
            writes-Keeps _ (with_register i j object')
              λ vm' h'. s.locally.register vm' i j object' small h').at
          vm h);
  }

  collect_frame-Keeps :
      (fuel rest i j : ℕ) → j + rest ≤ register_count → Keeps P (collect_frame fuel rest i j)
  unfolding collect_frame
  collect_frame-Keeps fuel zero i j small = pure-Keeps tt
  collect_frame-Keeps fuel (suc rest) i j small =
      then-Keeps (collect_register-Keeps fuel i j (omega arith))
        (collect_frame-Keeps fuel rest i (j + 1) (omega arith))

  collect_frames-Keeps : (fuel rest i : ℕ) → Keeps P (collect_frames fuel rest i)
  unfolding collect_frames
  collect_frames-Keeps fuel zero i = pure-Keeps tt
  collect_frames-Keeps fuel (suc rest) i =
      then-Keeps (collect_frame-Keeps fuel register_count i 0 (omega arith))
        (collect_frames-Keeps fuel rest (i + 1))

  pub gc_collect-Keeps : (fuel : ℕ) → Keeps P (gc_collect fuel)
  unfolding gc_collect
  gc_collect-Keeps fuel =
      then-Keeps (writes-Keeps (λ _. tt) (λ vm. record vm { gc = swap_spaces vm.gc }) swapped)
        (record { at = λ vm h. (collect_frames-Keeps fuel (vm.current_frame + 1) 0).at vm h })
    where
      swapped : (vm : Vm w) → P vm → P (record vm { gc = swap_spaces vm.gc })
      swapped vm h = s.swap vm h

  pub gc_safepoint-Keeps : (fuel : ℕ) → Keeps P (gc_safepoint fuel)
  unfolding gc_safepoint
  gc_safepoint-Keeps fuel = record {
    at = λ vm h.
        if-Leaves P (ltb (vm.gc.to_space + vm.gc.size / 2) (vm.gc.alloc_ptr + vm.gc.size / 2 / 10))
          _ _ ((gc_collect-Keeps fuel).at vm h) h;
  }
