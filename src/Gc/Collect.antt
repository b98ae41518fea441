-- ===== src/Gc/Collect.antt =====
-- `gc_collect` of vm/src/alloc.c: what the registers of all frames show is kept.
use owlang.Base.{ℕ, ◌+◌, ◌/◌, ◌<◌, ◌≤◌, ◌≡◌, ◌≢◌, ◌⊎◌, some, none, length, ◌*◌, List, [], ◌∷◌, All}
use owlang.Base.Outcome.{Outcome}
use owlang.World.{World}
use owlang.Vm.{Vm, Object, register_count}
use owlang.Rrb.{Node, Nodes, nodes_length}
use owlang.Gc.{swap_spaces, object_size, copied_object}
use owlang.Gc.Relocate.{refs, map_refs, moved, IsSettled}
use owlang.Gc.Space.{rest, Snapshot}

module _ {w : World} (vm₀ : Vm w) (s : Snapshot) where
  -- The frames from `lo` up to `hi` have been copied.
  record AreFramesDone (lo hi : ℕ) (vm vm' : Vm w) : Type 0 where
    pub others : (a : ℕ) → (a < lo) ⊎ (hi ≤ a) → vm'.frames a ≡ vm.frames a
    pub copied :
        (a b : ℕ)
        → lo ≤ a
        → a < hi
        → b < register_count
        → ((vm'.frames a).registers b ≡ moved vm₀.gc vm'.forwards ((vm.frames a).registers b))
          × IsSettled vm₀.gc vm'.forwards ((vm.frames a).registers b)
    pub ret_address : (a : ℕ) → (vm'.frames a).ret_address ≡ (vm.frames a).ret_address
    pub ret_register : (a : ℕ) → (vm'.frames a).ret_register ≡ (vm.frames a).ret_register
    pub function : (a : ℕ) → (vm'.frames a).function ≡ (vm.frames a).function

-- The bytes of a block that `bump_cpy` makes, with its flag.
abbrev block_room : ℕ → ℕ
block_room n = n + 1

mutual
  -- The bytes that copies of all nodes below a node take, were none of them shared.
  node_room : Node → ℕ
  node_room Node.null = 0
  node_room (Node.leaf xs) = block_room (16 + 8 * length xs)
  node_room (Node.internal none cs) = block_room (24 + 8 * nodes_length cs) + nodes_room cs
  node_room (Node.internal (some table) cs) =
      block_room (8 + 4 * nodes_length cs) + block_room (24 + 8 * nodes_length cs) + nodes_room cs

  nodes_room : Nodes → ℕ
  nodes_room Nodes.nil = 0
  nodes_room (Nodes.cons c cs) = node_room c + nodes_room cs

-- The bytes that copies of the nodes of a list take.
unfoldable pub inner_room : Object → ℕ
unfolding node_room
inner_room (Object.list r) = node_room r.root + block_room (16 + 8 * length r.tail)
inner_room _ = 0

-- The bytes that copies of the objects at these addresses take, with the nodes of the lists.
unfoldable pub total_size : Snapshot → List ℕ → ℕ
total_size s [] = 0
total_size s (p ∷ ps) = object_size (s.content p) + 1 + inner_room (s.content p) + total_size s ps

-- The machine when the collection begins.
abbrev pub swapped : {w : World} → Vm w → Vm w
swapped vm = record vm { gc = swap_spaces vm.gc }

module _ {w : World} where
  -- What a collection has made of the machine `vm`, whose objects in use are those of `s`.
  pub record IsCollected (vm : Vm w) (s : Snapshot) (vm' : Vm w) : Type 0 where
    pub to_space : vm'.gc.to_space ≡ vm.gc.from_space
    pub from_space : vm'.gc.from_space ≡ vm.gc.to_space
    -- code, functions, instruction pointer, output and all that is not named below
    pub same : rest vm' ≡ rest vm
    -- the registers of the frames in use hold the new addresses
    pub registers :
        (a b : ℕ)
        → a ≤ vm.current_frame
        → b < register_count
        → ((vm'.frames a).registers b
            ≡ moved (swap_spaces vm.gc) vm'.forwards ((vm.frames a).registers b))
          × IsSettled (swap_spaces vm.gc) vm'.forwards ((vm.frames a).registers b)
    -- the other frames are as they were, and so is the way back of all frames
    pub frames : (a : ℕ) → vm.current_frame < a → vm'.frames a ≡ vm.frames a
    pub ret_address : (a : ℕ) → (vm'.frames a).ret_address ≡ (vm.frames a).ret_address
    pub ret_register : (a : ℕ) → (vm'.frames a).ret_register ≡ (vm.frames a).ret_register
    pub function : (a : ℕ) → (vm'.frames a).function ≡ (vm.frames a).function
    -- an object that has been moved stands in the other half, refers to the new addresses, and all
    -- that it refers to has been moved
    pub objects :
        (p : ℕ)
        → s.live p
        → vm'.forwards p ≢ 0
        → (vm.gc.from_space < vm'.forwards p)
          × (vm'.forwards p ≤ vm.gc.from_space + vm.gc.size / 2)
          × (vm'.objects (vm'.forwards p)
              ≡ some
                  (map_refs (moved (swap_spaces vm.gc) vm'.forwards) (copied_object (s.content p))))
          × All (IsSettled (swap_spaces vm.gc) vm'.forwards) (refs (s.content p))
    -- each object is moved once, to a place of its own
    pub injective :
        (p q : ℕ)
        → s.live p
        → s.live q
        → vm'.forwards p ≢ 0
        → vm'.forwards p ≡ vm'.forwards q
        → p ≡ q
    -- what is not in use and not in the other half is as it was
    pub kept :
        (q : ℕ)
        → (s.live q → ⊥)
        → (q ≤ vm.gc.from_space) ⊎ (vm.gc.from_space + vm.gc.size / 2 < q)
        → vm'.objects q ≡ vm.objects q
