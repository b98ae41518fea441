-- ===== src/Std/Lists/Tests.antt =====
-- Lists with trees, at a concrete machine.
use owlang.Base.{◌≡◌, refl, arith, none, some, [], ◌∷◌, ◌==◌, if◌then◌else◌}
use owlang.Base.Outcome.{done}
use owlang.World.Tests.{test_world}
use owlang.Term.{owl_extract_ptr, owl_int_from, int_from_owl_int}
use owlang.Rrb.{Node, Nodes, Rrb, nodes_to_list}
use owlang.Rrb.View.{node_list, rrb_list}
use owlang.Rrb.Built.{Shape, rrb_of}
use owlang.Vm.{Vm, Object}
use owlang.Vm.Memory.{load_rrb}
use owlang.Vm.Tests.{machine_with}
use owlang.Std.Lists.{owl_list_nth, owl_list_count, or_nil}
use owlang.Std.Lists.Elements.{HoldsList}
use owlang.Std.Lists.Trees.{HoldsTree, owl_list_nth-HoldsTree}

abbrev pair : Rrb
pair = rrb_of Shape.no_root (17 ∷ 25 ∷ [])

-- A node with a size table over two leaves that are not full, and a tail.
abbrev relaxed : Rrb
relaxed = record {
  cnt = 4;
  shift = 5;
  tail_len = 1;
  tail = 41 ∷ [];
  root =
      Node.internal (some (1 ∷ 3 ∷ []))
        (Nodes.cons (Node.leaf (1 ∷ [])) (Nodes.cons (Node.leaf (9 ∷ 33 ∷ [])) Nodes.nil));
}

-- The one list is at the address 1000, the other at 2000.
abbrev with_lists : Vm test_world
with_lists = record (machine_with []) {
  objects = λ p.
      if p == 1000
      then some (Object.list pair)
      else if p == 2000
      then some (Object.list relaxed)
      else none;
}

abbrev pair-HoldsList : HoldsList with_lists 8003 (17 ∷ 25 ∷ [])
unfolding rrb_of load_rrb owl_extract_ptr rrb_list node_list
pair-HoldsList = record {
  rrb = pair;
  loaded = refl;
  is_built = record {
    shape = Shape.no_root;
    tail = 17 ∷ 25 ∷ [];
    is_of = refl;
    fits = tt;
    tail_fits = omega arith;
  };
  elements = refl;
}

abbrev relaxed-HoldsTree : HoldsTree with_lists 16003 (1 ∷ 9 ∷ 33 ∷ 41 ∷ [])
unfolding load_rrb owl_extract_ptr rrb_list node_list nodes_to_list
relaxed-HoldsTree = record {
  rrb = relaxed;
  loaded = refl;
  tree = record {
    height = 1;
    levels = omega arith;
    shift = refl;
    root = (
      omega arith,
      omega arith,
      ((omega arith, omega arith), ((omega arith, omega arith), tt)),
      refl,
    );
    tail = refl;
    tail_fits = omega arith;
    cnt = refl;
    small = omega arith;
  };
  elements = refl;
}

owl_list_nth-HoldsTree_example :
    (owl_list_nth 16003 17 with_lists ≡ done (33, with_lists))
    × (owl_list_count 16003 with_lists ≡ done (33, with_lists))
unfolding int_from_owl_int owl_int_from or_nil relaxed-HoldsTree
owl_list_nth-HoldsTree_example =
    owl_list_nth-HoldsTree with_lists 16003 17 (1 ∷ 9 ∷ 33 ∷ 41 ∷ []) relaxed-HoldsTree
      (omega arith) (omega arith)
