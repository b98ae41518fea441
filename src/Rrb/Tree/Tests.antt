-- ===== src/Rrb/Tree/Tests.antt =====
-- Trees with size tables, at concrete lists.
use owlang.Base.{
  suc, ◌*◌, ◌≡◌, refl, arith, List, [], ◌∷◌, ◌++◌, get_elem?, replicate, some, none, true,
}
use owlang.Base.Outcome.{done, ◌>>=◌}
use owlang.Rrb.{Node, Nodes, Rrb, Ref, deref, nodes_to_list}
use owlang.Rrb.Nth.{rrb_nth}
use owlang.Rrb.Push.{rrb_push}
use owlang.Rrb.Update.{rrb_pop}
use owlang.Rrb.Tree.Update.{UpdatedList, rrb_update-set}
use owlang.Rrb.Tree.Pop.{rrb_pop-push}
use owlang.Rrb.Sizes.{set_sizes, size_sub_trie}
use owlang.Rrb.Concat.{rrb_concat, concat_trees, concat_sub_tree, rebalance, internal_node_merge}
use owlang.Rrb.View.{node_list, rrb_list}
use owlang.Rrb.Built.{IsBuilt, Shape, rrb_of}
use owlang.Rrb.Tree.{flat, size, Tree}
use owlang.Rrb.Tree.Invariant.{IsTree}
use owlang.Rrb.Tree.Nth.{rrb_nth-elements}
use owlang.Rrb.Tree.Sizes.{size_sub_trie-size, set_sizes-Tree}
use owlang.Rrb.Tree.Plan.Create.{GoodPlan, create_concat_plan-GoodPlan}
use owlang.Rrb.Tree.Execute.{Executed, execute_concat_plan-Executed}
use owlang.Rrb.Tree.Rebalance.{Merge, rebalance-Merge}
use owlang.Rrb.Tree.Concat.{concat_sub_tree-Merge}
use owlang.Rrb.Tree.Lists.{concat_trees-elements}
use owlang.Rrb.Tree.Built.{IsBuilt-PushesDown}
use owlang.Rrb.Tree.Join.{JoinedRef, rrb_concat-elements}

abbrev two_leaves : List Node
two_leaves = Node.leaf (1 ∷ 2 ∷ []) ∷ Node.leaf (3 ∷ 4 ∷ 5 ∷ []) ∷ []

-- A node with a size table over two leaves that are not full.
abbrev sized_root : Node
sized_root =
    Node.internal (some (2 ∷ 5 ∷ []))
      (Nodes.cons (Node.leaf (1 ∷ 2 ∷ [])) (Nodes.cons (Node.leaf (3 ∷ 4 ∷ 5 ∷ [])) Nodes.nil))

abbrev relaxed : Rrb
relaxed = record { cnt = 6; shift = 5; tail_len = 1; tail = 6 ∷ []; root = sized_root }

sized_root-Tree : Tree 1 sized_root
unfolding nodes_to_list node_list
sized_root-Tree =
    (omega arith, omega arith, ((omega arith, omega arith), ((omega arith, omega arith), tt)), refl)

abbrev relaxed-IsTree : IsTree relaxed
unfolding node_list
relaxed-IsTree = record {
  height = 1;
  levels = omega arith;
  shift = refl;
  root = sized_root-Tree;
  tail = refl;
  tail_fits = omega arith;
  cnt = refl;
  small = omega arith;
}

-- A list that pushing builds, with a root and a tail that is not full.
abbrev pushed : Rrb
pushed = rrb_of (Shape.one_leaf (replicate 32 7)) (8 ∷ 9 ∷ [])

abbrev pushed-IsBuilt : IsBuilt pushed
pushed-IsBuilt = record {
  shape = Shape.one_leaf (replicate 32 7);
  tail = 8 ∷ 9 ∷ [];
  is_of = refl;
  fits = refl;
  tail_fits = omega arith;
}

rrb_nth-elements_example : rrb_nth relaxed 4 ≡ done (get_elem? (rrb_list relaxed) 4)
unfolding node_list
rrb_nth-elements_example = rrb_nth-elements relaxed-IsTree (omega arith) 4

size_sub_trie-size_example : size_sub_trie 8 sized_root (5 * 1) ≡ done (size sized_root)
unfolding node_list
size_sub_trie-size_example =
    size_sub_trie-size 8 1 sized_root (omega arith) (omega arith) sized_root-Tree (omega arith)

set_sizes-Tree_example :
    (c : Node) × (set_sizes two_leaves (5 * suc 0) ≡ done c)
    × Tree 1 c
    × (node_list c ≡ flat two_leaves)
unfolding node_list
set_sizes-Tree_example =
    set_sizes-Tree 0 two_leaves (omega arith) (omega arith) (omega arith)
      ((omega arith, omega arith), ((omega arith, omega arith), tt)) (omega arith)

create_concat_plan-GoodPlan_example : GoodPlan two_leaves
unfolding node_list
create_concat_plan-GoodPlan_example =
    create_concat_plan-GoodPlan two_leaves (omega arith) (omega arith)
      ((omega arith, omega arith), ((omega arith, omega arith), tt))

execute_concat_plan-Executed_example : Executed 0 two_leaves (5 ∷ [])
unfolding node_list
execute_concat_plan-Executed_example =
    execute_concat_plan-Executed 0 two_leaves (5 ∷ []) (omega arith)
      ((omega arith, omega arith), ((omega arith, omega arith), tt)) (omega arith)
      ((omega arith, omega arith), tt) refl

rebalance-Merge_example :
    Merge true 1 (flat two_leaves) (rebalance none two_leaves none (5 * suc 0) true)
unfolding node_list internal_node_merge
rebalance-Merge_example =
    rebalance-Merge 0 none none two_leaves two_leaves true refl (omega arith)
      ((omega arith, omega arith), ((omega arith, omega arith), tt)) (omega arith) (omega arith)
      (omega arith)

concat_sub_tree-Merge_example :
    Merge true 1
      (node_list sized_root ++ node_list sized_root)
      (concat_sub_tree 16 sized_root (5 * 1) sized_root (5 * 1) true)
unfolding node_list
concat_sub_tree-Merge_example =
    concat_sub_tree-Merge 16 1 1 1 sized_root sized_root true (omega arith) (omega arith)
      (omega arith) refl sized_root-Tree sized_root-Tree (omega arith)

concat_trees-elements_example :
    (c : Rrb) × (concat_trees pushed relaxed ≡ done c)
    × IsTree c
    × (rrb_list c ≡ rrb_list pushed ++ rrb_list relaxed)
unfolding rrb_of rrb_list node_list
concat_trees-elements_example =
    concat_trees-elements (IsBuilt-PushesDown pushed-IsBuilt (omega arith) (omega arith))
      relaxed-IsTree (omega arith) sized_root-Tree (omega arith)

rrb_concat-elements_example :
    JoinedRef
      (rrb_concat (Ref.fresh pushed) (Ref.fresh relaxed))
      (rrb_list pushed ++ rrb_list relaxed)
unfolding deref rrb_of node_list
rrb_concat-elements_example =
    rrb_concat-elements (Ref.fresh pushed) (Ref.fresh relaxed) pushed-IsBuilt (λ _. omega arith)
      (omega arith) relaxed-IsTree (omega arith) (omega arith)

rrb_update-set_example : UpdatedList relaxed 3 9
unfolding node_list
rrb_update-set_example = rrb_update-set relaxed relaxed-IsTree (omega arith) 3 9 (omega arith)

rrb_pop-push_example : (rrb_push relaxed 7 >>= rrb_pop) ≡ done (Ref.fresh relaxed)
unfolding node_list
rrb_pop-push_example =
    rrb_pop-push relaxed 7 relaxed-IsTree (omega arith) (omega arith) (omega arith)

-- The last leaf becomes the tail, and the root has one child less.
pop_last_leaf :
    rrb_pop relaxed
    ≡ done (
        Ref.fresh (record {
          cnt = 5;
          shift = 0;
          tail_len = 3;
          tail = 3 ∷ 4 ∷ 5 ∷ [];
          root = Node.leaf (1 ∷ 2 ∷ []);
        }))
unfolding rrb_pop
pop_last_leaf = refl
