-- ===== src/Rrb/View.antt =====
-- The elements of a tree, in order: what a list of owl stands for.
use owlang.Base.{ℕ, List, [], ◌++◌}
use owlang.Rrb.{Node, Nodes, Rrb}

unfoldable mutual
  pub node_list : Node → List ℕ
  node_list Node.null = []
  node_list (Node.leaf xs) = xs
  node_list (Node.internal t cs) = nodes_list cs

  pub nodes_list : Nodes → List ℕ
  nodes_list Nodes.nil = []
  nodes_list (Nodes.cons c cs) = node_list c ++ nodes_list cs

unfoldable pub rrb_list : Rrb → List ℕ
unfolding node_list
rrb_list rrb = node_list rrb.root ++ rrb.tail
