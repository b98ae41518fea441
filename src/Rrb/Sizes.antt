-- ===== src/Rrb/Sizes.antt =====
-- `find_shift`, `set_sizes` and `size_sub_trie` of vm/src/std/owl_list.c.
use owlang.Base.{
  ℕ, zero, suc, ◌+◌, ◌-◌, ◌%◌, ◌^◌, true, false, Option, none, some, List, [], ◌∷◌, length, ltb,
  if◌then◌else◌,
}
use owlang.Base.Outcome.{Outcome, done, fault, out_of_fuel, ◌>>=◌}
use owlang.Rrb.{
  Node, bits, dec_shift, shift_left, read, read_node, elements, nodes_to_list, node_of,
}
use owlang.Rrb.Nth.{max_levels}

-- On fuel; the path goes through the first children.
unfoldable pub find_shift : ℕ → Node → Outcome ℕ
unfolding nodes_to_list read_node
find_shift zero node = out_of_fuel
find_shift (suc fuel) Node.null = fault
find_shift (suc fuel) (Node.leaf xs) = done 0
find_shift (suc fuel) (Node.internal table cs) = do
  first ← read_node (nodes_to_list cs) 0
  below ← find_shift fuel first
  done (bits + below)

-- The number of elements below an internal node.
unfoldable pub internal_size : (Node → Outcome ℕ) → Option (List ℕ) → List Node → ℕ → Outcome ℕ
unfolding read read_node
internal_size rec none cs shift = do
  last ← read_node cs (length cs - 1)
  last_size ← rec last
  before ← shift_left (length cs - 1) shift
  done ((before + last_size) % 2 ^ 32)
internal_size rec (some table) cs shift = read table (length cs - 1)

unfoldable pub size_sub_trie : ℕ → Node → ℕ → Outcome ℕ
unfolding internal_size nodes_to_list elements
size_sub_trie zero node shift = out_of_fuel
size_sub_trie (suc fuel) Node.null shift = fault
size_sub_trie (suc fuel) (Node.leaf xs) shift = if ltb 0 shift then fault else done (length xs)
size_sub_trie (suc fuel) (Node.internal table cs) shift = elim (ltb 0 shift) [
  | true ↦
      internal_size (λ node. size_sub_trie fuel node (dec_shift shift)) table (nodes_to_list cs)
        shift
  | false ↦ fault
]

-- The loop of `set_sizes`: the sums of the sizes, from `sum` on.
unfoldable pub sum_sizes : ℕ → ℕ → List Node → Outcome (List ℕ)
unfolding size_sub_trie
sum_sizes child_shift sum [] = done []
sum_sizes child_shift sum (c ∷ cs) = do
  size ← size_sub_trie max_levels c child_shift
  rest ← sum_sizes child_shift ((sum + size) % 2 ^ 32) cs
  done ((sum + size) % 2 ^ 32 ∷ rest)

unfoldable pub set_sizes : List Node → ℕ → Outcome Node
unfolding sum_sizes node_of
set_sizes cs shift = do table ← sum_sizes (dec_shift shift) 0 cs; done (node_of (some table) cs)
