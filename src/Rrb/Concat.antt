-- ===== src/Rrb/Concat.antt =====
-- `rrb_concat`, `concat_sub_tree`, `rebalance` and `internal_node_merge` of
-- vm/src/std/owl_list.c.
use owlang.Base.{
  ℕ, zero, suc, ◌+◌, ◌-◌, ◌%◌, ◌^◌, Bool, true, false, ◌&&◌, Option, none, some, List, [], ◌∷◌,
  ◌++◌, length, take, drop, ltb, leb, ◌==◌, if◌then◌else◌,
}
use owlang.Base.Outcome.{Outcome, done, out_of_fuel, ◌>>=◌}
use owlang.Rrb.{
  Node, Rrb, Ref, deref, branching, dec_shift, sub32, children, elements, read_node, node_of,
}
use owlang.Rrb.Nth.{max_levels}
use owlang.Rrb.Push.{is_null, push_down_tail}
use owlang.Rrb.Sizes.{find_shift, set_sizes}
use owlang.Rrb.Plan.{create_concat_plan, execute_concat_plan}

-- `internal_node_new_above1`, `internal_node_new_above`
abbrev new_above1 : Node → List Node
new_above1 child = child ∷ []

abbrev new_above : Node → Node → List Node
new_above left right = left ∷ right ∷ []

-- The children of `left` but the last and of `right` but the first, round those of `centre`.
unfoldable pub internal_node_merge : Option (List Node) → List Node → Option (List Node) → List Node
internal_node_merge none centre none = centre
internal_node_merge none centre (some right) = centre ++ drop 1 right
internal_node_merge (some left) centre none = take (length left - 1) left ++ centre
internal_node_merge (some left) centre (some right) =
    take (length left - 1) left ++ (centre ++ drop 1 right)

-- The children of the node that is returned.
unfoldable pub rebalance :
    Option (List Node) → List Node → Option (List Node) → ℕ → Bool → Outcome (List Node)
unfolding internal_node_merge create_concat_plan execute_concat_plan set_sizes
rebalance left centre right shift is_top = do
  let all = internal_node_merge left centre right
  plan ← create_concat_plan all
  new_all ← execute_concat_plan all plan shift
  if leb (length plan) branching
      then (if is_top
          then done new_all
          else (do node ← set_sizes new_all shift; done (new_above1 node)))
      else (do
        new_left ← set_sizes (take branching new_all) shift
        new_right ← set_sizes (drop branching new_all) shift
        done (new_above new_left new_right))

-- Two leaves.
unfoldable pub concat_leaves : Node → Node → Bool → Outcome (List Node)
unfolding elements
concat_leaves left_node right_node is_top = do
  left ← elements left_node
  right ← elements right_node
  if is_top && leb (length left + length right) branching
      then done (new_above1 (Node.leaf (left ++ right)))
      else done (new_above left_node right_node)

-- The children of the node that is returned. The fuel bounds the rounds of both shifts together.
unfoldable pub concat_sub_tree : ℕ → Node → ℕ → Node → ℕ → Bool → Outcome (List Node)
unfolding rebalance concat_leaves children read_node
concat_sub_tree zero left_node left_shift right_node right_shift is_top = out_of_fuel
concat_sub_tree (suc fuel) left_node left_shift right_node right_shift is_top =
    elim (ltb right_shift left_shift) [
      | true ↦ children left_node >>= λ left. read_node left (length left - 1) >>= λ last.
          concat_sub_tree fuel last (dec_shift left_shift) right_node right_shift false
          >>= λ centre. rebalance (some left) centre none left_shift is_top
      | false ↦ elim (ltb left_shift right_shift) [
        | true ↦ children right_node >>= λ right. read_node right 0 >>= λ first.
            concat_sub_tree fuel left_node left_shift first (dec_shift right_shift) false
            >>= λ centre. rebalance none centre (some right) right_shift is_top
        | false ↦ elim (left_shift == 0) [
          | true ↦ concat_leaves left_node right_node is_top
          | false ↦ children left_node >>= λ left. children right_node >>= λ right.
              read_node left (length left - 1) >>= λ last. read_node right 0 >>= λ first.
              concat_sub_tree fuel last (dec_shift left_shift) first (dec_shift right_shift) false
              >>= λ centre. rebalance (some left) centre (some right) left_shift is_top
        ]
      ]
    ]

-- The right list is a tail alone: the tails are joined, or a full leaf is pushed down.
unfoldable pub concat_tail : Rrb → Rrb → Outcome Rrb
unfolding push_down_tail
concat_tail left right =
    let cnt = (left.cnt + right.cnt) % 2 ^ 32 in
    if left.tail_len == branching
    then push_down_tail left (record left { cnt = cnt; tail_len = right.tail_len }) right.tail
    else if leb (left.tail_len + right.tail_len) branching
    then done (record left {
      cnt = cnt;
      tail = left.tail ++ right.tail;
      tail_len = left.tail_len + right.tail_len;
    })
    else let right_cut = branching - left.tail_len in
      let new_tail_len = right.tail_len - right_cut in
      push_down_tail (record left { cnt = sub32 cnt new_tail_len })
        (record left {
          cnt = cnt;
          tail = take left.tail_len left.tail ++ take right_cut right.tail;
          tail_len = new_tail_len;
        })
        (take new_tail_len (drop right_cut right.tail))

-- Both lists have a tree. The tail NULL that the left one gets first is not read again.
unfoldable pub concat_trees : Rrb → Rrb → Outcome Rrb
unfolding push_down_tail concat_sub_tree find_shift set_sizes node_of
concat_trees left₀ right = do
  left ← push_down_tail left₀ left₀ []
  root_candidate ←
      concat_sub_tree (max_levels + max_levels) left.root left.shift right.root right.shift true
  shift ← find_shift max_levels (node_of none root_candidate)
  root ← set_sizes root_candidate shift
  done (record {
    cnt = (left.cnt + right.cnt) % 2 ^ 32;
    shift = shift;
    tail_len = right.tail_len;
    tail = right.tail;
    root = root;
  })

unfoldable pub rrb_concat : Ref → Ref → Outcome Ref
unfolding concat_tail concat_trees deref is_null
rrb_concat left right =
    let l = deref left in
    let r = deref right in
    if l.cnt == 0
    then done right
    else if r.cnt == 0
    then done left
    else (if is_null r.root then concat_tail l r else concat_trees l r) >>= λ result.
        done (Ref.fresh result)
