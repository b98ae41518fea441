-- ===== src/Rrb/Tree/Plan/Create.antt =====
-- `create_concat_plan` of vm/src/std/owl_list.c on nodes that each have elements or children.
use owlang.Base.{
  ℕ, zero, suc, ◌+◌, ◌*◌, ◌/◌, ◌^◌, ◌≤◌, ◌<◌, ◌≡◌, refl, ap, sym, ◌∙◌, arith, List, [], ◌∷◌, length,
  sum, All, map, take, append-nil,
}
use owlang.Base.Outcome.{done, ◌>>=◌}
use owlang.Rrb.{Node, nodes_to_list, nodes_length, sub32}
use owlang.Rrb.Push.{node_len}
use owlang.Rrb.Plan.{plan_loop, node_counts, total, create_concat_plan}
use owlang.Rrb.Tree.{Tree, Tree-children, nodes_length-list}
use owlang.Rrb.Tree.Plan.Loop.{plan_loop-Planned}
use owlang.Rrb.Tree.Plan.{InRange}

-- What a node has: elements of a leaf, or children.
abbrev pub count : Node → ℕ
count Node.null = 0
count (Node.leaf xs) = length xs
count (Node.internal t cs) = length (nodes_to_list cs)

node_len-count : (c : Node) → 1 ≤ count c → node_len c ≡ done (count c)
unfolding node_len nodes_length nodes_to_list
node_len-count Node.null pos = absurd (omega (arith, pos))
node_len-count (Node.leaf xs) pos = refl
node_len-count (Node.internal t cs) pos = ap done (nodes_length-list cs)

node_counts-map :
    (cs : List Node) → All (λ c. InRange (count c)) cs → node_counts cs ≡ done (map count cs)
unfolding node_counts
node_counts-map [] all = refl
node_counts-map (c ∷ cs) ((one, most), all) = rw (node_len-count c one, node_counts-map cs all) refl

total-sum : (ns : List ℕ) → sum ns < 2 ^ 32 → total ns ≡ sum ns
unfolding total
total-sum [] small = refl
total-sum (n ∷ ns) small = rw (total-sum ns (omega (arith, small))) (omega (arith, small))

range-count :
    (cs : List Node)
    → All (λ c. InRange (count c)) cs
    → All InRange (map count cs)
      × (length cs ≤ sum (map count cs))
      × (sum (map count cs) ≤ 32 * length cs)
      × (length (map count cs) ≡ length cs)
range-count [] all = (tt, omega arith, omega arith, refl)
range-count (c ∷ cs) ((one, most), all) =
    let (range, low, high, len) = range-count cs all in
    (((one, most), range), omega (arith, low), omega (arith, high), ap suc len)

some_node : (ns : List ℕ) → 1 ≤ sum ns → 1 ≤ length ns
some_node [] pos = pos
some_node (n ∷ ns) pos = omega arith

-- The plan for some nodes has a node for every number in it, holds as much as the nodes do, is no
-- longer, and at most two longer than the shortest.
pub record GoodPlan (cs : List Node) : Type 0 where
  pub plan : List ℕ
  pub returns : create_concat_plan cs ≡ done plan
  pub same_sum : sum plan ≡ sum (map count cs)
  pub range : All InRange plan
  pub pos : 1 ≤ length plan
  pub shorter : length plan ≤ length cs
  pub short : 32 * length plan < sum plan + 96

-- For 1 to 64 nodes with 1 to 32 entries each `create_concat_plan` ends without reading outside its
-- arrays. Its plan has as many entries as the nodes together, 1 to 32 in each new node, no more nodes
-- than before, and at most two more than the fewest that suffice.
pub create_concat_plan-GoodPlan :
    (cs : List Node)
    → 1 ≤ length cs
    → length cs ≤ 64
    → All (λ c. InRange (count c)) cs
    → GoodPlan cs
unfolding create_concat_plan
create_concat_plan-GoodPlan cs pos small all =
    let (range, low, high, len) = range-count cs all in
    let counts = map count cs in
    let optimal = sub32 (total counts) 1 / 32 + 1 in
    let sums = total-sum counts (omega arith) in
    let enough : sum counts ≤ 32 * optimal = omega (arith, sums, low, pos, high, small) in
    let tight : 32 * optimal < sum counts + 32 = omega (arith, sums, low, pos, high, small) in
    let p =
      plan_loop-Planned (length cs) optimal 0 counts [] range (omega (arith, len))
        (omega (arith, enough)) in
    record {
      plan = p.plan;
      returns = rw (node_counts-map cs all) (
          ap (λ zs. plan_loop optimal 0 (length cs) zs >>= λ x. done (take x.1 x.0))
            (sym (append-nil counts))
          ∙ (rw p.returns (ap done p.top)));
      same_sum = p.same_sum ∙ omega arith;
      range = p.range;
      pos = some_node p.plan (omega (arith, p.same_sum, low, pos));
      shorter = p.shorter;
      short = omega (arith, p.short, tight, p.same_sum);
    }

-- What a tree has below its root.
pub Tree-count : (h : ℕ) (c : Node) → Tree h c → InRange (count c)
Tree-count zero (Node.leaf xs) t = t
Tree-count (suc h) (Node.internal table cs) t =
    let (pos, len, all) = Tree-children h table cs t in (pos, len)
Tree-count _ _ t = absurd t
