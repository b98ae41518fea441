-- ===== src/Rrb/Tree/Lists.antt =====
-- `concat_trees` of vm/src/std/owl_list.c on whole lists.
use owlang.Base.{
  ℕ, zero, suc, ◌+◌, ◌*◌, ◌%◌, ◌^◌, ◌≤◌, ◌<◌, ◌≡◌, refl, ap, ◌∙◌, arith, List, [], ◌∷◌, ◌++◌,
  length, All, none, max, append_assoc, length-append, true,
}
use owlang.Base.Outcome.{done, ◌>>=◌}
use owlang.Rrb.{Node, Rrb, nodes_to_list, node_of, bits, read_node}
use owlang.Rrb.Nth.{max_levels}
use owlang.Rrb.Push.{push_down_tail}
use owlang.Rrb.Sizes.{find_shift}
use owlang.Rrb.Concat.{concat_sub_tree, concat_trees}
use owlang.Rrb.View.{node_list, rrb_list}
use owlang.Rrb.Tree.{flat, Tree, Tree-children, nodes_to_list-nodes_of_list}
use owlang.Rrb.Tree.Invariant.{IsTree}
use owlang.Rrb.Tree.Sizes.{set_sizes-Tree}
use owlang.Rrb.Tree.Concat.{concat_sub_tree-Merge}

-- A list whose tail can be pushed down into its tree.
pub record PushesDown (l : Rrb) : Type 0 where
  pub left : Rrb
  pub returns : push_down_tail l l [] ≡ done left
  pub height : ℕ
  pub levels : height ≤ 6
  pub shift : left.shift ≡ 5 * height
  pub tree : Tree height left.root
  pub same : node_list left.root ≡ rrb_list l
  pub cnt : left.cnt ≡ length (rrb_list l)

-- The way through the first child.
first_shift :
    (fuel h : ℕ) (cs : List Node)
    → 1 ≤ length cs
    → All (Tree h) cs
    → ((c : Node) → Tree h c → find_shift fuel c ≡ done (5 * h))
    → (read_node cs 0 >>= λ first. find_shift fuel first >>= λ below. done (bits + below))
      ≡ done (5 * suc h)
unfolding read_node
first_shift fuel h [] pos all shift = absurd (omega (arith, pos))
first_shift fuel h (c ∷ cs) pos (t, all) shift = rw (shift c t) (ap done (omega arith))

find_shift-Tree : (fuel h : ℕ) (c : Node) → h < fuel → Tree h c → find_shift fuel c ≡ done (5 * h)
unfolding find_shift read_node
find_shift-Tree zero h c lt t = absurd (omega (arith, lt))
find_shift-Tree (suc fuel) zero (Node.leaf xs) lt t = refl
find_shift-Tree (suc fuel) (suc h) (Node.internal table cs) lt t =
    let (pos, len, all) = Tree-children h table cs t in
    first_shift fuel h (nodes_to_list cs) pos all
      λ c t'. find_shift-Tree fuel h c (omega (arith, lt)) t'
find_shift-Tree (suc fuel) _ _ lt t = absurd t

find_shift-root :
    (h : ℕ) (cs : List Node)
    → h ≤ 6
    → 1 ≤ length cs
    → All (Tree h) cs
    → find_shift max_levels (node_of none cs) ≡ done (5 * suc h)
unfolding find_shift node_of
find_shift-root h cs low pos all =
    rw (nodes_to_list-nodes_of_list cs)
      (first_shift 7 h cs pos all λ c t. find_shift-Tree 7 h c (omega (arith, low)) t)

merged-list :
    (r root : Node) (xs tail : List ℕ) (nodes : List Node)
    → node_list root ≡ flat nodes
    → flat nodes ≡ xs ++ node_list r
    → node_list root ++ tail ≡ xs ++ (node_list r ++ tail)
merged-list r root xs tail nodes e f =
    ap (λ ys. ys ++ tail) (e ∙ f) ∙ append_assoc xs (node_list r) tail

-- Two lists with less than 2^32 elements together, the right one with a tree of height up to six, the
-- left one such that pushing its tail down gives a tree of height up to six with all its elements:
-- `concat_trees` returns a list that keeps the invariant, with the elements of the left list and then
-- those of the right one.
pub concat_trees-elements :
    {l r : Rrb} (p : PushesDown l) (t : IsTree r)
    → t.height ≤ 6
    → Tree t.height r.root
    → length (rrb_list l) + r.cnt < 2 ^ 32
    → (c : Rrb) × (concat_trees l r ≡ done c) × IsTree c × (rrb_list c ≡ rrb_list l ++ rrb_list r)
unfolding concat_trees rrb_list
concat_trees-elements {l} {r} p t low tree small =
    let m =
      concat_sub_tree-Merge (max_levels + max_levels) p.height t.height (max p.height t.height)
        p.left.root r.root true (omega (arith, p.levels, low)) (omega (arith, p.levels))
        (omega (arith, low)) refl p.tree tree (omega (arith, ap length p.same, t.cnt, small)) in
    let level : m.level ≤ 6 = omega (arith, m.few, p.levels, low) in
    let same = m.same ∙ ap (λ xs. xs ++ node_list r.root) p.same in
    let sizes = ap length same ∙ length-append (rrb_list l) (node_list r.root) in
    let shift = find_shift-root m.level m.nodes level m.pos m.trees in
    let (root, made, root_tree, root_list) =
      set_sizes-Tree m.level m.nodes (omega (arith, level)) m.pos (omega (arith, m.few)) m.trees
        (omega (arith, sizes, t.cnt, small)) in
    let cnt : (p.left.cnt + r.cnt) % 2 ^ 32 ≡ length (node_list root) + length r.tail =
      omega (arith, p.cnt, small, ap length root_list, sizes, t.cnt) in
    let merged = m.returns in
    let start =
      ap (λ s. concat_sub_tree (max_levels + max_levels) p.left.root s r.root r.shift true) p.shift
      ∙ ap (λ s. concat_sub_tree (max_levels + max_levels) p.left.root (5 * p.height) r.root s true)
          t.shift
      ∙ merged in
    (
      record {
        cnt = (p.left.cnt + r.cnt) % 2 ^ 32;
        shift = 5 * suc m.level;
        tail_len = r.tail_len;
        tail = r.tail;
        root = root;
      },
      rw (p.returns, start, shift, made) refl,
      record {
        height = suc m.level;
        levels = omega (arith, level);
        shift = refl;
        root = root_tree;
        tail = t.tail;
        tail_fits = t.tail_fits;
        cnt = cnt;
        small = omega arith;
      },
      merged-list r.root root (rrb_list l) r.tail m.nodes root_list same,
    )
