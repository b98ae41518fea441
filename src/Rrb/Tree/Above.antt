-- ===== src/Rrb/Tree/Above.antt =====
-- The steps of `concat_sub_tree` of vm/src/std/owl_list.c: two leaves, and the way up.
use owlang.Base.{
  ℕ, suc, ◌+◌, ◌-◌, ◌*◌, ◌^◌, ◌≤◌, ◌<◌, ◌≡◌, refl, ap, sym, ◌∙◌, subst, arith, List, [], ◌∷◌, ◌++◌,
  length, All, take, drop, none, some, append_assoc, append-nil, length-append, All-append,
  All-take, All-drop, length-take, length-drop, leb, Bool, Bool-cases, inl, inr, true, false,
}
use owlang.Base.Outcome.{Outcome, done}
use owlang.Rrb.{Node, read_node, elements}
use owlang.Rrb.View.{node_list}
use owlang.Rrb.Concat.{internal_node_merge, rebalance, concat_leaves}
use owlang.Rrb.Tree.{flat, Tree, flat-append}
use owlang.Rrb.Tree.Rebalance.{Merge, merge_one, merge_two, rebalance-Merge}

-- The children of a tree but the last, and the last.
pub record Ends (h : ℕ) (cs : List Node) : Type 0 where
  pub first : Node
  pub last : Node
  pub at_first : read_node cs 0 ≡ done first
  pub at_last : read_node cs (length cs - 1) ≡ done last
  pub first_tree : Tree h first
  pub last_tree : Tree h last
  pub from_first : flat cs ≡ node_list first ++ flat (drop 1 cs)
  pub to_last : flat cs ≡ flat (take (length cs - 1) cs) ++ node_list last

pub ends : (h : ℕ) (cs : List Node) → 1 ≤ length cs → All (Tree h) cs → Ends h cs
unfolding read_node
ends h [] pos all = absurd (omega (arith, pos))
ends h (c ∷ []) pos (t, all) = record {
  first = c;
  last = c;
  at_first = refl;
  at_last = refl;
  first_tree = t;
  last_tree = t;
  from_first = refl;
  to_last = append-nil (node_list c);
}
ends h (c ∷ d ∷ cs) pos (t, all) =
    let e = ends h (d ∷ cs) (omega arith) all in
    let back : suc (length (d ∷ cs)) - 1 ≡ suc (length (d ∷ cs) - 1) = omega arith in
    record {
      first = c;
      last = e.last;
      at_first = refl;
      at_last = rw back e.at_last;
      first_tree = t;
      last_tree = e.last_tree;
      from_first = refl;
      to_last = rw back (
          ap (λ xs. node_list c ++ xs) e.to_last
          ∙ sym (
              append_assoc (node_list c) (flat (take (length (d ∷ cs) - 1) (d ∷ cs)))
                (node_list e.last)));
    }

two_leaves-Merge :
    (top : Bool) (xs ys : List ℕ)
    → Tree 0 (Node.leaf xs)
    → Tree 0 (Node.leaf ys)
    → Merge top 0 (xs ++ ys) (concat_leaves (Node.leaf xs) (Node.leaf ys) top)
unfolding concat_leaves elements node_list
two_leaves-Merge false xs ys t u =
    merge_two false 0 (Node.leaf xs) (Node.leaf ys) (xs ++ ys)
      (concat_leaves (Node.leaf xs) (Node.leaf ys) false) refl t u refl
two_leaves-Merge true xs ys t u = elim (Bool-cases (leb (length xs + length ys) 32)) [
  | inl fits ↦
      let size = length-append xs ys in
      merge_one true 0 (Node.leaf (xs ++ ys)) (xs ++ ys)
        (concat_leaves (Node.leaf xs) (Node.leaf ys) true) (ground (arith, fits))
        (omega (arith, size, t), ground (arith, size, fits)) refl
  | inr over ↦
      merge_two true 0 (Node.leaf xs) (Node.leaf ys) (xs ++ ys)
        (concat_leaves (Node.leaf xs) (Node.leaf ys) true) (ground (arith, over)) t u refl
]

pub concat_leaves-Merge :
    (top : Bool) (l r : Node)
    → Tree 0 l
    → Tree 0 r
    → Merge top 0 (node_list l ++ node_list r) (concat_leaves l r top)
unfolding node_list
concat_leaves-Merge top (Node.leaf xs) (Node.leaf ys) t u = two_leaves-Merge top xs ys t u
concat_leaves-Merge top (Node.leaf xs) _ t u = absurd u
concat_leaves-Merge top _ r t u = absurd t

pub Merge-via :
    (top : Bool) (h : ℕ) (xs ys : List ℕ) (o o' : Outcome (List Node))
    → o ≡ o'
    → ys ≡ xs
    → Merge top h ys o'
    → Merge top h xs o
Merge-via top h xs ys o o' e same m = record {
  nodes = m.nodes;
  level = m.level;
  returns = e ∙ m.returns;
  trees = m.trees;
  pos = m.pos;
  few = m.few;
  same = m.same ∙ same;
}

-- The way up: below are the trees `m.nodes`, beside them the other children.
module _ (h : ℕ) (ys : List ℕ) (o : Outcome (List Node)) (m : Merge false h ys o) (low : h < 7)
    (top : Bool) where
  centre_trees : All (Tree h) m.nodes
  centre_trees = subst (λ n. All (Tree n) m.nodes) m.few.0 m.trees

  pub above-left :
      (cs : List Node)
      → All (Tree h) cs
      → length cs ≤ 32
      → length (flat (take (length cs - 1) cs)) + length ys < 2 ^ 32
      → Merge top
          (suc h)
          (flat (take (length cs - 1) cs) ++ ys)
          (rebalance (some cs) m.nodes none (5 * suc h) top)
  unfolding internal_node_merge
  above-left cs all len small =
      let front = take (length cs - 1) cs in
      let same = flat-append front m.nodes ∙ ap (λ xs. flat front ++ xs) m.same in
      let sizes = length-append front m.nodes in
      let front_size = length-take (length cs - 1) cs (omega arith) in
      Merge-via top (suc h) (flat front ++ ys) (flat (front ++ m.nodes)) _ _ refl same (
        rebalance-Merge h (some cs) none m.nodes (front ++ m.nodes) top refl low
          (All-append (Tree h) front m.nodes (All-take (Tree h) (length cs - 1) cs all)
            centre_trees)
          (omega (arith, sizes, m.pos)) (omega (arith, sizes, front_size, len, m.few))
          (omega (arith, ap length same, length-append (flat front) ys, small)))

  pub above-right :
      (cs : List Node)
      → All (Tree h) cs
      → length cs ≤ 32
      → length ys + length (flat (drop 1 cs)) < 2 ^ 32
      → Merge top
          (suc h)
          (ys ++ flat (drop 1 cs))
          (rebalance none m.nodes (some cs) (5 * suc h) top)
  unfolding internal_node_merge
  above-right cs all len small =
      let back = drop 1 cs in
      let same = flat-append m.nodes back ∙ ap (λ xs. xs ++ flat back) m.same in
      let sizes = length-append m.nodes back in
      let back_size = length-drop 1 cs in
      Merge-via top (suc h) (ys ++ flat back) (flat (m.nodes ++ back)) _ _ refl same (
        rebalance-Merge h none (some cs) m.nodes (m.nodes ++ back) top refl low
          (All-append (Tree h) m.nodes back centre_trees (All-drop (Tree h) 1 cs all))
          (omega (arith, sizes, m.pos)) (omega (arith, sizes, back_size, len, m.few))
          (omega (arith, ap length same, length-append ys (flat back), small)))

  pub above-both :
      (cs ds : List Node)
      → All (Tree h) cs
      → 1 ≤ length cs
      → length cs ≤ 32
      → All (Tree h) ds
      → 1 ≤ length ds
      → length ds ≤ 32
      → length (flat (take (length cs - 1) cs)) + (length ys + length (flat (drop 1 ds))) < 2 ^ 32
      → Merge top
          (suc h)
          (flat (take (length cs - 1) cs) ++ (ys ++ flat (drop 1 ds)))
          (rebalance (some cs) m.nodes (some ds) (5 * suc h) top)
  unfolding internal_node_merge
  above-both cs ds all pos len all' pos' len' small =
      let front = take (length cs - 1) cs in
      let back = drop 1 ds in
      let inner = flat-append m.nodes back ∙ ap (λ xs. xs ++ flat back) m.same in
      let same = flat-append front (m.nodes ++ back) ∙ ap (λ xs. flat front ++ xs) inner in
      let sizes = length-append front (m.nodes ++ back) in
      let sizes' = length-append m.nodes back in
      let front_size = length-take (length cs - 1) cs (omega arith) in
      let back_size = length-drop 1 ds in
      Merge-via top (suc h) (flat front ++ (ys ++ flat back)) (flat (front ++ (m.nodes ++ back))) _
        _ refl same
        (rebalance-Merge h (some cs) (some ds) m.nodes (front ++ (m.nodes ++ back)) top refl low
          (All-append (Tree h) front (m.nodes ++ back) (All-take (Tree h) (length cs - 1) cs all)
            (All-append (Tree h) m.nodes back centre_trees (All-drop (Tree h) 1 ds all')))
          (omega (arith, sizes, sizes', m.pos))
          (omega (arith, sizes, sizes', front_size, back_size, pos, len, pos', len', m.few))
          (omega (
            arith,
            ap length same,
            length-append (flat front) (ys ++ flat back),
            length-append ys (flat back),
            small,
          )))
