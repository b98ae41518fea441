-- ===== src/Rrb/Tree/Concat.antt =====
-- `concat_sub_tree` of vm/src/std/owl_list.c on trees.
use owlang.Base.{
  ℕ, zero, suc, ◌+◌, ◌-◌, ◌*◌, ◌^◌, ◌≤◌, ◌<◌, ◌≡◌, refl, ap, sym, ◌∙◌, subst, arith, List, ◌++◌,
  length, take, drop, none, some, append_assoc, length-append, ltb, ◌==◌, max, Bool, Bool-cases,
  inl, inr, true, false,
}
use owlang.Base.Outcome.{done}
use owlang.Rrb.{Node, nodes_to_list, read_node, children, dec_shift}
use owlang.Rrb.View.{node_list}
use owlang.Rrb.Concat.{rebalance, concat_leaves, concat_sub_tree}
use owlang.Rrb.Tree.{flat, size, Tree, Tree-children, size-internal}
use owlang.Rrb.Tree.Above.{
  ends, concat_leaves-Merge, Merge-via, above-left, above-right, above-both,
}
use owlang.Rrb.Tree.Rebalance.{Merge}

-- What the recursion has for smaller heights.
abbrev Below : ℕ → ℕ → ℕ → ℕ → Type 0
Below fuel h k m =
    (l r : Node)
    → Tree h l
    → Tree k r
    → size l + size r < 2 ^ 32
    → Merge false m (node_list l ++ node_list r) (concat_sub_tree fuel l (5 * h) r (5 * k) false)

module _ (fuel h : ℕ) (top : Bool) (low : h < 7) where
  left-higher :
      (k : ℕ) (l r : Node)
      → k ≤ h
      → Below fuel h k h
      → Tree (suc h) l
      → Tree k r
      → size l + size r < 2 ^ 32
      → Merge top
          (suc h)
          (node_list l ++ node_list r)
          (concat_sub_tree (suc fuel) l (5 * suc h) r (5 * k) top)
  unfolding concat_sub_tree children
  left-higher k (Node.internal table nodes) r le below t u small =
      let cs = nodes_to_list nodes in
      let (pos, len, all) = Tree-children h table nodes t in
      let e = ends h cs pos all in
      let front = flat (take (length cs - 1) cs) in
      let list = size-internal table nodes ∙ e.to_last in
      let size_l = ap length list ∙ length-append front (node_list e.last) in
      let m = below e.last r e.last_tree u (omega (arith, size_l, small)) in
      let down : dec_shift (5 * suc h) ≡ 5 * h = omega arith in
      let higher : ltb (5 * k) (5 * suc h) ≡ true = ground arith in
      Merge-via top (suc h) (node_list (Node.internal table nodes) ++ node_list r)
        (front ++ (node_list e.last ++ node_list r))
        (concat_sub_tree (suc fuel) (Node.internal table nodes) (5 * suc h) r (5 * k) top)
        (rebalance (some cs) m.nodes none (5 * suc h) top)
        (rw (concat_sub_tree, higher, e.at_last, down, m.returns) refl)
        (sym (append_assoc front (node_list e.last) (node_list r))
          ∙ ap (λ xs. xs ++ node_list r) (sym list))
        (above-left h _ _ m low top cs all len
          (omega (arith, size_l, small, length-append (node_list e.last) (node_list r))))
  left-higher k _ r le below t u small = absurd t

  right-higher :
      (k : ℕ) (l r : Node)
      → k ≤ h
      → Below fuel k h h
      → Tree k l
      → Tree (suc h) r
      → size l + size r < 2 ^ 32
      → Merge top
          (suc h)
          (node_list l ++ node_list r)
          (concat_sub_tree (suc fuel) l (5 * k) r (5 * suc h) top)
  unfolding concat_sub_tree children
  right-higher k l (Node.internal table nodes) le below t u small =
      let cs = nodes_to_list nodes in
      let (pos, len, all) = Tree-children h table nodes u in
      let e = ends h cs pos all in
      let back = flat (drop 1 cs) in
      let list = size-internal table nodes ∙ e.from_first in
      let size_r = ap length list ∙ length-append (node_list e.first) back in
      let m = below l e.first t e.first_tree (omega (arith, size_r, small)) in
      let down : dec_shift (5 * suc h) ≡ 5 * h = omega arith in
      let lower : ltb (5 * suc h) (5 * k) ≡ false = ground arith in
      let higher : ltb (5 * k) (5 * suc h) ≡ true = ground arith in
      Merge-via top (suc h) (node_list l ++ node_list (Node.internal table nodes))
        ((node_list l ++ node_list e.first) ++ back)
        (concat_sub_tree (suc fuel) l (5 * k) (Node.internal table nodes) (5 * suc h) top)
        (rebalance none m.nodes (some cs) (5 * suc h) top)
        (rw (concat_sub_tree, lower, higher, e.at_first, down, m.returns) refl)
        (append_assoc (node_list l) (node_list e.first) back
          ∙ ap (λ xs. node_list l ++ xs) (sym list))
        (above-right h _ _ m low top cs all len
          (omega (arith, size_r, small, length-append (node_list l) (node_list e.first))))
  right-higher k l _ le below t u small = absurd u

  level-step :
      (l r : Node) (cs ds : List Node) (last first : Node) (centre : List Node)
      → children l ≡ done cs
      → children r ≡ done ds
      → read_node cs (length cs - 1) ≡ done last
      → read_node ds 0 ≡ done first
      → concat_sub_tree fuel last (5 * h) first (5 * h) false ≡ done centre
      → concat_sub_tree (suc fuel) l (5 * suc h) r (5 * suc h) top
        ≡ rebalance (some cs) centre (some ds) (5 * suc h) top
  unfolding concat_sub_tree
  level-step l r cs ds last first centre c d at_last at_first below =
      let down : dec_shift (5 * suc h) ≡ 5 * h = omega arith in
      let even : ltb (5 * suc h) (5 * suc h) ≡ false = ground arith in
      let inner : (5 * suc h == 0) ≡ false = ground arith in
      rw (concat_sub_tree, even, even, inner, c, d, at_last, at_first, down, below) refl

  level :
      (l r : Node)
      → Below fuel h h h
      → Tree (suc h) l
      → Tree (suc h) r
      → size l + size r < 2 ^ 32
      → Merge top
          (suc h)
          (node_list l ++ node_list r)
          (concat_sub_tree (suc fuel) l (5 * suc h) r (5 * suc h) top)
  unfolding concat_sub_tree children
  level (Node.internal table nodes) (Node.internal table' nodes') below t u small =
      let cs = nodes_to_list nodes in
      let ds = nodes_to_list nodes' in
      let (pos, len, all) = Tree-children h table nodes t in
      let (pos', len', all') = Tree-children h table' nodes' u in
      let e = ends h cs pos all in
      let f = ends h ds pos' all' in
      let front = flat (take (length cs - 1) cs) in
      let back = flat (drop 1 ds) in
      let list = size-internal table nodes ∙ e.to_last in
      let list' = size-internal table' nodes' ∙ f.from_first in
      let size_l = ap length list ∙ length-append front (node_list e.last) in
      let size_r = ap length list' ∙ length-append (node_list f.first) back in
      let m =
        below e.last f.first e.last_tree f.first_tree (omega (arith, size_l, size_r, small)) in
      Merge-via top (suc h)
        (node_list (Node.internal table nodes) ++ node_list (Node.internal table' nodes'))
        (front ++ ((node_list e.last ++ node_list f.first) ++ back))
        (concat_sub_tree (suc fuel) (Node.internal table nodes) (5 * suc h)
          (Node.internal table' nodes') (5 * suc h) top)
        (rebalance (some cs) m.nodes (some ds) (5 * suc h) top)
        (level-step (Node.internal table nodes) (Node.internal table' nodes') cs ds e.last f.first
          m.nodes refl refl e.at_last f.at_first m.returns)
        (ap (λ xs. front ++ xs) (append_assoc (node_list e.last) (node_list f.first) back)
          ∙ sym (append_assoc front (node_list e.last) (node_list f.first ++ back))
          ∙ ap (λ xs. xs ++ (node_list f.first ++ back)) (sym list)
          ∙ ap (λ xs. node_list (Node.internal table nodes) ++ xs) (sym list'))
        (above-both h _ _ m low top cs ds all pos len all' pos' len' (
          omega
            (arith, size_l, size_r, small, length-append (node_list e.last) (node_list f.first))))
  level (Node.internal table nodes) _ below t u small = absurd u
  level _ r below t u small = absurd t

-- Two trees of heights up to seven, whose sum is below the fuel, with less than 2^32 elements
-- together: `concat_sub_tree` returns one or two trees of the greater height, or at the root up to 32
-- of one height up to it, with the elements of the left tree and then those of the right one.
pub concat_sub_tree-Merge :
    (fuel h k m : ℕ) (l r : Node) (top : Bool)
    → h + k < fuel
    → h ≤ 7
    → k ≤ 7
    → m ≡ max h k
    → Tree h l
    → Tree k r
    → size l + size r < 2 ^ 32
    → Merge top m (node_list l ++ node_list r) (concat_sub_tree fuel l (5 * h) r (5 * k) top)
unfolding concat_sub_tree
concat_sub_tree-Merge zero h k m l r top lt hi hi' e t u small = absurd (omega (arith, lt))
concat_sub_tree-Merge (suc fuel) zero zero m l r top lt hi hi' e t u small =
    let m' : 0 ≡ m = omega (arith, e) in
    subst (λ n. Merge top n (node_list l ++ node_list r) (concat_leaves l r top)) m'
      (concat_leaves-Merge top l r t u)
concat_sub_tree-Merge (suc fuel) (suc h) zero m l r top lt hi hi' e t u small =
    let m' : suc h ≡ m = omega (arith, e) in
    subst
      (λ n.
        Merge top n (node_list l ++ node_list r)
          (concat_sub_tree (suc fuel) l (5 * suc h) r (5 * 0) top))
      m'
      (left-higher fuel h top (omega (arith, hi)) 0 l r (omega arith)
        (λ l' r' t' u' s.
          concat_sub_tree-Merge fuel h 0 h l' r' false (omega (arith, lt)) (omega (arith, hi))
            (omega arith) (omega arith) t' u' s)
        t u small)
concat_sub_tree-Merge (suc fuel) zero (suc k) m l r top lt hi hi' e t u small =
    let m' : suc k ≡ m = omega (arith, e) in
    subst
      (λ n.
        Merge top n (node_list l ++ node_list r)
          (concat_sub_tree (suc fuel) l (5 * 0) r (5 * suc k) top))
      m'
      (right-higher fuel k top (omega (arith, hi')) 0 l r (omega arith)
        (λ l' r' t' u' s.
          concat_sub_tree-Merge fuel 0 k k l' r' false (omega (arith, lt)) (omega arith)
            (omega (arith, hi')) (omega arith) t' u' s)
        t u small)
concat_sub_tree-Merge (suc fuel) (suc h) (suc k) m l r top lt hi hi' e t u small =
    elim (Bool-cases (ltb h k)) [
      | inl less ↦
          let m' : suc k ≡ m = ground (arith, e, less) in
          subst
            (λ n.
              Merge top n (node_list l ++ node_list r)
                (concat_sub_tree (suc fuel) l (5 * suc h) r (5 * suc k) top))
            m'
            (right-higher fuel k top (omega (arith, hi')) (suc h) l r (ground arith)
              (λ l' r' t' u' s.
                concat_sub_tree-Merge fuel (suc h) k k l' r' false (omega (arith, lt))
                  (omega (arith, hi)) (omega (arith, hi')) (ground (arith, less)) t' u' s)
              t u small)
      | inr not_less ↦ elim (Bool-cases (ltb k h)) [
        | inl more ↦
            let m' : suc h ≡ m = ground (arith, e, more) in
            subst
              (λ n.
                Merge top n (node_list l ++ node_list r)
                  (concat_sub_tree (suc fuel) l (5 * suc h) r (5 * suc k) top))
              m'
              (left-higher fuel h top (omega (arith, hi)) (suc k) l r (ground arith)
                (λ l' r' t' u' s.
                  concat_sub_tree-Merge fuel h (suc k) h l' r' false (omega (arith, lt))
                    (omega (arith, hi)) (omega (arith, hi')) (ground (arith, more)) t' u' s)
                t u small)
        | inr even ↦
            let same : h ≡ k = ground (arith, even, not_less) in
            let m' : suc h ≡ m = omega (arith, e, same) in
            subst
              (λ n.
                Merge top n (node_list l ++ node_list r)
                  (concat_sub_tree (suc fuel) l (5 * suc h) r (5 * suc k) top))
              m'
              (subst
                (λ k'.
                  Merge top (suc h) (node_list l ++ node_list r)
                    (concat_sub_tree (suc fuel) l (5 * suc h) r (5 * suc k') top))
                same
                (level fuel h top (omega (arith, hi)) l r
                  (λ l' r' t' u' s.
                    concat_sub_tree-Merge fuel h h h l' r' false (omega (arith, lt))
                      (omega (arith, hi)) (omega (arith, hi)) (omega arith) t' u' s)
                  t (subst (λ k'. Tree (suc k') r) (sym same) u) small))
      ]
    ]
