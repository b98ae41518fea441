-- ===== src/Rrb/Slice/Rest.antt =====
-- `set_last_size` and one level of `slice_left_rec` of vm/src/std/owl_list.c.
use owlang.Base.{
  ℕ, zero, suc, ◌+◌, ◌-◌, ◌*◌, ◌%◌, ◌^◌, ◌≤◌, ◌<◌, ◌≡◌, refl, sym, subst, ◌∙◌, ap, arith, Bool,
  true, false, none, some, Option, All, List, [], ◌∷◌, ◌++◌, length, drop, set, ltb, ◌==◌,
  length-append, append-nil, length-drop,
}
use owlang.Base.Outcome.{Outcome, done, ◌>>=◌}
use owlang.Rrb.{Node, dec_shift, nodes_to_list, nodes_of_list, node_of, sub32}
use owlang.Rrb.View.{node_list}
use owlang.Rrb.Push.{write}
use owlang.Rrb.Slice.{Sliced}
use owlang.Rrb.Slice.Left.{wrap_left, sizes_left, parent_table, set_last_size, full_sizes}
use owlang.Rrb.Slice.After.{DropAt, cut_sizes, cut_sizes-sums, cut_sizes-set, length-cut_sizes}
use owlang.Rrb.Tree.Sizes.{read-sums}
use owlang.Rrb.Tree.{
  Front-All, flat, size, sums, width, width-pow, Front, Full, Tree, Radix-Tree, Full-Radix,
  Full-size, nodes_to_list-nodes_of_list, size-internal,
}

-- The cut of a full tree, whose height is kept.
pub record CutFull (h : ℕ) (o : Outcome Sliced) (xs : List ℕ) : Type 0 where
  pub node : Node
  pub returns : o ≡ done (node, 5 * h)
  pub tree : Tree h node
  pub elements : node_list node ≡ xs

-- The cut of a tree on whose right there is nothing: `set_last_size` repairs its table.
pub record CutTree (h : ℕ) (o : Outcome Sliced) (xs : List ℕ) : Type 0 where
  pub node : Node
  pub height : ℕ
  pub fixed : Node
  pub returns : o ≡ done (node, 5 * height)
  pub low : height ≤ h
  pub repairs : set_last_size node (5 * height) (length xs) ≡ done fixed
  pub tree : Tree height fixed
  pub elements : node_list fixed ≡ xs

list-node_of : (t : Option (List ℕ)) (cs : List Node) → node_list (node_of t cs) ≡ flat cs
unfolding node_of
list-node_of t cs = size-internal t (nodes_of_list cs) ∙ ap flat (nodes_to_list-nodes_of_list cs)

-- A node with a table over trees.
sized-Tree :
    (h : ℕ) (cs : List Node) (table : List ℕ)
    → 1 ≤ length cs
    → length cs ≤ 32
    → All (Tree h) cs
    → table ≡ sums 0 cs
    → Tree (suc h) (node_of (some table) cs)
unfolding node_of
sized-Tree h cs table pos most all e = rw (nodes_to_list-nodes_of_list cs) (pos, most, all, e)

-- One node above a tree: its table has one entry, or none is needed.
single-Tree :
    (h : ℕ) (c : Node)
    → Tree h c
    → (t : Option (List ℕ)) × (parent_table c (5 * h) ≡ done t) × Tree (suc h) (node_of t (c ∷ []))
unfolding parent_table node_of nodes_to_list nodes_of_list
single-Tree zero (Node.leaf xs) r = (none, refl, (omega arith, r))
single-Tree (suc h) (Node.internal none cs) r = (none, refl, (omega arith, r))
single-Tree (suc h) (Node.internal (some table) cs) (pos, most, all, e) =
    let higher : (5 * suc h == 0) ≡ false = ground arith in
    let total : 0 + length (flat (nodes_to_list cs)) ≡ 0 + size (Node.internal (some table) cs) =
      ap (λ n. 0 + n) (sym (ap length (size-internal (some table) cs))) in
    (
      some ((0 + length (flat (nodes_to_list cs))) ∷ []),
      (rw (higher, e, read-sums 0 (nodes_to_list cs) pos) refl),
      (omega arith, omega arith, ((pos, most, all, e), tt), ap (λ n. n ∷ []) total),
    )
single-Tree _ _ r = absurd r

module _ (h p : ℕ) (Q : Node → Type 0) (q : (c : Node) → Q c → Tree h c) (cs : List Node)
    (len : length cs ≤ 32) (s : DropAt h Q cs p) (inside : p < length (flat cs))
    (small : length (flat cs) < 2 ^ 32) where
  pub at_last : s.after ≡ [] → (s.k == sub32 (length cs) 1) ≡ true
  at_last e = let none_after = ap length e in ground (arith, s.count, none_after, len)

  pub before_last : 1 ≤ length s.after → (s.k == sub32 (length cs) 1) ≡ false
  before_last pos = ground (arith, s.count, pos, len)

  elements_last : s.after ≡ [] → drop s.inner (node_list s.child) ≡ drop p (flat cs)
  elements_last e =
      sym (append-nil (drop s.inner (node_list s.child)))
      ∙ ap (λ cs. drop s.inner (node_list s.child) ++ flat cs) (sym e)
      ∙ sym s.elements

  pub child_small : size s.child < 2 ^ 32
  child_small = omega (
    arith,
    small,
    inside,
    s.place,
    s.inside,
    ap length s.elements,
    length-drop p (flat cs),
    length-drop s.inner (node_list s.child),
    length-append {0} (drop s.inner (node_list s.child)) (flat s.after),
  )

  -- The cut child `node` before full ones and a last one.
  module _ (node : Node) (tree : Tree h node)
      (same : node_list node ≡ drop s.inner (node_list s.child)) (full : Full h s.child)
      (f : Front (Full h) Q s.after) where
    size-node : size node ≡ width h - s.inner
    size-node =
        ap length same
        ∙ length-drop s.inner (node_list s.child)
        ∙ ap (λ n. n - s.inner) (Full-size h s.child full)

    elements-sized : flat (node ∷ s.after) ≡ drop p (flat cs)
    elements-sized = ap (λ xs. xs ++ flat s.after) same ∙ sym s.elements

    total : length (flat cs) ≡ p + (size node + length (flat s.after))
    total =
        let split = length-append {0} (node_list node) (flat s.after) in
        omega (arith, inside, ap length elements-sized, length-drop p (flat cs), split)

    here : (s.k + 1) * width h ≡ p + (0 + size node)
    here = omega (arith, s.place, size-node, s.narrow)

    entry : sub32 ((s.k + 1) * width h % 2 ^ 32) p ≡ 0 + size node
    entry = omega (arith, here, total, small)

    trees : All (Tree h) (node ∷ s.after)
    trees =
        (tree, Front-All (Full h) Q (Tree h) (λ c r. Radix-Tree h c (Full-Radix h c r)) q s.after f)

    room : length (node ∷ s.after) ≤ 32
    room = omega (arith, s.count, len)

    sizes : length cs - s.k ≡ suc (length s.after)
    sizes = omega (arith, s.count)

    abbrev table : List ℕ
    table = cut_sizes h p (suc (length s.after)) s.k

    wrap-sized :
        (o : Outcome Sliced) (has_right : Bool)
        → 1 ≤ length s.after
        → o ≡ done (node, 5 * h)
        → (o >>= wrap_left none cs s.k p (5 * suc h) has_right)
          ≡ done (node_of (some table) (node ∷ s.after), 5 * suc h)
    unfolding wrap_left sizes_left
    wrap-sized o has_right pos returns = rw (returns, before_last pos, sizes, s.rest) refl

    table-sums : All (Full h) s.after → table ≡ sums 0 (node ∷ s.after)
    unfolding full_sizes
    table-sums all =
        rw (width-pow h, entry)
          (ap (◌∷◌ (0 + size node)) (
            cut_sizes-sums h p (s.k + 1) (0 + size node) s.after all here
              (omega (arith, total, small))))

    table-set :
        1 ≤ length s.after
        → set table (length (node ∷ s.after) - 1) (length (drop p (flat cs)))
          ≡ sums 0 (node ∷ s.after)
    unfolding full_sizes
    table-set pos =
        let back : suc (length s.after) - 1 ≡ suc (length s.after - 1) = omega (arith, pos) in
        let all : length (drop p (flat cs)) ≡ 0 + size node + length (flat s.after) =
          omega (arith, length-drop p (flat cs), total) in
        rw (back, all, width-pow h, entry)
          (ap (◌∷◌ (0 + size node)) (
            cut_sizes-set h p (s.k + 1) (0 + size node) Q s.after f here
              (omega (arith, total, small))))

    pub cut_full :
        (o : Outcome Sliced)
        → 1 ≤ length s.after
        → All (Full h) s.after
        → o ≡ done (node, 5 * h)
        → CutFull (suc h) (o >>= wrap_left none cs s.k p (5 * suc h) true) (drop p (flat cs))
    cut_full o pos all returns = record {
      node = node_of (some table) (node ∷ s.after);
      returns = wrap-sized o true pos returns;
      tree = sized-Tree h (node ∷ s.after) table (omega arith) room trees (table-sums all);
      elements = list-node_of (some table) (node ∷ s.after) ∙ elements-sized;
    }

    pub cut_sized :
        (o : Outcome Sliced)
        → 1 ≤ length s.after
        → o ≡ done (node, 5 * h)
        → CutTree (suc h) (o >>= wrap_left none cs s.k p (5 * suc h) false) (drop p (flat cs))
    unfolding set_last_size write node_of
    cut_sized o pos returns =
        let higher : (5 * suc h == 0) ≡ false = ground arith in
        let inside : ltb (length (node ∷ s.after) - 1) (length table) ≡ true =
          ground (arith, length-cut_sizes h p (suc (length s.after)) s.k) in
        record {
          node = node_of (some table) (node ∷ s.after);
          height = suc h;
          fixed = node_of (some (sums 0 (node ∷ s.after))) (node ∷ s.after);
          returns = wrap-sized o false pos returns;
          low = omega arith;
          repairs = rw (higher, nodes_to_list-nodes_of_list s.after, inside, table-set pos) refl;
          tree =
              sized-Tree h (node ∷ s.after) (sums 0 (node ∷ s.after)) (omega arith) room trees refl;
          elements =
              list-node_of (some (sums 0 (node ∷ s.after))) (node ∷ s.after) ∙ elements-sized;
        }

  -- The cut child stands alone in its node.
  pub cut_single :
      (o : Outcome Sliced)
      → h ≤ 7
      → s.after ≡ []
      → CutFull h o (drop s.inner (node_list s.child))
      → CutFull (suc h) (o >>= wrap_left none cs s.k p (5 * suc h) true) (drop p (flat cs))
  unfolding wrap_left
  cut_single o low alone below =
      let (t, above, tree) = single-Tree h below.node below.tree in
      let down : dec_shift (5 * suc h) ≡ 5 * h = omega (arith, low) in
      record {
        node = node_of t (below.node ∷ []);
        returns = rw (below.returns, at_last alone, down, above) refl;
        tree = tree;
        elements =
            list-node_of t (below.node ∷ [])
            ∙ append-nil (node_list below.node)
            ∙ below.elements
            ∙ elements_last alone;
      }

  -- The cut child stands for all.
  pub cut_alone :
      (o : Outcome Sliced)
      → s.after ≡ []
      → CutTree h o (drop s.inner (node_list s.child))
      → CutTree (suc h) (o >>= wrap_left none cs s.k p (5 * suc h) false) (drop p (flat cs))
  unfolding wrap_left
  cut_alone o alone below = record {
    node = below.node;
    height = below.height;
    fixed = below.fixed;
    returns = rw (below.returns, at_last alone) refl;
    low = omega (arith, below.low);
    repairs =
        subst (λ xs. set_last_size below.node (5 * below.height) (length xs) ≡ done below.fixed)
          (elements_last alone) below.repairs;
    tree = below.tree;
    elements = below.elements ∙ elements_last alone;
  }
