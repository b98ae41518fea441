-- ===== src/Rrb/Tree/Sizes.antt =====
-- `size_sub_trie` and `set_sizes` of vm/src/std/owl_list.c on trees.
use owlang.Base.{
  ℕ, zero, suc, ◌+◌, ◌-◌, ◌*◌, ◌%◌, ◌^◌, ◌≤◌, ◌<◌, ◌≡◌, refl, ap, ◌∙◌, arith, List, [], ◌∷◌, length,
  All, none, some, length-append, ltb, true,
}
use owlang.Base.Outcome.{done}
use owlang.Rrb.{Node, nodes_to_list, nodes_of_list, node_of, dec_shift, read, read_node}
use owlang.Rrb.Nth.{max_levels}
use owlang.Rrb.Sizes.{set_sizes, sum_sizes, size_sub_trie, internal_size}
use owlang.Rrb.View.{node_list}
use owlang.Rrb.Tree.{
  flat, size, sums, Front, Full, Radix, Tree, width, width-pow, Full-size, Radix-Tree,
  nodes_list-flat, nodes_to_list-nodes_of_list, size-internal,
}

-- The last child, the one that need not be full.
record Last (h : ℕ) (cs : List Node) : Type 0 where
  pub child : Node
  pub at : read_node cs (length cs - 1) ≡ done child
  pub tree : Radix h child
  pub sizes : length (flat cs) ≡ (length cs - 1) * width h + size child

Front-Last : (h : ℕ) (cs : List Node) → Front (Full h) (Radix h) cs → Last h cs
unfolding read_node
Front-Last h [] f = absurd f
Front-Last h (c ∷ []) f = record {
  child = c;
  at = refl;
  tree = f;
  sizes = omega (arith, length-append {0} (node_list c) []);
}
Front-Last h (c ∷ d ∷ cs) (full, f) =
    let rest = Front-Last h (d ∷ cs) f in
    let back : suc (length (d ∷ cs)) - 1 ≡ suc (length (d ∷ cs) - 1) = omega arith in
    record {
      child = rest.child;
      at = rw back rest.at;
      tree = rest.tree;
      sizes = rw back (
          omega (
            arith,
            length-append {0} (node_list c) (flat (d ∷ cs)),
            rest.sizes,
            Full-size h c full,
          ));
    }

-- The last entry of a table is the sum of all sizes.
pub read-sums :
    (acc : ℕ) (cs : List Node)
    → 1 ≤ length cs
    → read (sums acc cs) (length cs - 1) ≡ done (acc + length (flat cs))
unfolding read
read-sums acc [] pos = absurd (omega arith)
read-sums acc (c ∷ []) pos = ap done (omega (arith, length-append {0} (node_list c) []))
read-sums acc (c ∷ d ∷ cs) pos =
    let back : suc (length (d ∷ cs)) - 1 ≡ suc (length (d ∷ cs) - 1) = omega arith in
    rw back (
      read-sums (acc + size c) (d ∷ cs) (omega arith)
      ∙ ap done (omega (arith, length-append {0} (node_list c) (flat (d ∷ cs)))))

-- For a tree of a height of at most six, below the fuel, with less than 2^32 elements,
-- `size_sub_trie` returns the number of its elements.
pub size_sub_trie-size :
    (fuel h : ℕ) (c : Node)
    → h < fuel
    → h ≤ 6
    → Tree h c
    → size c < 2 ^ 32
    → size_sub_trie fuel c (5 * h) ≡ done (size c)
unfolding size_sub_trie internal_size node_list
size_sub_trie-size (suc fuel) zero (Node.leaf xs) lt le t small = refl
size_sub_trie-size (suc fuel) (suc h) (Node.internal none cs) lt le (len, front) small =
    let last = Front-Last h (nodes_to_list cs) front in
    let total = last.sizes in
    let all : size (Node.internal none cs) ≡ length (flat (nodes_to_list cs)) =
      ap length (nodes_list-flat cs) in
    let down : dec_shift (5 * suc h) ≡ 5 * h = omega arith in
    let deep : ltb 0 (5 * suc h) ≡ true = ground arith in
    let below =
      size_sub_trie-size fuel h last.child (omega arith) (omega arith)
        (Radix-Tree h last.child last.tree) (omega arith) in
    let defined : ltb (5 * suc h) 32 ≡ true = ground arith in
    rw (size_sub_trie, deep, last.at, down, below, defined, width-pow h, all, total)
      (ap done (omega (arith, total, all, small)))
size_sub_trie-size (suc fuel) (suc h) (Node.internal (some table) cs) lt le (one, len, all, e)
      small =
    let deep : ltb 0 (5 * suc h) ≡ true = ground arith in
    rw (size_sub_trie, deep, e, read-sums 0 (nodes_to_list cs) one)
      (ap done (omega (arith, ap length (nodes_list-flat cs))))
size_sub_trie-size (suc fuel) _ _ lt le t small = absurd t
size_sub_trie-size zero h c lt le t small = absurd (omega (arith, lt))

sum_sizes-sums :
    (h sum : ℕ) (cs : List Node)
    → h < 7
    → All (Tree h) cs
    → sum + length (flat cs) < 2 ^ 32
    → sum_sizes (5 * h) sum cs ≡ done (sums sum cs)
unfolding sum_sizes
sum_sizes-sums h sum [] lt all small = refl
sum_sizes-sums h sum (c ∷ cs) lt (t, all) small =
    let split = length-append {0} (node_list c) (flat cs) in
    let here = size_sub_trie-size max_levels h c (omega arith) (omega arith) t (omega arith) in
    let rest = sum_sizes-sums h (sum + size c) cs lt all (omega arith) in
    let exact : (sum + size c) % 2 ^ 32 ≡ sum + size c = omega arith in rw (here, exact, rest) refl

-- Of 1 to 32 trees of one height below seven, with less than 2^32 elements together, `set_sizes` makes
-- a tree of the next height with their elements in order.
pub set_sizes-Tree :
    (h : ℕ) (cs : List Node)
    → h < 7
    → 1 ≤ length cs
    → length cs ≤ 32
    → All (Tree h) cs
    → length (flat cs) < 2 ^ 32
    → (c : Node) × (set_sizes cs (5 * suc h) ≡ done c) × Tree (suc h) c × (node_list c ≡ flat cs)
unfolding set_sizes node_of
set_sizes-Tree h cs lt pos len all small =
    let down : dec_shift (5 * suc h) ≡ 5 * h = omega arith in
    let same = nodes_to_list-nodes_of_list cs in
    (
      Node.internal (some (sums 0 cs)) (nodes_of_list cs),
      rw (down, sum_sizes-sums h 0 cs (omega arith) all (omega arith)) refl,
      rw same (pos, len, all, refl),
      size-internal (some (sums 0 cs)) (nodes_of_list cs) ∙ ap flat same,
    )
