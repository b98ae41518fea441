-- ===== src/Rrb/Tree.antt =====
-- The trees of vm/src/std/owl_list.c, with and without size tables, as a predicate of their height.
pub mod Invariant
mod Tests
pub mod Slot
pub mod Level
pub mod Nth
pub mod Replace
pub mod Update
pub mod Pop
pub mod Sizes
pub mod Plan
pub mod Fill
pub mod Rebuild
pub mod Execute
pub mod Rebalance
pub mod Above
pub mod Concat
pub mod Built
pub mod Lists
pub mod Tail
pub mod Join
use owlang.Base.{
  ℕ, zero, suc, ◌+◌, ◌*◌, ◌^◌, ◌≤◌, ◌<◌, ◌≡◌, refl, ap, sym, ◌∙◌, arith, List, [], ◌∷◌, ◌++◌,
  length, map, sum, All, Option, none, some, append_assoc, append-nil, length-append, All-map,
}
use native.Mathlib.Nat.{mul-le-mul_right}
use native.Mathlib.Numerals.{towards_suc}
use owlang.Rrb.{Node, Nodes, Rrb, nodes_to_list, nodes_length, nodes_of_list, node_of}
use owlang.Rrb.View.{node_list, nodes_list, rrb_list}

-- The elements below some nodes, in order.
abbrev pub flat : List Node → List ℕ
flat [] = []
flat (c ∷ cs) = node_list c ++ flat cs

abbrev pub size : Node → ℕ
size c = length (node_list c)

-- The sums of sizes, from `acc` on: what a size table holds.
abbrev pub sums : ℕ → List Node → List ℕ
sums acc [] = []
sums acc (c ∷ cs) = (acc + size c) ∷ sums (acc + size c) cs

-- All nodes but the last are `P`, and the last one is `Q`.
abbrev pub Front : (Node → Type 0) → (Node → Type 0) → List Node → Type 0
Front P Q [] = ⊥
Front P Q (c ∷ []) = Q c
Front P Q (c ∷ d ∷ cs) = P c × Front P Q (d ∷ cs)

-- Every slot of the tree is taken.
abbrev pub Full : ℕ → Node → Type 0
Full zero (Node.leaf xs) = length xs ≡ 32
Full (suc h) (Node.internal none cs) =
    (length (nodes_to_list cs) ≡ 32) × All (Full h) (nodes_to_list cs)
Full _ _ = ⊥

-- A tree without size tables: what lies before its last path is full.
abbrev pub Radix : ℕ → Node → Type 0
Radix zero (Node.leaf xs) = (1 ≤ length xs) × (length xs ≤ 32)
Radix (suc h) (Node.internal none cs) =
    (length (nodes_to_list cs) ≤ 32) × Front (Full h) (Radix h) (nodes_to_list cs)
Radix _ _ = ⊥

-- A tree whose nodes have size tables down to where trees without them begin. A table holds the sums
-- of the children's sizes.
abbrev pub Tree : ℕ → Node → Type 0
Tree zero (Node.leaf xs) = (1 ≤ length xs) × (length xs ≤ 32)
Tree (suc h) (Node.internal none cs) = Radix (suc h) (Node.internal none cs)
Tree (suc h) (Node.internal (some table) cs) =
    (1 ≤ length (nodes_to_list cs))
    × (length (nodes_to_list cs) ≤ 32)
    × All (Tree h) (nodes_to_list cs)
    × (table ≡ sums 0 (nodes_to_list cs))
Tree _ _ = ⊥

pub nodes_list-flat : (cs : Nodes) → nodes_list cs ≡ flat (nodes_to_list cs)
unfolding node_list nodes_to_list
nodes_list-flat Nodes.nil = refl
nodes_list-flat (Nodes.cons c cs) = ap (λ xs. node_list c ++ xs) (nodes_list-flat cs)

pub nodes_length-list : (cs : Nodes) → nodes_length cs ≡ length (nodes_to_list cs)
unfolding nodes_length nodes_to_list
nodes_length-list Nodes.nil = refl
nodes_length-list (Nodes.cons c cs) = ap suc (nodes_length-list cs)

pub nodes_to_list-nodes_of_list : (cs : List Node) → nodes_to_list (nodes_of_list cs) ≡ cs
unfolding nodes_to_list nodes_of_list
nodes_to_list-nodes_of_list [] = refl
nodes_to_list-nodes_of_list (c ∷ cs) = ap (◌∷◌ c) (nodes_to_list-nodes_of_list cs)

pub flat-append : (cs ds : List Node) → flat (cs ++ ds) ≡ flat cs ++ flat ds
flat-append [] ds = refl
flat-append (c ∷ cs) ds =
    ap (λ xs. node_list c ++ xs) (flat-append cs ds)
    ∙ sym (append_assoc (node_list c) (flat cs) (flat ds))

-- `32 ^ (h + 1)`, the most elements that a tree of height `h` has
abbrev pub width : ℕ → ℕ
width zero = 32
width (suc h) = 32 * width h

pub width-pow : (h : ℕ) → 2 ^ (5 * suc h) ≡ width h
width-pow zero = refl
width-pow (suc h) =
    let less : 2 ^ (5 * suc h) ≡ width h = width-pow h in
    let e : 5 * suc (suc h) ≡ 5 * suc h + 5 = omega arith in
    rw e (simp towards_suc (omega (arith, less)))

width-pos : (h : ℕ) → 1 ≤ width h
width-pos zero = omega arith
width-pos (suc h) = omega (arith, width-pos h)

-- The elements below nodes that all have as many.
length-flat : (n : ℕ) (cs : List Node) → All (λ c. size c ≡ n) cs → length (flat cs) ≡ length cs * n
length-flat n [] e = omega arith
length-flat n (c ∷ cs) (e, es) =
    length-append (node_list c) (flat cs) ∙ (rw (e, length-flat n cs es) (omega arith))

-- The elements below nodes that have at most so many.
length-flat_le :
    (n : ℕ) (cs : List Node) → All (λ c. size c ≤ n) cs → length (flat cs) ≤ length cs * n
length-flat_le n [] e = omega arith
length-flat_le n (c ∷ cs) (e, es) =
    omega (arith, length-append {0} (node_list c) (flat cs), length-flat_le n cs es)

flat-pos : (cs : List Node) → 1 ≤ length cs → All (λ c. 1 ≤ size c) cs → 1 ≤ length (flat cs)
flat-pos [] n e = n
flat-pos (c ∷ cs) n (e, es) = omega (arith, length-append {0} (node_list c) (flat cs))

pub size-internal :
    (t : Option (List ℕ)) (cs : Nodes) → node_list (Node.internal t cs) ≡ flat (nodes_to_list cs)
unfolding node_list
size-internal t cs = nodes_list-flat cs

pub Full-size : (h : ℕ) (c : Node) → Full h c → size c ≡ width h
unfolding node_list
Full-size zero (Node.leaf xs) f = f
Full-size (suc h) (Node.internal none cs) (len, all) =
    ap length (nodes_list-flat cs)
    ∙ length-flat (width h) (nodes_to_list cs) (All-map (Full h) _ (Full-size h) _ all)
    ∙ (rw len refl)
Full-size _ _ f = absurd f

Front-map :
    (P P' Q Q' : Node → Type 0)
    → ((c : Node) → P c → P' c)
    → ((c : Node) → Q c → Q' c)
    → (cs : List Node) → Front P Q cs
    → Front P' Q' cs
Front-map P P' Q Q' f g [] h = h
Front-map P P' Q Q' f g (c ∷ []) h = g c h
Front-map P P' Q Q' f g (c ∷ d ∷ cs) (p, h) = (f c p, Front-map P P' Q Q' f g (d ∷ cs) h)

pub Front-All :
    (P Q R : Node → Type 0)
    → ((c : Node) → P c → R c)
    → ((c : Node) → Q c → R c)
    → (cs : List Node) → Front P Q cs
    → All R cs
Front-All P Q R f g [] h = absurd h
Front-All P Q R f g (c ∷ []) h = (g c h, tt)
Front-All P Q R f g (c ∷ d ∷ cs) (p, h) = (f c p, Front-All P Q R f g (d ∷ cs) h)

Front-pos : (P Q : Node → Type 0) (cs : List Node) → Front P Q cs → 1 ≤ length cs
Front-pos P Q [] h = absurd h
Front-pos P Q (c ∷ cs) h = omega arith

pub All-Front :
    (P Q : Node → Type 0)
    → ((c : Node) → P c → Q c)
    → (cs : List Node) → 1 ≤ length cs
    → All P cs
    → Front P Q cs
All-Front P Q f [] n h = absurd (omega arith)
All-Front P Q f (c ∷ []) n (p, h) = f c p
All-Front P Q f (c ∷ d ∷ cs) n (p, h) = (p, All-Front P Q f (d ∷ cs) (omega arith) h)

pub Radix-Tree : (h : ℕ) (c : Node) → Radix h c → Tree h c
Radix-Tree zero (Node.leaf xs) r = r
Radix-Tree (suc h) (Node.internal none cs) r = r
Radix-Tree _ _ r = absurd r

pub Full-Radix : (h : ℕ) (c : Node) → Full h c → Radix h c
Full-Radix zero (Node.leaf xs) f = omega arith
Full-Radix (suc h) (Node.internal none cs) (len, all) =
    (omega arith, All-Front (Full h) (Radix h) (Full-Radix h) (nodes_to_list cs) (omega arith) all)
Full-Radix _ _ f = absurd f

-- The children of an internal node are trees, whether it has a size table or not.
pub Tree-children :
    (h : ℕ) (t : Option (List ℕ)) (cs : Nodes)
    → Tree (suc h) (Node.internal t cs)
    → (1 ≤ length (nodes_to_list cs))
      × (length (nodes_to_list cs) ≤ 32)
      × All (Tree h) (nodes_to_list cs)
Tree-children h none cs (len, front) =
    let full = λ (c : Node) (f : Full h c). Radix-Tree h c (Full-Radix h c f) in
    (Front-pos _ _ _ front, len, Front-All _ _ _ full (Radix-Tree h) _ front)
Tree-children h (some table) cs (pos, len, all, e) = (pos, len, all)

-- A tree has an element, and no more than its height allows.
pub Tree-size : (h : ℕ) (c : Node) → Tree h c → (1 ≤ size c) × (size c ≤ width h)
unfolding node_list
Tree-size zero (Node.leaf xs) t = t
Tree-size (suc h) (Node.internal table cs) t =
    let (pos, len, all) = Tree-children h table cs t in
    let small =
      length-flat_le (width h) (nodes_to_list cs)
        (All-map (Tree h) _ (λ c t. (Tree-size h c t).1) _ all) in
    let some_element =
      flat-pos (nodes_to_list cs) pos (All-map (Tree h) _ (λ c t. (Tree-size h c t).0) _ all) in
    let most = mul-le-mul_right (width h) len in
    rw (nodes_list-flat cs) (some_element, omega (arith, small, most))
Tree-size _ _ t = absurd t
