-- ===== src/Rrb/Tree/Replace.antt =====
-- What `rrb_update` of vm/src/std/owl_list.c does to a node above the one that changes.
use owlang.Base.{
  ℕ, zero, suc, ◌+◌, ◌≤◌, ◌≡◌, refl, ap, sym, ◌∙◌, subst, arith, List, [], ◌∷◌, length, All, set,
  Option, length-set, All-set, ltb, true,
}
use owlang.Base.Outcome.{done-injective, Outcome, done}
use owlang.Rrb.{Node, Nodes, nodes_to_list, nodes_set, nodes_length, read_node}
use owlang.Rrb.Push.{write_child}
use owlang.Rrb.Update.{update_node, child_slot}
use owlang.Rrb.View.{node_list}
use owlang.Rrb.Tree.{flat, size, sums, Front, Full, Radix, Tree, nodes_list-flat, nodes_length-list}
use owlang.Rrb.Tree.Slot.{Slot, nodes_get-read_node}
use owlang.Rrb.Tree.Nth.{read_node-All}

nodes_set-list :
    (cs : Nodes) (k : ℕ) (c : Node) → nodes_to_list (nodes_set cs k c) ≡ set (nodes_to_list cs) k c
unfolding nodes_set nodes_to_list
nodes_set-list Nodes.nil k c = refl
nodes_set-list (Nodes.cons d cs) zero c = refl
nodes_set-list (Nodes.cons d cs) (suc k) c = ap (◌∷◌ d) (nodes_set-list cs k c)

Front-cons :
    (P Q : Node → Type 0) (c : Node) (cs : List Node)
    → P c
    → 1 ≤ length cs
    → Front P Q cs
    → Front P Q (c ∷ cs)
Front-cons P Q c [] p pos f = absurd f
Front-cons P Q c (d ∷ cs) p pos f = (p, f)

Front-set :
    (P Q : Node → Type 0) (cs : List Node) (k : ℕ) (c c' : Node)
    → Front P Q cs
    → read_node cs k ≡ done c
    → (P c → P c')
    → (Q c → Q c')
    → Front P Q (set cs k c')
unfolding read_node
Front-set P Q [] k c c' f e p q = absurd f
Front-set P Q (d ∷ []) zero c c' f e p q = q (subst Q (done-injective e) f)
Front-set P Q (d ∷ []) (suc k) c c' f e p q = f
Front-set P Q (d ∷ d' ∷ cs) zero c c' (f, fs) e p q = (p (subst P (done-injective e) f), fs)
Front-set P Q (d ∷ d' ∷ []) (suc zero) c c' (f, fs) e p q = (f, q (subst Q (done-injective e) fs))
Front-set P Q (d ∷ d' ∷ []) (suc (suc k)) c c' (f, fs) e p q = (f, fs)
Front-set P Q (d ∷ d' ∷ d'' ∷ cs) (suc k) c c' (f, fs) e p q =
    Front-cons P Q d (set (d' ∷ d'' ∷ cs) k c') f (omega (arith, length-set (d' ∷ d'' ∷ cs) k c'))
      (Front-set P Q (d' ∷ d'' ∷ cs) k c c' fs e p q)

sums-set :
    (acc : ℕ) (cs : List Node) (k : ℕ) (c c' : Node)
    → read_node cs k ≡ done c
    → size c' ≡ size c
    → sums acc (set cs k c') ≡ sums acc cs
unfolding read_node
sums-set acc [] k c c' e same = refl
sums-set acc (d ∷ cs) zero c c' e same =
    let same' : acc + size c' ≡ acc + size d = omega (arith, same, ap size (done-injective e)) in
    ap (λ n. n ∷ sums n cs) same'
sums-set acc (d ∷ cs) (suc k) c c' e same =
    ap (λ xs. (acc + size d) ∷ xs) (sums-set (acc + size d) cs k c c' e same)

-- A node in which the element at the place `p` has been replaced; it is a tree where the old one is.
pub record Updated (o : Outcome Node) (h p elt : ℕ) (c : Node) : Type 0 where
  pub node : Node
  pub returns : o ≡ done node
  pub elements : node_list node ≡ set (node_list c) p elt
  pub full : Full h c → Full h node
  pub radix : Radix h c → Radix h node
  pub tree : Tree h c → Tree h node

-- The node above: its child at the slot is replaced.
module _ (h p elt : ℕ) (table : Option (List ℕ)) (cs : Nodes) (s : Slot (nodes_to_list cs) p)
    (o : Outcome Node) (u : Updated o h s.inner elt s.child) where
  unfoldable pub above : Node
  above = Node.internal table (nodes_set cs s.k u.node)

  above_list : nodes_to_list (nodes_set cs s.k u.node) ≡ set (nodes_to_list cs) s.k u.node
  above_list = nodes_set-list cs s.k u.node

  pub above-elements : node_list above ≡ set (node_list (Node.internal table cs)) p elt
  unfolding node_list above
  above-elements =
      nodes_list-flat (nodes_set cs s.k u.node)
      ∙ ap flat above_list
      ∙ s.written u.node elt u.elements
      ∙ ap (λ xs. set xs p elt) (sym (nodes_list-flat cs))

  pub above-All :
      (P : Node → Type 0)
      → (P s.child → P u.node)
      → All P (nodes_to_list cs)
      → All P (nodes_to_list (nodes_set cs s.k u.node))
  above-All P keep all = rw above_list (
      All-set P (nodes_to_list cs) s.k u.node all
        (keep (read_node-All P (nodes_to_list cs) s.k s.child all s.at)))

  pub length-above : length (nodes_to_list (nodes_set cs s.k u.node)) ≡ length (nodes_to_list cs)
  length-above = ap length above_list ∙ length-set (nodes_to_list cs) s.k u.node

  pub Front-above :
      Front (Full h) (Radix h) (nodes_to_list cs)
      → Front (Full h) (Radix h) (nodes_to_list (nodes_set cs s.k u.node))
  Front-above front =
      rw above_list (
        Front-set (Full h) (Radix h) (nodes_to_list cs) s.k s.child u.node front s.at u.full
          u.radix)

  pub sums-above : sums 0 (nodes_to_list (nodes_set cs s.k u.node)) ≡ sums 0 (nodes_to_list cs)
  sums-above =
      ap (sums 0) above_list
      ∙ sums-set 0 (nodes_to_list cs) s.k s.child u.node s.at
          (ap length u.elements ∙ length-set (node_list s.child) s.inner elt)

  pub update_node-above :
      (rec : ℕ → Node → Outcome Node) (shift index index' : ℕ)
      → child_slot table index shift ≡ done (s.k, index')
      → rec index' s.child ≡ o
      → update_node rec shift index (Node.internal table cs) ≡ done above
  unfolding update_node write_child above
  update_node-above rec shift index index' slot below =
      let at = nodes_get-read_node cs s.k ∙ s.at in
      let inside : ltb s.k (nodes_length cs) ≡ true =
        ground (arith, nodes_length-list cs, s.bound) in
      rw (slot, at, below, u.returns, inside) refl
