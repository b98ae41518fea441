-- ===== src/Rrb/Tree/Update.antt =====
-- `rrb_update` of vm/src/std/owl_list.c on trees with and without size tables.
use owlang.Base.{
  ℕ, zero, suc, ◌+◌, ◌-◌, ◌*◌, ◌%◌, ◌^◌, ◌≤◌, ◌<◌, ◌≡◌, refl, ap, sym, ◌∙◌, arith, List, ◌++◌,
  length, set, none, some, length-set, set-append_left, set-append_right, ltb, leb, ◌==◌,
  Bool-cases, inl, inr, true, false,
}
use owlang.Base.Outcome.{Outcome, done}
use owlang.Rrb.{Node, Nodes, Rrb, nodes_to_list, dec_shift, sub32}
use owlang.Rrb.Nth.{max_levels}
use owlang.Rrb.Push.{write}
use owlang.Rrb.Update.{rrb_update, update_descend, update_node, update_leaf, child_slot}
use owlang.Rrb.View.{node_list, rrb_list}
use owlang.Rrb.Tree.{size, Full, Radix, Tree, width, nodes_list-flat}
use owlang.Rrb.Tree.Slot.{Slot}
use owlang.Rrb.Tree.Level.{radix-digit, radix-level, sized-slot}
use owlang.Rrb.Tree.Nth.{read_node-All, Root-Tree}
use owlang.Rrb.Tree.Replace.{
  Updated, above, above-elements, above-All, length-above, Front-above, sums-above,
  update_node-above,
}
use owlang.Rrb.Tree.Invariant.{Tree-Root, IsTree}

Updated-leaf :
    (index p elt : ℕ) (xs : List ℕ)
    → index % 32 ≡ p
    → p < length xs
    → Updated (update_leaf index elt (Node.leaf xs)) 0 p elt (Node.leaf xs)
unfolding update_leaf node_list
Updated-leaf index p elt xs e lt =
    let size = length-set xs p elt in
    let inside : ltb p (length xs) ≡ true = ground (arith, lt) in
    record {
      node = Node.leaf (set xs p elt);
      returns = rw (e, inside) refl;
      elements = refl;
      full = λ f. size ∙ f;
      radix = λ (one, most). (omega (arith, size, one), omega (arith, size, most));
      tree = λ (one, most). (omega (arith, size, one), omega (arith, size, most));
    }

Updated-radix :
    (h p elt : ℕ) (cs : Nodes) (s : Slot (nodes_to_list cs) p) (o o' : Outcome Node)
    (u : Updated o h s.inner elt s.child)
    → o' ≡ done (above h p elt none cs s o u)
    → Updated o' (suc h) p elt (Node.internal none cs)
unfolding above
Updated-radix h p elt cs s o o' u e = record {
  node = above h p elt none cs s o u;
  returns = e;
  elements = above-elements h p elt none cs s o u;
  full = λ (len, all). (
    length-above h p elt none cs s o u ∙ len,
    above-All h p elt none cs s o u (Full h) u.full all,
  );
  radix = λ (len, front). (
    omega (arith, len, length-above h p elt none cs s o u),
    Front-above h p elt none cs s o u front,
  );
  tree = λ (len, front). (
    omega (arith, len, length-above h p elt none cs s o u),
    Front-above h p elt none cs s o u front,
  );
}

Updated-sized :
    (h p elt : ℕ) (table : List ℕ) (cs : Nodes) (s : Slot (nodes_to_list cs) p)
    (o o' : Outcome Node) (u : Updated o h s.inner elt s.child)
    → o' ≡ done (above h p elt (some table) cs s o u)
    → Updated o' (suc h) p elt (Node.internal (some table) cs)
unfolding above
Updated-sized h p elt table cs s o o' u e =
    let len = length-above h p elt (some table) cs s o u in
    record {
      node = above h p elt (some table) cs s o u;
      returns = e;
      elements = above-elements h p elt (some table) cs s o u;
      full = λ f. absurd f;
      radix = λ f. absurd f;
      tree = λ (pos, most, all, same). (
        omega (arith, pos, len),
        omega (arith, most, len),
        above-All h p elt (some table) cs s o u (Tree h) u.tree all,
        same ∙ sym (sums-above h p elt (some table) cs s o u),
      );
    }

-- One level of the descent.
descend-above :
    (fuel h elt index : ℕ) (c : Node)
    → h < 8
    → update_descend (suc fuel) (5 * suc h) elt index c
      ≡ update_node (update_descend fuel (5 * h) elt) (5 * suc h) index c
unfolding update_descend
descend-above fuel h elt index c lt =
    let down : dec_shift (5 * suc h) ≡ 5 * h = omega arith in
    let deeper : (5 * suc h == 0) ≡ false = ground arith in rw (update_descend, deeper, down) refl

Radix-Updated :
    (fuel h index high p elt : ℕ) (c : Node)
    → h < fuel
    → h ≤ 6
    → Radix h c
    → index ≡ high * width h + p
    → p < size c
    → Updated (update_descend fuel (5 * h) elt index c) h p elt c
unfolding update_descend node_list child_slot
Radix-Updated (suc fuel) zero index high p elt (Node.leaf xs) lt le (one, most) e small =
    Updated-leaf index p elt xs (omega (arith, e, small, most)) small
Radix-Updated (suc fuel) (suc h) index high p elt (Node.internal none cs) lt le (len, front) e
      small =
    let (s, r, low, e') =
      radix-level h index high p (nodes_to_list cs) len front e
        (rw (sym (nodes_list-flat cs)) small) in
    let u =
      Radix-Updated fuel h index (high * 32 + s.k) s.inner elt s.child (omega arith) (omega arith) r
        e' s.inside in
    let slot = radix-digit h index s.k (omega arith) low in
    Updated-radix h p elt cs s _
      (update_descend (suc fuel) (5 * suc h) elt index (Node.internal none cs)) u
      (descend-above fuel h elt index (Node.internal none cs) (omega arith)
        ∙ update_node-above h p elt none cs s _ u (update_descend fuel (5 * h) elt) (5 * suc h)
            index index (rw slot refl) refl)
Radix-Updated (suc fuel) _ index high p elt _ lt le r e small = absurd r
Radix-Updated zero h index high p elt c lt le r e small = absurd (omega (arith, lt))

Tree-Updated :
    (fuel h p elt : ℕ) (c : Node)
    → h < fuel
    → h ≤ 6
    → Tree h c
    → p < size c
    → p < 2 ^ 32
    → Updated (update_descend fuel (5 * h) elt p c) h p elt c
unfolding update_descend node_list child_slot
Tree-Updated (suc fuel) zero p elt (Node.leaf xs) lt le t small w32 =
    Radix-Updated (suc fuel) 0 p 0 p elt (Node.leaf xs) lt le t (omega arith) small
Tree-Updated (suc fuel) (suc h) p elt (Node.internal none cs) lt le t small w32 =
    Radix-Updated (suc fuel) (suc h) p 0 p elt (Node.internal none cs) lt le t (omega arith) small
Tree-Updated (suc fuel) (suc h) p elt (Node.internal (some table) cs) lt le (one, len, all, e) small
      w32 =
    let (s, pos) = sized-slot h p cs all (rw (sym (nodes_list-flat cs)) small) w32 (omega arith) in
    let t = read_node-All (Tree h) (nodes_to_list cs) s.k s.child all s.at in
    let u =
      Tree-Updated fuel h s.inner elt s.child (omega arith) (omega arith) t s.inside
        (omega (arith, s.place)) in
    Updated-sized h p elt table cs s _
      (update_descend (suc fuel) (5 * suc h) elt p (Node.internal (some table) cs)) u
      (descend-above fuel h elt p (Node.internal (some table) cs) (omega arith)
        ∙ update_node-above h p elt (some table) cs s _ u (update_descend fuel (5 * h) elt)
            (5 * suc h) p s.inner (rw e pos) refl)
Tree-Updated (suc fuel) _ p elt _ lt le t small w32 = absurd t
Tree-Updated zero h p elt c lt le t small w32 = absurd (omega (arith, lt))

-- What an update of a list returns.
pub record UpdatedList (r : Rrb) (i elt : ℕ) : Type 0 where
  pub list : Rrb
  pub returns : rrb_update r i elt ≡ done (some list)
  pub tree : IsTree list
  pub elements : rrb_list list ≡ set (rrb_list r) i elt

module _ (r : Rrb) (t : IsTree r) (top : t.height ≤ 6) (i elt : ℕ) (lt : i < r.cnt) where
  update_in_tail : size r.root ≤ i → UpdatedList r i elt
  unfolding rrb_update rrb_list write
  update_in_tail lo =
      let offset : sub32 r.cnt r.tail_len ≡ size r.root = omega (arith, t.cnt, t.tail, t.small) in
      let len = length-set r.tail (i - size r.root) elt in
      record {
        list = record r { tail = set r.tail (i - size r.root) elt };
        returns = rw offset (ground (arith, t.cnt));
        tree = record {
          height = t.height;
          levels = t.levels;
          shift = t.shift;
          root = t.root;
          tail = t.tail ∙ sym len;
          tail_fits = omega (arith, len, t.tail_fits);
          cnt = omega (arith, len, t.cnt);
          small = t.small;
        };
        elements = sym (set-append_right (node_list r.root) r.tail i elt lo);
      }

  update_below : i < size r.root → UpdatedList r i elt
  unfolding rrb_update rrb_list
  update_below lo =
      let tree = Root-Tree t.height i r.root t.root lo in
      let u =
        Tree-Updated max_levels t.height i elt r.root (omega (arith, top)) top tree lo
          (omega (arith, t.cnt, t.small)) in
      let inside : leb r.cnt i ≡ false = ground (arith, lt) in
      let above_tail : leb (sub32 r.cnt r.tail_len) i ≡ false =
        ground (arith, t.cnt, t.tail, t.small) in
      let len = ap length u.elements ∙ length-set (node_list r.root) i elt in
      let go = ap (λ s. update_descend max_levels s elt i r.root) t.shift ∙ u.returns in
      record {
        list = record r { root = u.node };
        returns = rw (inside, above_tail, go) refl;
        tree = record {
          height = t.height;
          levels = t.levels;
          shift = t.shift;
          root = Tree-Root t.height u.node (u.tree tree);
          tail = t.tail;
          tail_fits = t.tail_fits;
          cnt = omega (arith, len, t.cnt);
          small = t.small;
        };
        elements =
            ap (λ xs. xs ++ r.tail) u.elements
            ∙ sym (set-append_left (node_list r.root) r.tail i elt lo);
      }

-- On every list that keeps the invariant, with or without size tables, of height up to six, and
-- below its count, `rrb_update` returns a list that keeps it, in which the element at the index alone is replaced.
pub rrb_update-set :
    (r : Rrb) (t : IsTree r) → t.height ≤ 6 → (i elt : ℕ) → i < r.cnt → UpdatedList r i elt
rrb_update-set r t top i elt lt = elim (Bool-cases (ltb i (size r.root))) [
  | inl below ↦ update_below r t top i elt lt (ground arith)
  | inr above ↦ update_in_tail r t top i elt lt (ground arith)
]
