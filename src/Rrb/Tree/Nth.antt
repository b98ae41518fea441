-- ===== src/Rrb/Tree/Nth.antt =====
-- `rrb_nth` of vm/src/std/owl_list.c on trees with and without size tables.
use owlang.Base.{
  ℕ, zero, suc, ◌+◌, ◌-◌, ◌*◌, ◌/◌, ◌%◌, ◌^◌, ◌≤◌, ◌<◌, ◌≡◌, refl, ap, sym, subst, ◌∙◌, arith, List,
  [], ◌∷◌, ◌++◌, length, All, none, some, length-append, get_elem?, get_elem?-append_left,
  get_elem?-append_right, get_elem?-ge, ltb, leb, Bool-cases, inl, inr, false, ◌==◌,
}
use owlang.Base.Outcome.{done-injective, done}
use owlang.Rrb.{Node, Nodes, Rrb, dec_shift, sub32, nodes_to_list, read, read_node}
use owlang.Rrb.Nth.{rrb_nth, nth_descend, nth_step, max_levels, sized, leaf_child}
use owlang.Rrb.View.{node_list, rrb_list}
use owlang.Rrb.Tree.Invariant.{Root, IsTree}
use owlang.Rrb.Tree.Level.{radix-digit, radix-level, sized-slot}
use owlang.Rrb.Tree.Slot.{Slot, nodes_get-read_node}
use owlang.Rrb.Tree.{flat, size, sums, Radix, Tree, width, nodes_list-flat}

-- A read inside an array is the element there.
read-get_elem? :
    (xs : List ℕ) (i : ℕ)
    → i < length xs
    → (v : ℕ) × (read xs i ≡ done v) × (get_elem? xs i ≡ some v)
unfolding read
read-get_elem? [] i h = absurd (omega arith)
read-get_elem? (x ∷ xs) zero h = (x, refl, refl)
read-get_elem? (x ∷ xs) (suc i) h = read-get_elem? xs i (omega arith)

-- Where the descent from `c` at height `h` ends for `index`, when the place `p` of the elements below
-- `c` is meant.
record Found (fuel h index p : ℕ) (c : Node) : Type 0 where
  pub items : List ℕ
  pub index' : ℕ
  pub value : ℕ
  pub descends : nth_descend fuel (5 * h) index c ≡ done (Node.leaf items, index')
  pub at_item : read items (index' % 32) ≡ done value
  pub found : get_elem? (node_list c) p ≡ some value

-- One level of the descent.
descend-step :
    (fuel h index index' : ℕ) (c c' : Node)
    → h < 8
    → nth_step (5 * suc h) index c ≡ done (c', index')
    → nth_descend (suc fuel) (5 * suc h) index c ≡ nth_descend fuel (5 * h) index' c'
unfolding nth_descend
descend-step fuel h index index' c c' lt e =
    let down : dec_shift (5 * suc h) ≡ 5 * h = omega arith in
    let deeper : (5 * suc h == 0) ≡ false = ground arith in rw (nth_descend, deeper, e, down) refl

radix-step :
    (h index k : ℕ) (t : Node) (cs : Nodes)
    → read_node (nodes_to_list cs) k ≡ done t
    → index / width h % 32 ≡ k
    → h ≤ 5
    → nth_step (5 * suc h) index (Node.internal none cs) ≡ done (t, index)
unfolding nth_step
radix-step h index k t cs at digit low =
    let at' = nodes_get-read_node cs k ∙ at in rw (radix-digit h index k low digit, at') refl

Radix-Found :
    (fuel h index high p : ℕ) (c : Node)
    → h < fuel
    → h ≤ 6
    → Radix h c
    → index ≡ high * width h + p
    → p < size c
    → Found fuel h index p c
unfolding nth_descend node_list
Radix-Found (suc fuel) zero index high p (Node.leaf xs) lt le r e small =
    let (v, at_v, found) = read-get_elem? xs p small in
    let same : index % 32 ≡ p = omega arith in
    record {
      items = xs;
      index' = index;
      value = v;
      descends = refl;
      at_item = rw same at_v;
      found = found;
    }
Radix-Found (suc fuel) (suc h) index high p (Node.internal none cs) lt le (len, front) e small =
    let (s, r, low, e') =
      radix-level h index high p (nodes_to_list cs) len front e
        (rw (sym (nodes_list-flat cs)) small) in
    let rest =
      Radix-Found fuel h index (high * 32 + s.k) s.inner s.child (omega arith) (omega arith) r e'
        s.inside in
    record {
      items = rest.items;
      index' = rest.index';
      value = rest.value;
      descends =
          descend-step fuel h index index (Node.internal none cs) s.child (omega arith)
            (radix-step h index s.k s.child cs s.at low (omega arith))
          ∙ rest.descends;
      at_item = rest.at_item;
      found = ap (λ xs. get_elem? xs p) (nodes_list-flat cs) ∙ s.same ∙ rest.found;
    }
Radix-Found (suc fuel) _ index high p _ lt le r e small = absurd r
Radix-Found zero h index high p c lt le r e small = absurd (omega (arith, lt))

sized-step :
    (h p : ℕ) (cs : Nodes)
    → All (Tree h) (nodes_to_list cs)
    → p < length (flat (nodes_to_list cs))
    → p < 2 ^ 32
    → h ≤ 5
    → (s : Slot (nodes_to_list cs) p) × (nth_step
          (5 * suc h)
          p
          (Node.internal (some (sums 0 (nodes_to_list cs))) cs)
        ≡ done (s.child, s.inner))
unfolding nth_step sized
sized-step h p cs all lt small low =
    let (s, pos) = sized-slot h p cs all lt small low in
    let at = nodes_get-read_node cs s.k ∙ s.at in (s, rw (pos, at) refl)

pub read_node-All :
    (P : Node → Type 0) (cs : List Node) (k : ℕ) (c : Node)
    → All P cs
    → read_node cs k ≡ done c
    → P c
unfolding read_node
read_node-All P (d ∷ cs) zero c (p, all) e = subst P (done-injective e) p
read_node-All P (d ∷ cs) (suc k) c (p, all) e = read_node-All P cs k c all e
read_node-All P [] k c all e = cc

Tree-Found :
    (fuel h p : ℕ) (c : Node)
    → h < fuel
    → h ≤ 6
    → Tree h c
    → p < size c
    → p < 2 ^ 32
    → Found fuel h p p c
unfolding nth_descend node_list
Tree-Found (suc fuel) zero p (Node.leaf xs) lt le r small w32 =
    Radix-Found (suc fuel) 0 p 0 p (Node.leaf xs) lt le r (omega arith) small
Tree-Found (suc fuel) (suc h) p (Node.internal none cs) lt le r small w32 =
    Radix-Found (suc fuel) (suc h) p 0 p (Node.internal none cs) lt le r (omega arith) small
Tree-Found (suc fuel) (suc h) p (Node.internal (some table) cs) lt le (one, len, all, e) small w32 =
    let (s, step) = sized-step h p cs all (rw (sym (nodes_list-flat cs)) small) w32 (omega arith) in
    let t = read_node-All (Tree h) (nodes_to_list cs) s.k s.child all s.at in
    let rest =
      Tree-Found fuel h s.inner s.child (omega arith) (omega arith) t s.inside
        (omega (arith, s.place)) in
    record {
      items = rest.items;
      index' = rest.index';
      value = rest.value;
      descends =
          descend-step fuel h p s.inner (Node.internal (some table) cs) s.child (omega arith)
            (rw e step)
          ∙ rest.descends;
      at_item = rest.at_item;
      found = ap (λ xs. get_elem? xs p) (nodes_list-flat cs) ∙ s.same ∙ rest.found;
    }
Tree-Found (suc fuel) _ p _ lt le r small w32 = absurd r
Tree-Found zero h p c lt le r small w32 = absurd (omega (arith, lt))

-- A root that holds a place is not NULL.
pub Root-Tree : (h p : ℕ) (c : Node) → Root h c → p < size c → Tree h c
unfolding node_list
Root-Tree zero p Node.null r lt = absurd (omega (arith, lt))
Root-Tree zero p (Node.leaf xs) r lt = r
Root-Tree zero p (Node.internal t cs) r lt = r
Root-Tree (suc h) p c r lt = r

-- The three places where `rrb_nth` looks: past the end, in the tail, below the root.
module _ (r : Rrb) (t : IsTree r) (top : t.height ≤ 6) (i : ℕ) where
  nth_past : r.cnt ≤ i → rrb_nth r i ≡ done (get_elem? (rrb_list r) i)
  unfolding rrb_nth rrb_list
  nth_past past =
      rw
        (get_elem?-ge (node_list r.root ++ r.tail) i
          (omega (arith, length-append {0} (node_list r.root) r.tail, t.cnt)))
        (ground arith)

  nth_tail : size r.root ≤ i → i < r.cnt → rrb_nth r i ≡ done (get_elem? (rrb_list r) i)
  unfolding rrb_nth rrb_list
  nth_tail lo hi =
      let (v, e, g) = read-get_elem? r.tail (i - size r.root) (omega (arith, t.cnt)) in
      let offset : sub32 r.cnt r.tail_len ≡ size r.root = omega (arith, t.cnt, t.tail, t.small) in
      let found : get_elem? (node_list r.root ++ r.tail) i ≡ some v =
        get_elem?-append_right (node_list r.root) r.tail i lo ∙ g in
      rw (found, offset) (ground arith)

  nth_below : i < size r.root → rrb_nth r i ≡ done (get_elem? (rrb_list r) i)
  unfolding rrb_nth rrb_list leaf_child
  nth_below lo =
      let here =
        Tree-Found max_levels t.height i r.root (omega (arith, top)) top
          (Root-Tree t.height i r.root t.root lo) lo (omega (arith, t.cnt, t.small)) in
      let inside : leb r.cnt i ≡ false = ground (arith, t.cnt) in
      let above : leb (sub32 r.cnt r.tail_len) i ≡ false = ground (arith, t.cnt, t.tail, t.small) in
      let go : nth_descend max_levels r.shift i r.root ≡ done (Node.leaf here.items, here.index') =
        ap (λ s. nth_descend max_levels s i r.root) t.shift ∙ here.descends in
      let found : get_elem? (node_list r.root ++ r.tail) i ≡ some here.value =
        get_elem?-append_left (node_list r.root) r.tail i lo ∙ here.found in
      rw (inside, above, go, here.at_item, found) refl

-- On every list that keeps the invariant, with or without size tables, of height up to six,
-- `rrb_nth` is the element of
-- the list at the index, and NULL exactly past the end; it reads no memory that is not the tree's.
pub rrb_nth-elements :
    {r : Rrb} (t : IsTree r)
    → t.height ≤ 6
    → (i : ℕ) → rrb_nth r i ≡ done (get_elem? (rrb_list r) i)
rrb_nth-elements {r} t top i = elim (Bool-cases (ltb i (size r.root))) [
  | inl below ↦ nth_below r t top i (ground arith)
  | inr above ↦ elim (Bool-cases (ltb i r.cnt)) [
    | inl inside ↦ nth_tail r t top i (ground arith) (ground arith)
    | inr past ↦ nth_past r t top i (ground arith)
  ]
]
