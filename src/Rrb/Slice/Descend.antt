-- ===== src/Rrb/Slice/Descend.antt =====
-- `slice_left_rec` of vm/src/std/owl_list.c on trees without size tables.
use owlang.Base.{
  ℕ, zero, suc, ◌*◌, ◌^◌, ◌≤◌, ◌<◌, ◌≡◌, inl, inr, refl, ap, arith, true, false, none, All, List,
  length, drop, ltb, length-drop,
}
use owlang.Base.Outcome.{done}
use owlang.Rrb.{Node, dec_shift, nodes_to_list}
use owlang.Rrb.View.{node_list}
use owlang.Rrb.Slice.Left.{slice_left_rec, set_last_size}
use owlang.Rrb.Slice.Rest.{
  CutFull, CutTree, cut_single, cut_alone, cut_full, cut_sized, at_last, before_last, child_small,
}
use owlang.Rrb.Slice.After.{drop_at, drop-slot}
use owlang.Rrb.Tree.{
  Front-All, All-Front, flat, size, Front, Full, Radix, Radix-Tree, Full-Radix, Full-size,
  Tree-size, nodes_list-flat,
}

Front-children :
    (h : ℕ) (cs : List Node) → 1 ≤ length cs → All (Full h) cs → Front (Full h) (Full h) cs
Front-children h = All-Front (Full h) (Full h) (λ c f. f)

All-after : (h : ℕ) (cs : List Node) → Front (Full h) (Full h) cs → All (Full h) cs
All-after h = Front-All (Full h) (Full h) (Full h) (λ c f. f) (λ c f. f)

leaf-inside :
    (xs : List ℕ) (p : ℕ)
    → p < length xs
    → (1 ≤ length (drop p xs)) × (length (drop p xs) ≤ length xs)
leaf-inside xs p lt = (omega (arith, length-drop p xs), omega (arith, length-drop p xs))

set_last_size-leaf : (xs : List ℕ) (n : ℕ) → set_last_size (Node.leaf xs) 0 n ≡ done (Node.leaf xs)
unfolding set_last_size
set_last_size-leaf xs n = refl

-- Of a full tree the height is kept.
slice_left_rec-CutFull :
    (fuel h : ℕ) (c : Node) (p : ℕ)
    → Full h c
    → p < size c
    → size c < 2 ^ 32
    → h < fuel
    → h ≤ 6
    → CutFull h (slice_left_rec fuel c p (5 * h) true) (drop p (node_list c))
unfolding slice_left_rec node_list
slice_left_rec-CutFull zero h c p f lt small enough most = absurd (omega (arith, enough))
slice_left_rec-CutFull (suc fuel) zero (Node.leaf xs) p f lt small enough most =
    let inside : ltb (length xs) p ≡ false = ground arith in
    let (pos, fits) = leaf-inside xs p lt in
    record {
      node = Node.leaf (drop p xs);
      returns = rw inside refl;
      tree = (pos, omega (arith, fits, f));
      elements = refl;
    }
slice_left_rec-CutFull (suc fuel) (suc h) (Node.internal none cs) p (n, all) lt small enough most =
    let children = nodes_to_list cs in
    let len = ap length (nodes_list-flat cs) in
    let f = Front-children h children (omega (arith, n)) all in
    let s =
      drop_at h (Full h) (λ c f. omega (arith, Full-size h c f)) children p f
        (omega (arith, lt, len)) in
    let q = λ (c : Node) (f : Full h c). Radix-Tree h c (Full-Radix h c f) in
    let wide = Full-size (suc h) (Node.internal none cs) (n, all) in
    let higher : ltb 0 (5 * suc h) ≡ true = ground arith in
    let defined : ltb (5 * suc h) 32 ≡ true = ground arith in
    let down : dec_shift (5 * suc h) ≡ 5 * h = omega arith in
    let (slot, inner) = drop-slot h p (Full h) children s in
    let below = λ (f : Full h s.child).
      slice_left_rec-CutFull fuel h s.child s.inner f s.inside
        (omega (arith, Full-size h s.child f, wide, small)) (omega arith) (omega arith) in
    let fits : length children ≤ 32 = omega (arith, n) in
    let in_flat : p < length (flat children) = omega (arith, lt, len) in
    let small_flat : length (flat children) < 2 ^ 32 = omega (arith, small, len) in
    elim s.kind [
      | inl (alone, full) ↦
          let w =
            cut_single h p (Full h) q children fits s in_flat small_flat _ (omega arith) alone
              (below full) in
          rw
            (
              slice_left_rec,
              higher,
              defined,
              slot,
              inner,
              s.at,
              down,
              at_last h p (Full h) q children fits s in_flat small_flat alone,
              nodes_list-flat cs,
            )
            w
      | inr (pos, full, after) ↦
          let b = below full in
          let w =
            cut_full h p (Full h) q children fits s in_flat small_flat b.node b.tree b.elements full
              after _ pos (All-after h s.after after) b.returns in
          rw
            (
              slice_left_rec,
              higher,
              defined,
              slot,
              inner,
              s.at,
              down,
              before_last h p (Full h) q children fits s in_flat small_flat pos,
              nodes_list-flat cs,
            )
            w
    ]
slice_left_rec-CutFull (suc fuel) _ _ p f lt small enough most = absurd f

-- On a tree without size tables of a height below the fuel, `slice_left_rec` returns a node that
-- `set_last_size` makes a tree of the elements from the place `p` on.
pub slice_left_rec-CutTree :
    (fuel h : ℕ) (c : Node) (p : ℕ)
    → Radix h c
    → p < size c
    → size c < 2 ^ 32
    → h < fuel
    → h ≤ 6
    → CutTree h (slice_left_rec fuel c p (5 * h) false) (drop p (node_list c))
unfolding slice_left_rec node_list
slice_left_rec-CutTree zero h c p r lt small enough most = absurd (omega (arith, enough))
slice_left_rec-CutTree (suc fuel) zero (Node.leaf xs) p r lt small enough most =
    let inside : ltb (length xs) p ≡ false = ground arith in
    let (pos, fits) = leaf-inside xs p lt in
    record {
      node = Node.leaf (drop p xs);
      height = 0;
      fixed = Node.leaf (drop p xs);
      returns = rw inside refl;
      low = omega arith;
      repairs = set_last_size-leaf (drop p xs) (length (drop p xs));
      tree = (pos, omega (arith, fits, r.1));
      elements = refl;
    }
slice_left_rec-CutTree (suc fuel) (suc h) (Node.internal none cs) p (n, f) lt small enough most =
    let children = nodes_to_list cs in
    let len = ap length (nodes_list-flat cs) in
    let q = Radix-Tree h in
    let s =
      drop_at h (Radix h) (λ c r. (Tree-size h c (q c r)).1) children p f
        (omega (arith, lt, len)) in
    let higher : ltb 0 (5 * suc h) ≡ true = ground arith in
    let defined : ltb (5 * suc h) 32 ≡ true = ground arith in
    let down : dec_shift (5 * suc h) ≡ 5 * h = omega arith in
    let (slot, inner) = drop-slot h p (Radix h) children s in
    let in_flat : p < length (flat children) = omega (arith, lt, len) in
    let small_flat : length (flat children) < 2 ^ 32 = omega (arith, small, len) in
    let fits = child_small h p (Radix h) q children n s in_flat small_flat in
    elim s.kind [
      | inl (alone, radix) ↦
          let b =
            slice_left_rec-CutTree fuel h s.child s.inner radix s.inside fits (omega arith)
              (omega arith) in
          let w = cut_alone h p (Radix h) q children n s in_flat small_flat _ alone b in
          rw
            (
              slice_left_rec,
              higher,
              defined,
              slot,
              inner,
              s.at,
              down,
              at_last h p (Radix h) q children n s in_flat small_flat alone,
              nodes_list-flat cs,
            )
            w
      | inr (pos, full, after) ↦
          let b =
            slice_left_rec-CutFull fuel h s.child s.inner full s.inside fits (omega arith)
              (omega arith) in
          let w =
            cut_sized h p (Radix h) q children n s in_flat small_flat b.node b.tree b.elements full
              after _ pos b.returns in
          rw
            (
              slice_left_rec,
              higher,
              defined,
              slot,
              inner,
              s.at,
              down,
              before_last h p (Radix h) q children n s in_flat small_flat pos,
              nodes_list-flat cs,
            )
            w
    ]
slice_left_rec-CutTree (suc fuel) _ _ p f lt small enough most = absurd f
