-- ===== src/Rrb/Tree/Join.antt =====
-- `rrb_concat` of vm/src/std/owl_list.c, the left list one that pushing builds.
use owlang.Base.{
  ℕ, zero, suc, ◌+◌, ◌*◌, ◌^◌, ◌≤◌, ◌<◌, ◌≡◌, refl, ap, sym, ◌∙◌, subst, arith, List, [], ◌∷◌, ◌++◌,
  length, append-nil, length-append, ◌==◌, Bool-cases, inl, inr, true, false, if◌then◌else◌,
}
use owlang.Base.Outcome.{Outcome, done}
use owlang.Rrb.{Node, Rrb, Ref, deref}
use owlang.Rrb.Push.{is_null}
use owlang.Rrb.Concat.{concat_tail, concat_trees, rrb_concat}
use owlang.Rrb.View.{node_list, rrb_list}
use owlang.Rrb.Built.{IsBuilt, rrb_of, list_of, shape_leaves}
use owlang.Rrb.Built.Append.{rrb_count-IsBuilt}
use owlang.Rrb.Tree.{Tree}
use owlang.Rrb.Tree.Invariant.{IsTree, Root}
use owlang.Rrb.Tree.Built.{IsBuilt-IsTree, room, IsBuilt-PushesDown}
use owlang.Rrb.Tree.Tail.{Joined, tail-Joined}
use owlang.Rrb.Tree.Lists.{concat_trees-elements}

none_left : (xs : List ℕ) → length xs ≡ 0 → xs ≡ []
none_left [] e = refl
none_left (x ∷ xs) e = absurd (omega (arith, e))

null_node : (c : Node) → is_null c ≡ true → node_list c ≡ []
unfolding is_null node_list
null_node Node.null e = refl
null_node (Node.leaf xs) e = cc
null_node (Node.internal t cs) e = cc

-- The list with the elements of an empty one put before or behind.
no_elements : (r : Rrb) → IsTree r → r.cnt ≡ 0 → rrb_list r ≡ []
unfolding rrb_list
no_elements r t e =
    none_left (rrb_list r) (length-append (node_list r.root) r.tail ∙ omega (arith, e, t.cnt))

null_list : (r : Rrb) → is_null r.root ≡ true → rrb_list r ≡ r.tail
unfolding is_null rrb_list node_list
null_list r e = ap (λ xs. xs ++ r.tail) (null_node r.root e)

Root-Tree : (h : ℕ) (c : Node) → Root h c → is_null c ≡ false → Tree h c
unfolding is_null
Root-Tree zero Node.null r e = cc
Root-Tree zero (Node.leaf xs) r e = r
Root-Tree zero (Node.internal t cs) r e = r
Root-Tree (suc h) c r e = r

shape_tail : {r : Rrb} (b : IsBuilt r) → 1 ≤ r.tail_len → 1 ≤ length b.tail
unfolding rrb_of list_of
shape_tail b pos = subst (λ q. 1 ≤ q.tail_len) b.is_of pos

shape_count :
    {r : Rrb} (b : IsBuilt r) → r.cnt ≤ 2048 → 32 * shape_leaves b.shape + length b.tail ≤ 2048
unfolding rrb_of list_of
shape_count b small = subst (λ q. q.cnt ≤ 2048) b.is_of small

-- Both lists have elements.
module _ (l r : Rrb) (b : IsBuilt l) (pos : 1 ≤ l.tail_len) (small : l.cnt ≤ 2048) (t : IsTree r)
    (low : t.height ≤ 6) (small' : r.cnt + 2048 < 2 ^ 32) where
  join_tail : is_null r.root ≡ true → Joined (concat_tail l r) (rrb_list l ++ rrb_list r)
  join_tail e =
      let s = b.shape in
      let pos' : 1 ≤ length b.tail = shape_tail b pos in
      let small'' : 32 * shape_leaves s + length b.tail ≤ 2048 = shape_count b small in
      let cnt : r.cnt ≡ length r.tail = omega (arith, t.cnt, ap length (null_node r.root e)) in
      let j =
        tail-Joined s b.tail r b.fits (room s b.fits (omega (arith, pos', small''))) pos'
          b.tail_fits t.tail cnt t.tail_fits in
      subst (λ q. Joined (concat_tail q r) (rrb_list q ++ rrb_list r)) (sym b.is_of)
        (subst (λ xs. Joined (concat_tail (rrb_of s b.tail) r) (rrb_list (rrb_of s b.tail) ++ xs))
          (sym (null_list r e)) j)

  join_trees : is_null r.root ≡ false → Joined (concat_trees l r) (rrb_list l ++ rrb_list r)
  join_trees e =
      let p = IsBuilt-PushesDown b pos small in
      let (c, returns, tree, same) =
        concat_trees-elements p t low (Root-Tree t.height r.root t.root e)
          (omega (arith, rrb_count-IsBuilt b, small, small')) in
      record { list = c; returns = returns; tree = tree; elements = same }

-- What `rrb_concat` returns.
pub record JoinedRef (o : Outcome Ref) (xs : List ℕ) : Type 0 where
  pub list : Ref
  pub returns : o ≡ done list
  pub tree : IsTree (deref list)
  pub elements : rrb_list (deref list) ≡ xs

module _ (left right : Ref) where
  Joined-fresh :
      {xs : List ℕ}
      → Joined
          (if is_null (deref right).root
            then concat_tail (deref left) (deref right)
            else concat_trees (deref left) (deref right))
          xs
      → ((deref left).cnt == 0) ≡ false
      → ((deref right).cnt == 0) ≡ false
      → (c : Rrb) × (rrb_concat left right ≡ done (Ref.fresh c)) × IsTree c × (rrb_list c ≡ xs)
  unfolding rrb_concat
  Joined-fresh j e f = (j.list, rw (e, f, j.returns) refl, j.tree, j.elements)

  joined_right :
      IsBuilt (deref left)
      → IsTree (deref right)
      → ((deref left).cnt == 0) ≡ true
      → JoinedRef (rrb_concat left right) (rrb_list (deref left) ++ rrb_list (deref right))
  unfolding rrb_concat
  joined_right b t e = record {
    list = right;
    returns = rw e refl;
    tree = t;
    elements = sym (
        ap (λ xs. xs ++ rrb_list (deref right))
          (no_elements (deref left) (IsBuilt-IsTree b) (ground (arith, e))));
  }

  joined_left :
      IsBuilt (deref left)
      → IsTree (deref right)
      → ((deref left).cnt == 0) ≡ false
      → ((deref right).cnt == 0) ≡ true
      → JoinedRef (rrb_concat left right) (rrb_list (deref left) ++ rrb_list (deref right))
  unfolding rrb_concat
  joined_left b t e f = record {
    list = left;
    returns = rw (e, f) refl;
    tree = IsBuilt-IsTree b;
    elements = sym (
        ap (λ xs. rrb_list (deref left) ++ xs) (no_elements (deref right) t (ground (arith, f)))
        ∙ append-nil (rrb_list (deref left)));
  }

  -- Neither list is empty.
  pub rrb_concat-fresh :
      IsBuilt (deref left)
      → 1 ≤ (deref left).tail_len
      → (deref left).cnt ≤ 2048
      → (t : IsTree (deref right)) → t.height ≤ 6
      → (deref right).cnt + 2048 < 2 ^ 32
      → ((deref left).cnt == 0) ≡ false
      → ((deref right).cnt == 0) ≡ false
      → (c : Rrb) × (rrb_concat left right ≡ done (Ref.fresh c))
        × IsTree c
        × (rrb_list c ≡ rrb_list (deref left) ++ rrb_list (deref right))
  rrb_concat-fresh b pos small t low small' e f = elim (Bool-cases (is_null (deref right).root)) [
    | inl g ↦
        Joined-fresh (rw g (join_tail (deref left) (deref right) b pos small t low small' g)) e f
    | inr g ↦
        Joined-fresh (rw g (join_trees (deref left) (deref right) b pos small t low small' g)) e f
  ]

  -- For a list of up to 2048 elements that pushing built, with a tail if it is not empty, and any list
  -- that keeps the invariant, with a tree of height up to six and less than 2^32 - 2048 elements,
  -- `rrb_concat` returns a list that keeps it, with the elements of the left list and then of the
  -- right one.
  pub rrb_concat-elements :
      (b : IsBuilt (deref left))
      → (1 ≤ (deref left).cnt → 1 ≤ (deref left).tail_len)
      → (deref left).cnt ≤ 2048
      → (t : IsTree (deref right)) → t.height ≤ 6
      → (deref right).cnt + 2048 < 2 ^ 32
      → JoinedRef (rrb_concat left right) (rrb_list (deref left) ++ rrb_list (deref right))
  unfolding deref
  rrb_concat-elements b pos small t low small' = elim (Bool-cases ((deref left).cnt == 0)) [
    | inl e ↦ joined_right b t e
    | inr e ↦ elim (Bool-cases ((deref right).cnt == 0)) [
      | inl f ↦ joined_left b t e f
      | inr f ↦
          let (c, returns, tree, elements) =
            rrb_concat-fresh b (pos (ground (arith, e))) small t low small' e f in
          record { list = Ref.fresh c; returns = returns; tree = tree; elements = elements }
    ]
  ]
