-- ===== src/Rrb/Slice/Right.antt =====
-- `slice_right_rec` of vm/src/std/owl_list.c on trees without size tables.
use owlang.Base.{
  ℕ, zero, suc, ◌+◌, ◌*◌, ◌≤◌, ◌<◌, ◌≡◌, inl, inr, refl, sym, subst, ◌∙◌, ap, arith, Bool, true,
  false, not, ◌||◌, Bool-cases, none, List, [], ◌∷◌, ◌++◌, length, take, ltb, leb, ◌==◌,
  length-append, append-nil, length-take,
}
use owlang.Base.Outcome.{Outcome, done, ◌>>=◌}
use owlang.Rrb.{Node, dec_shift, nodes_to_list, nodes_of_list, node_of}
use owlang.Rrb.View.{node_list}
use owlang.Rrb.Slice.{Sliced, wrap_right, table_right, slice_right_rec}
use owlang.Rrb.Slice.Cut.{CutAt, cut_at, cut-slot}
use owlang.Rrb.Tree.{
  flat, size, Front, Full, Radix, nodes_list-flat, nodes_to_list-nodes_of_list, size-internal,
}

-- A tree that is not just a path of single children to another one.
abbrev pub Thick : ℕ → Node → Type 0
Thick zero c = Unit
Thick (suc h) (Node.internal t cs) = 2 ≤ length (nodes_to_list cs)
Thick _ _ = ⊥

-- What the cut of a tree of height `h` returns: a tree with the elements `xs`, of the same height
-- where there is something on its left, and else a thick one.
pub record SlicedTree (h : ℕ) (has_left : Bool) (o : Outcome Sliced) (xs : List ℕ) : Type 0 where
  pub node : Node
  pub height : ℕ
  pub returns : o ≡ done (node, 5 * height)
  pub radix : Radix height node
  pub elements : node_list node ≡ xs
  pub low : height ≤ h
  pub kept : has_left ≡ true → height ≡ h
  pub thick : has_left ≡ false → Thick height node

pub node_of-Radix :
    (h : ℕ) (cs : List Node)
    → length cs ≤ 32
    → Front (Full h) (Radix h) cs
    → Radix (suc h) (node_of none cs)
unfolding node_of
node_of-Radix h cs len f = rw (nodes_to_list-nodes_of_list cs) (len, f)

pub node_of-Thick : (h : ℕ) (cs : List Node) → 2 ≤ length cs → Thick (suc h) (node_of none cs)
unfolding node_of
node_of-Thick h cs len = rw (nodes_to_list-nodes_of_list cs) len

pub node_list-node_of : (cs : List Node) → node_list (node_of none cs) ≡ flat cs
unfolding node_of
node_list-node_of cs =
    size-internal none (nodes_of_list cs) ∙ ap flat (nodes_to_list-nodes_of_list cs)

module _ (h p : ℕ) (cs : List Node) (len : length cs ≤ 32) (s : CutAt h cs p) where
  abbrev cut_children : Node → List Node
  cut_children node = take s.k cs ++ node ∷ []

  length-cut_children : (node : Node) → length (cut_children node) ≡ s.k + 1
  length-cut_children node =
      length-append (take s.k cs) (node ∷ [])
      ∙ ap (λ n. n + 1) (length-take s.k cs (omega (arith, s.bound)))

  -- Wrapped in a node, the cut child and those before it are a tree of the same height.
  wrapped :
      (has_left : Bool) (node : Node)
      → Radix h node
      → node_list node ≡ take (s.inner + 1) (node_list s.child)
      → (has_left ≡ false → 1 ≤ s.k)
      → SlicedTree
          (suc h)
          has_left
          (done (node_of none (cut_children node), 5 * suc h))
          (take (p + 1) (flat cs))
  wrapped has_left node r e many = record {
    node = node_of none (cut_children node);
    height = suc h;
    returns = refl;
    radix =
        node_of-Radix h (cut_children node) (omega (arith, length-cut_children node, s.bound, len))
          (s.front node r);
    elements = node_list-node_of (cut_children node) ∙ s.same node e;
    low = omega arith;
    kept = λ l. refl;
    thick =
        λ l. node_of-Thick h (cut_children node) (omega (arith, length-cut_children node, many l));
  }

  -- At slot 0 with nothing on the left, the cut child stands for all.
  unwrapped :
      (o : Outcome Sliced)
      → s.k ≡ 0
      → SlicedTree h false o (take (s.inner + 1) (node_list s.child))
      → SlicedTree (suc h) false o (take (p + 1) (flat cs))
  unwrapped o zeroth below = record {
    node = below.node;
    height = below.height;
    returns = below.returns;
    radix = below.radix;
    elements =
        sym (append-nil (node_list below.node))
        ∙ ap (λ k. flat (take k cs ++ below.node ∷ [])) (sym zeroth)
        ∙ s.same below.node below.elements;
    low = omega (arith, below.low);
    kept = λ l. absurd (cc l);
    thick = below.thick;
  }

  abbrev Below : Bool → Outcome Sliced → Type 0
  Below has_left o =
      SlicedTree h (not (s.k == 0) || has_left) o (take (s.inner + 1) (node_list s.child))

  abbrev Wrapped : Bool → Outcome Sliced → Type 0
  Wrapped has_left o =
      SlicedTree (suc h) has_left (o >>= wrap_right none cs s.k p (5 * suc h) has_left)
        (take (p + 1) (flat cs))

  wrap_right-first :
      (has_left : Bool) (o : Outcome Sliced)
      → (s.k == 0) ≡ true
      → Below has_left o
      → Wrapped has_left o
  unfolding wrap_right table_right
  wrap_right-first true o first below =
      let zeroth : s.k ≡ 0 = ground arith in
      let r = subst (λ n. Radix n below.node) (below.kept (rw first refl)) below.radix in
      subst (λ o. SlicedTree (suc h) true o (take (p + 1) (flat cs)))
        (rw (below.returns, first, zeroth) refl)
        (wrapped true below.node r below.elements (λ l. absurd (cc l)))
  wrap_right-first false o first below =
      let below' =
        subst (λ b. SlicedTree h (not b || false) o (take (s.inner + 1) (node_list s.child))) first
          below in
      subst (λ o. SlicedTree (suc h) false o (take (p + 1) (flat cs)))
        (rw (below.returns, first) refl) (unwrapped o (ground arith) below')

  -- `wrap_right` on what the cut of the child returns.
  pub wrap_right-SlicedTree :
      (has_left : Bool) (o : Outcome Sliced) → Below has_left o → Wrapped has_left o
  unfolding wrap_right table_right
  wrap_right-SlicedTree has_left o below = elim (Bool-cases (s.k == 0)) [
    | inl first ↦ wrap_right-first has_left o first below
    | inr later ↦
        let r = subst (λ n. Radix n below.node) (below.kept (rw later refl)) below.radix in
        subst (λ o. SlicedTree (suc h) has_left o (take (p + 1) (flat cs)))
          (rw (below.returns, later) refl)
          (wrapped has_left below.node r below.elements (λ l. ground arith))
  ]

-- On a tree without size tables of a height below the fuel, `slice_right_rec` returns a tree of the
-- elements up to the place `p`.
pub slice_right_rec-SlicedTree :
    (fuel h : ℕ) (c : Node) (p : ℕ) (has_left : Bool)
    → Radix h c
    → p < size c
    → h < fuel
    → h ≤ 6
    → SlicedTree h has_left (slice_right_rec fuel c p (5 * h) has_left) (take (p + 1) (node_list c))
unfolding slice_right_rec node_list
slice_right_rec-SlicedTree zero h c p has_left r lt enough most = absurd (omega arith)
slice_right_rec-SlicedTree (suc fuel) zero (Node.leaf xs) p has_left r lt enough most =
    let inside : leb (length xs) p ≡ false = ground arith in
    record {
      node = Node.leaf (take (p + 1) xs);
      height = 0;
      returns = rw inside refl;
      radix =
          let len : length (take (p + 1) xs) ≡ p + 1 = length-take (p + 1) xs (omega arith) in
          (omega (arith, len), omega (arith, len, lt, r.1));
      elements = refl;
      low = omega arith;
      kept = λ l. refl;
      thick = λ l. tt;
    }
slice_right_rec-SlicedTree (suc fuel) (suc h) (Node.internal none cs) p has_left (len, front) lt
      enough most =
    let children = nodes_to_list cs in
    let in_flat : p < length (flat children) =
      omega (arith, lt, ap length (size-internal none cs)) in
    let s = cut_at h children p front in_flat in
    let above : ltb 0 (5 * suc h) ≡ true = ground arith in
    let down : dec_shift (5 * suc h) ≡ 5 * h = omega arith in
    let rest =
      slice_right_rec-SlicedTree fuel h s.child s.inner (not (s.k == 0) || has_left) s.radix
        s.inside (omega arith) (omega arith) in
    let w = wrap_right-SlicedTree h p children len s has_left _ rest in
    let (slot, inner) = cut-slot h p children s in
    let defined : ltb (5 * suc h) 32 ≡ true = ground arith in
    rw (slice_right_rec, above, defined, slot, inner, s.at, down, nodes_list-flat cs) w
slice_right_rec-SlicedTree _ _ _ p has_left r lt enough most = absurd r
