-- ===== src/Rrb/Slice/Root.antt =====
-- `promote_rightmost_leaf` of vm/src/std/owl_list.c on the root of a tree without size tables.
use owlang.Base.{
  ℕ, zero, suc, ◌*◌, ◌≤◌, ◌<◌, ◌≡◌, inl, inr, refl, sym, subst, ◌∙◌, ap, arith, true, false,
  Bool-cases, none, All, List, [], ◌∷◌, ◌++◌, length, ltb, ◌==◌, length-append, append-nil,
  if◌then◌else◌,
}
use owlang.Base.Outcome.{Outcome, done, ◌>>=◌}
use owlang.Rrb.{Node, dec_shift, read_node, nodes_to_list, node_of}
use owlang.Rrb.View.{node_list}
use owlang.Rrb.Push.{is_null}
use owlang.Rrb.Slice.{Promoted, promote, promote_step}
use owlang.Rrb.Slice.Right.{Thick}
use owlang.Rrb.Tree.{flat, Full, Radix, Full-Radix, nodes_list-flat}
use owlang.Rrb.Slice.Promote.{
  Front-Init, PromotedTree, promote-PromotedTree, promote_step-cut, above, cut-Radix, front-Radix,
  elements-cut, elements-front, tail-last, empty, node_of-not_null, take-snoc, read_node-last,
}
use owlang.Rrb.Tree.Invariant.{RadixRoot, Radix-RadixRoot}

-- A root without its last leaf, and that leaf.
pub record PromotedRoot (h : ℕ) (o : Outcome Promoted) (xs : List ℕ) : Type 0 where
  pub p : Promoted
  pub height : ℕ
  pub returns : o ≡ done p
  pub shift : (if p.lowered then dec_shift (5 * h) else 5 * h) ≡ 5 * height
  pub low : height ≤ h
  pub root : RadixRoot height p.node
  pub elements : node_list p.node ++ p.tail ≡ xs
  pub tail_fits : length p.tail ≤ 32

kept-root :
    (h : ℕ) (o : Outcome Promoted) (xs : List ℕ) (t : PromotedTree h o xs)
    → RadixRoot h t.p.node
    → PromotedRoot h o xs
kept-root h o xs t r = record {
  p = t.p;
  height = h;
  returns = t.returns;
  shift = rw t.same_height refl;
  low = omega arith;
  root = r;
  elements = t.elements;
  tail_fits = t.tail_fits;
}

-- A root above a promoted last child, with a full child before that one.
module _ (h : ℕ) (low : h ≤ 7) (f : Node) (front : List Node) (last : Node)
    (len : length (f ∷ front ++ last ∷ []) ≤ 32) (full : All (Full h) (f ∷ front))
    (o : Outcome Promoted) (below : PromotedTree h o (node_list last)) where
  abbrev AboveRoot : Outcome Promoted → Type 0
  AboveRoot o = PromotedRoot (suc h) o (flat (f ∷ front ++ last ∷ []))

  -- Where one full child is left, it becomes the root.
  lower_root :
      is_null below.p.node ≡ true
      → front ≡ []
      → AboveRoot (done (record below.p { node = f; lowered = true }))
  lower_root null single = record {
    p = record below.p { node = f; lowered = true };
    height = h;
    returns = refl;
    shift = omega arith;
    low = omega arith;
    root = Radix-RadixRoot h f (Full-Radix h f full.0);
    elements =
        ap (λ xs. node_list f ++ xs)
          (tail-last h (f ∷ front) last len full o below null ∙ sym (append-nil (node_list last)))
        ∙ ap (λ fs. flat (f ∷ fs ++ last ∷ [])) (sym single);
    tail_fits = below.tail_fits;
  }

  root-null :
      is_null below.p.node ≡ true
      → AboveRoot (o >>= promote_step none (f ∷ front ++ last ∷ []) true)
  unfolding promote_step read_node
  root-null null =
      let many : (length (f ∷ front ++ last ∷ []) == 1) ≡ false =
        ground (arith, length-append front (last ∷ [])) in
      elim (Bool-cases (length (f ∷ front ++ last ∷ []) == 2)) [
        | inl two ↦
            subst AboveRoot (rw (below.returns, null, many, two) refl)
              (lower_root null (empty front (ground (arith, length-append front (last ∷ [])))))
        | inr more ↦
            let r = front-Radix h (f ∷ front) last len full o below (omega arith) in
            let w =
              above h (f ∷ front) last len full o below (node_of none (f ∷ front))
                (elements-front h (f ∷ front) last len full o below null)
                (inr (node_of-not_null (f ∷ front), r)) in
            subst AboveRoot (rw (below.returns, null, many, more, take-snoc (f ∷ front) last) refl)
              (kept-root (suc h) _ _ w r)
      ]

  root-PromotedRoot : AboveRoot (o >>= promote_step none (f ∷ front ++ last ∷ []) true)
  unfolding node_of
  root-PromotedRoot = elim below.left [
    | inl null ↦ root-null null
    | inr (some_left, r) ↦
        let e = promote_step-cut h (f ∷ front) last len full o below some_left true in
        let r' = cut-Radix h (f ∷ front) last len full o below r in
        let w =
          above h (f ∷ front) last len full o below (node_of none (f ∷ front ++ below.p.node ∷ []))
            (elements-cut h (f ∷ front) last len full o below)
            (inr (node_of-not_null (f ∷ front ++ below.p.node ∷ []), r')) in
        subst AboveRoot (sym e) (kept-root (suc h) _ _ w r')
  ]

thick_root :
    (h : ℕ)
    → h ≤ 7
    → (front : List Node) (last : Node) → 2 ≤ length (front ++ last ∷ [])
    → length (front ++ last ∷ []) ≤ 32
    → All (Full h) front
    → (o : Outcome Promoted) → PromotedTree h o (node_list last)
    → PromotedRoot
        (suc h)
        (o >>= promote_step none (front ++ last ∷ []) true)
        (flat (front ++ last ∷ []))
thick_root h low [] last thick len full o below = absurd (omega arith)
thick_root h low (f ∷ front) last thick len full o below =
    root-PromotedRoot h low f front last len full o below

-- Of a thick tree without size tables of height up to seven, `promote` takes the last leaf, which
-- becomes the tail, and what is left can be a root.
pub promote-PromotedRoot :
    (fuel h : ℕ) (c : Node)
    → Radix h c
    → Thick h c
    → h < fuel
    → fuel ≤ 8
    → PromotedRoot h (promote fuel c (5 * h) true) (node_list c)
unfolding promote node_list
promote-PromotedRoot zero h c r thick enough most = absurd (omega (arith, enough))
promote-PromotedRoot (suc fuel) zero (Node.leaf xs) (pos, fits) thick enough most = record {
  p = record { tail = xs; node = Node.null; lowered = false };
  height = 0;
  returns = refl;
  shift = refl;
  low = omega arith;
  root = tt;
  elements = refl;
  tail_fits = fits;
}
promote-PromotedRoot (suc fuel) (suc h) (Node.internal none cs) (len, f) thick enough most =
    let i = Front-Init h (nodes_to_list cs) f in
    let higher : ltb 0 (5 * suc h) ≡ true = ground arith in
    let down : dec_shift (5 * suc h) ≡ 5 * h = omega arith in
    let rest = promote-PromotedTree fuel h i.last i.radix (omega arith) (omega arith) in
    let len' = subst (λ cs. length cs ≤ 32) i.same len in
    let thick' = subst (λ cs. 2 ≤ length cs) i.same thick in
    let w = thick_root h (omega arith) i.front i.last thick' len' i.full _ rest in
    rw (promote, higher, nodes_list-flat cs, i.same, read_node-last i.front i.last, down) w
promote-PromotedRoot _ _ _ r thick enough most = absurd r
