-- ===== src/Rrb/Slice/Promote.antt =====
-- `promote_rightmost_leaf` of vm/src/std/owl_list.c on trees without size tables.
use owlang.Base.{
  ℕ, zero, suc, ◌-◌, ◌*◌, ◌≤◌, ◌<◌, ◌≡◌, ◌⊎◌, inl, inr, refl, sym, subst, ◌∙◌, ap, arith, Bool,
  true, false, Bool-cases, none, All, List, [], ◌∷◌, ◌++◌, length, take, ltb, ◌==◌, length-append,
  append-nil, append_assoc, take-length_append,
}
use owlang.Base.Outcome.{Outcome, done, ◌>>=◌}
use owlang.Rrb.{Node, dec_shift, read_node, nodes_to_list, node_of}
use owlang.Rrb.View.{node_list}
use owlang.Rrb.Push.{is_null}
use owlang.Rrb.Slice.{Promoted, promote, promote_step, table_sub}
use owlang.Rrb.Slice.Right.{node_of-Radix, node_list-node_of}
use owlang.Rrb.Tree.{flat, Front, Full, Radix, Full-Radix, flat-append, nodes_list-flat}

-- Children as the full ones and the last one.
pub record Init (h : ℕ) (cs : List Node) : Type 0 where
  pub front : List Node
  pub last : Node
  pub same : cs ≡ front ++ last ∷ []
  pub full : All (Full h) front
  pub radix : Radix h last

pub Front-Init : (h : ℕ) (cs : List Node) → Front (Full h) (Radix h) cs → Init h cs
Front-Init h [] f = absurd f
Front-Init h (c ∷ []) f = record { front = []; last = c; same = refl; full = tt; radix = f }
Front-Init h (c ∷ d ∷ cs) (full, f) =
    let rest = Front-Init h (d ∷ cs) f in
    record {
      front = c ∷ rest.front;
      last = rest.last;
      same = ap (◌∷◌ c) rest.same;
      full = (full, rest.full);
      radix = rest.radix;
    }

-- Full nodes and a last one.
Front-snoc_node :
    (h : ℕ) (front : List Node) (c : Node)
    → All (Full h) front
    → Radix h c
    → Front (Full h) (Radix h) (front ++ c ∷ [])
Front-snoc_node h [] c all r = r
Front-snoc_node h (f ∷ []) c (p, all) r = (p, r)
Front-snoc_node h (f ∷ g ∷ front) c (p, all) r = (p, Front-snoc_node h (g ∷ front) c all r)

Front-full :
    (h : ℕ) (front : List Node)
    → 1 ≤ length front
    → All (Full h) front
    → Front (Full h) (Radix h) front
Front-full h [] pos all = absurd (omega arith)
Front-full h (f ∷ []) pos (p, all) = Full-Radix h f p
Front-full h (f ∷ g ∷ front) pos (p, all) = (p, Front-full h (g ∷ front) (omega arith) all)

read_node-snoc :
    (front : List Node) (c : Node) → read_node (front ++ c ∷ []) (length front) ≡ done c
unfolding read_node
read_node-snoc [] c = refl
read_node-snoc (f ∷ front) c = read_node-snoc front c

-- What is left of a tree of height `h` without its last leaf: nothing, or such a tree.
abbrev pub Left : ℕ → Node → Type 0
Left h c = (is_null c ≡ true) ⊎ ((is_null c ≡ false) × Radix h c)

-- A subtree without its last leaf, and that leaf.
pub record PromotedTree (h : ℕ) (o : Outcome Promoted) (xs : List ℕ) : Type 0 where
  pub p : Promoted
  pub returns : o ≡ done p
  pub left : Left h p.node
  pub elements : node_list p.node ++ p.tail ≡ xs
  pub tail_pos : 1 ≤ length p.tail
  pub tail_fits : length p.tail ≤ 32
  pub same_height : p.lowered ≡ false

null-elements : (c : Node) → is_null c ≡ true → node_list c ≡ []
unfolding is_null node_list
null-elements Node.null e = refl
null-elements (Node.leaf xs) e = absurd (cc e)
null-elements (Node.internal t cs) e = absurd (cc e)

pub read_node-last :
    (front : List Node) (c : Node)
    → read_node (front ++ c ∷ []) (length (front ++ c ∷ []) - 1) ≡ done c
read_node-last front c =
    let less : length (front ++ c ∷ []) - 1 ≡ length front =
      omega (arith, length-append front (c ∷ [])) in
    ap (λ n. read_node (front ++ c ∷ []) n) less ∙ read_node-snoc front c

pub take-snoc :
    (front : List Node) (c : Node) → take (length (front ++ c ∷ []) - 1) (front ++ c ∷ []) ≡ front
take-snoc front c =
    let less : length (front ++ c ∷ []) - 1 ≡ length front =
      omega (arith, length-append front (c ∷ [])) in
    ap (λ n. take n (front ++ c ∷ [])) less ∙ take-length_append front (c ∷ [])

pub node_of-not_null : (cs : List Node) → is_null (node_of none cs) ≡ false
unfolding is_null node_of
node_of-not_null cs = refl

pub empty : (front : List Node) → length front ≡ 0 → front ≡ []
empty [] e = refl
empty (f ∷ front) e = absurd (omega (arith, e))

-- A node above a promoted last child.
module _ (h : ℕ) (front : List Node) (last : Node) (len : length (front ++ last ∷ []) ≤ 32)
    (full : All (Full h) front) (o : Outcome Promoted)
    (below : PromotedTree h o (node_list last)) where
  abbrev pub before : List Node
  before = front ++ last ∷ []

  flat-split : flat front ++ node_list last ≡ flat before
  flat-split =
      sym
        (flat-append front (last ∷ []) ∙ ap (λ xs. flat front ++ xs) (append-nil (node_list last)))

  pub tail-last : is_null below.p.node ≡ true → below.p.tail ≡ node_list last
  tail-last e = ap (λ xs. xs ++ below.p.tail) (sym (null-elements below.p.node e)) ∙ below.elements

  pub elements-front :
      is_null below.p.node ≡ true → node_list (node_of none front) ++ below.p.tail ≡ flat before
  elements-front e = rw (node_list-node_of front, tail-last e) flat-split

  pub elements-cut :
      node_list (node_of none (front ++ below.p.node ∷ [])) ++ below.p.tail ≡ flat before
  elements-cut =
      let list =
        flat-append front (below.p.node ∷ [])
        ∙ ap (λ xs. flat front ++ xs) (append-nil (node_list below.p.node)) in
      rw
        (
          node_list-node_of (front ++ below.p.node ∷ []),
          list,
          append_assoc (flat front) (node_list below.p.node) below.p.tail,
          below.elements,
        )
        flat-split

  pub cut-Radix : Radix h below.p.node → Radix (suc h) (node_of none (front ++ below.p.node ∷ []))
  cut-Radix r =
      node_of-Radix h (front ++ below.p.node ∷ [])
        (omega
          (arith, len, length-append front (last ∷ []), length-append front (below.p.node ∷ [])))
        (Front-snoc_node h front below.p.node full r)

  pub front-Radix : 1 ≤ length front → Radix (suc h) (node_of none front)
  front-Radix pos =
      node_of-Radix h front (omega (arith, len, length-append front (last ∷ [])))
        (Front-full h front pos full)

  abbrev pub above :
      (node : Node) (e : node_list node ++ below.p.tail ≡ flat before)
      → Left (suc h) node
      → PromotedTree (suc h) (done (record below.p { node = node })) (flat before)
  above node e left = record {
    p = record below.p { node = node };
    returns = refl;
    left = left;
    elements = e;
    tail_pos = below.tail_pos;
    tail_fits = below.tail_fits;
    same_height = below.same_height;
  }

  abbrev Above : Outcome Promoted → Type 0
  Above o = PromotedTree (suc h) o (flat before)

  promote_step-null : is_null below.p.node ≡ true → Above (o >>= promote_step none before false)
  unfolding promote_step is_null node_list
  promote_step-null null = elim (Bool-cases (length before == 1)) [
    | inl single ↦
        let none_before : front ≡ [] =
          empty front (ground (arith, length-append front (last ∷ []))) in
        subst Above (rw (below.returns, null, single) refl) (
          above Node.null
            (tail-last null ∙ ap (λ f. flat f ++ node_list last) (sym none_before) ∙ flat-split)
            (inl refl))
    | inr more ↦ subst Above (rw (below.returns, null, more, take-snoc front last) refl) (
        above (node_of none front) (elements-front null) (
          inr (
            node_of-not_null front,
            front-Radix (ground (arith, length-append front (last ∷ []))),
          )))
  ]

  pub promote_step-cut :
      is_null below.p.node ≡ false
      → (is_root : Bool)
      → (o >>= promote_step none before is_root)
        ≡ done (record below.p { node = node_of none (front ++ below.p.node ∷ []) })
  unfolding promote_step table_sub
  promote_step-cut some_left is_root = rw (below.returns, some_left, take-snoc front last) refl

  cut_last :
      Radix h below.p.node
      → Above (done (record below.p { node = node_of none (front ++ below.p.node ∷ []) }))
  cut_last r =
      above (node_of none (front ++ below.p.node ∷ [])) elements-cut
        (inr (node_of-not_null (front ++ below.p.node ∷ []), cut-Radix r))

  promote_step-PromotedTree : Above (o >>= promote_step none before false)
  promote_step-PromotedTree = elim below.left [
    | inl null ↦ promote_step-null null
    | inr (some_left, r) ↦ subst Above (sym (promote_step-cut some_left false)) (cut_last r)
  ]

-- On a tree without size tables of a height below the fuel, below the root.
pub promote-PromotedTree :
    (fuel h : ℕ) (c : Node)
    → Radix h c
    → h < fuel
    → fuel ≤ 8
    → PromotedTree h (promote fuel c (5 * h) false) (node_list c)
unfolding promote node_list
promote-PromotedTree zero h c r enough most = absurd (omega (arith, enough))
promote-PromotedTree (suc fuel) zero (Node.leaf xs) (pos, fits) enough most = record {
  p = record { tail = xs; node = Node.null; lowered = false };
  returns = refl;
  left = inl refl;
  elements = refl;
  tail_pos = pos;
  tail_fits = fits;
  same_height = refl;
}
promote-PromotedTree (suc fuel) (suc h) (Node.internal none cs) (len, f) enough most =
    let i = Front-Init h (nodes_to_list cs) f in
    let higher : ltb 0 (5 * suc h) ≡ true = ground arith in
    let down : dec_shift (5 * suc h) ≡ 5 * h = omega arith in
    let rest = promote-PromotedTree fuel h i.last i.radix (omega arith) (omega arith) in
    let w =
      promote_step-PromotedTree h i.front i.last (subst (λ cs. length cs ≤ 32) i.same len) i.full _
        rest in
    rw (promote, higher, nodes_list-flat cs, i.same, read_node-last i.front i.last, down) w
promote-PromotedTree _ _ _ r enough most = absurd r
