-- ===== src/Rrb/Slice/Cut.antt =====
-- Trees without size tables, cut behind an element: `slice_right_rec` of vm/src/std/owl_list.c.
use owlang.Base.{
  ℕ, zero, suc, ◌+◌, ◌-◌, ◌*◌, ◌/◌, ◌^◌, ◌≤◌, ◌<◌, ◌≡◌, inl, inr, refl, sym, ◌∙◌, ap, arith,
  Bool-cases, List, [], ◌∷◌, ◌++◌, length, take, ltb, length-append, append-nil,
}
use native.Mathlib.Nat.{div-eq_of_lt-le}
use owlang.Base.Outcome.{done}
use owlang.Rrb.{Node, read_node}
use owlang.Rrb.View.{node_list}
use owlang.Rrb.Tree.{
  flat, size, Front, Full, Radix, width, width-pow, Full-size, Full-Radix, Radix-Tree, Tree-size,
}

pub take-append_left : (n : ℕ) (xs ys : List ℕ) → n ≤ length xs → take n (xs ++ ys) ≡ take n xs
take-append_left zero xs ys h = refl
take-append_left (suc n) [] ys h = absurd (omega arith)
take-append_left (suc n) (x ∷ xs) ys h = ap (◌∷◌ x) (take-append_left n xs ys (omega arith))

pub take-append_right :
    (n : ℕ) (xs ys : List ℕ) → length xs ≤ n → take n (xs ++ ys) ≡ xs ++ take (n - length xs) ys
take-append_right n [] ys h = ap (λ k. take k ys) (omega arith)
take-append_right zero (x ∷ xs) ys h = absurd (omega arith)
take-append_right (suc n) (x ∷ xs) ys h =
    ap (◌∷◌ x) (take-append_right n xs ys (omega arith))
    ∙ ap (λ k. x ∷ (xs ++ take k ys)) (omega arith)

-- The child of the place `p`, with what a cut inside it makes of all children.
pub record CutAt (h : ℕ) (cs : List Node) (p : ℕ) : Type 0 where
  pub k : ℕ
  pub child : Node
  pub inner : ℕ
  pub at : read_node cs k ≡ done child
  pub place : p ≡ k * width h + inner
  pub inside : inner < size child
  pub radix : Radix h child
  pub bound : k < length cs
  pub front : (node : Node) → Radix h node → Front (Full h) (Radix h) (take k cs ++ node ∷ [])
  pub same :
      (node : Node)
      → node_list node ≡ take (inner + 1) (node_list child)
      → flat (take k cs ++ node ∷ []) ≡ take (p + 1) (flat cs)

cut_here : (h : ℕ) (c : Node) (cs : List Node) (p : ℕ) → Radix h c → p < size c → CutAt h (c ∷ cs) p
unfolding read_node
cut_here h c cs p r lt = record {
  k = 0;
  child = c;
  inner = p;
  at = refl;
  place = omega arith;
  inside = lt;
  radix = r;
  bound = omega arith;
  front = λ node r'. r';
  same = λ node e.
      append-nil (node_list node)
      ∙ e
      ∙ sym (take-append_left (p + 1) (node_list c) (flat cs) (omega arith));
}

Front-cons :
    (P Q : Node → Type 0) (c : Node) (cs : List Node) (node : Node)
    → P c
    → Front P Q (cs ++ node ∷ [])
    → Front P Q (c ∷ (cs ++ node ∷ []))
Front-cons P Q c [] node p f = (p, f)
Front-cons P Q c (d ∷ cs) node p f = (p, f)

cut_later :
    (h : ℕ) (c : Node) (cs : List Node) (p : ℕ)
    → Full h c
    → size c ≤ p
    → CutAt h cs (p - size c)
    → CutAt h (c ∷ cs) p
unfolding read_node
cut_later h c cs p full le s = record {
  k = suc s.k;
  child = s.child;
  inner = s.inner;
  at = s.at;
  place = omega (arith, s.place, Full-size h c full);
  inside = s.inside;
  radix = s.radix;
  bound = omega (arith, s.bound);
  front = λ node r. Front-cons (Full h) (Radix h) c (take s.k cs) node full (s.front node r);
  same = λ node e.
      let less : p - size c + 1 ≡ p + 1 - size c = omega arith in
      ap (λ xs. node_list c ++ xs) (s.same node e ∙ ap (λ n. take n (flat cs)) less)
      ∙ sym (take-append_right (p + 1) (node_list c) (flat cs) (omega arith));
}

pub cut_at :
    (h : ℕ) (cs : List Node) (p : ℕ)
    → Front (Full h) (Radix h) cs
    → p < length (flat cs)
    → CutAt h cs p
cut_at h [] p f lt = absurd f
cut_at h (c ∷ []) p f lt = cut_here h c [] p f (omega (arith, length-append {0} (node_list c) []))
cut_at h (c ∷ d ∷ cs) p (full, f) lt = elim (Bool-cases (ltb p (size c))) [
  | inl here ↦ cut_here h c (d ∷ cs) p (Full-Radix h c full) (ground arith)
  | inr later ↦
      let past : size c ≤ p = ground arith in
      cut_later h c (d ∷ cs) p full past (
        cut_at h (d ∷ cs) (p - size c) f
          (omega (arith, past, lt, length-append {0} (node_list c) (flat (d ∷ cs)))))
]

-- The slot that the shift gives, and the place inside it.
pub cut-slot :
    (h p : ℕ) (cs : List Node) (s : CutAt h cs p)
    → (p / 2 ^ (5 * suc h) ≡ s.k) × (p - s.k * 2 ^ (5 * suc h) ≡ s.inner)
cut-slot h p cs s =
    let most = (Tree-size h s.child (Radix-Tree h s.child s.radix)).1 in
    let slot : p / width h ≡ s.k =
      div-eq_of_lt-le {k = s.k} (width h) (omega (arith, s.place))
        (omega (arith, s.place, s.inside, most)) in
    rw (width-pow h) (slot, omega (arith, s.place))
