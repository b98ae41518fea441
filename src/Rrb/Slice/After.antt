-- ===== src/Rrb/Slice/After.antt =====
-- Trees without size tables, cut before an element: `slice_left_rec` of vm/src/std/owl_list.c.
use owlang.Base.{
  ℕ, zero, suc, ◌+◌, ◌-◌, ◌*◌, ◌/◌, ◌%◌, ◌^◌, ◌≤◌, ◌<◌, ◌≡◌, ◌⊎◌, inl, inr, refl, ◌∙◌, ap, arith,
  Bool-cases, All, List, [], ◌∷◌, ◌++◌, length, drop, map, set, ltb, length-append,
}
use native.Mathlib.Nat.{div-eq_of_lt-le}
use owlang.Base.Outcome.{done}
use owlang.Rrb.{Node, read_node, sub32}
use owlang.Rrb.View.{node_list}
use owlang.Rrb.Slice.Left.{full_sizes}
use owlang.Rrb.Tree.{flat, size, sums, Front, Full, width, width-pow, Full-size}

pub drop-append_left :
    (n : ℕ) (xs ys : List ℕ) → n ≤ length xs → drop n (xs ++ ys) ≡ drop n xs ++ ys
drop-append_left zero xs ys h = refl
drop-append_left (suc n) [] ys h = absurd (omega arith)
drop-append_left (suc n) (x ∷ xs) ys h = drop-append_left n xs ys (omega arith)

pub drop-append_right :
    (n : ℕ) (xs ys : List ℕ) → length xs ≤ n → drop n (xs ++ ys) ≡ drop (n - length xs) ys
drop-append_right n [] ys h = ap (λ k. drop k ys) (omega arith)
drop-append_right zero (x ∷ xs) ys h = absurd (omega arith)
drop-append_right (suc n) (x ∷ xs) ys h =
    drop-append_right n xs ys (omega arith) ∙ ap (λ k. drop k ys) (omega arith)

-- The child of the place `p`, and the children after it. The last child is `Q`.
pub record DropAt (h : ℕ) (Q : Node → Type 0) (cs : List Node) (p : ℕ) : Type 0 where
  pub k : ℕ
  pub child : Node
  pub inner : ℕ
  pub after : List Node
  pub at : read_node cs k ≡ done child
  pub place : p ≡ k * width h + inner
  pub inside : inner < size child
  pub narrow : inner < width h
  pub count : length cs ≡ k + 1 + length after
  pub rest : drop (k + 1) cs ≡ after
  pub elements : drop p (flat cs) ≡ drop inner (node_list child) ++ flat after
  pub kind : ((after ≡ []) × Q child) ⊎ ((1 ≤ length after) × Full h child × Front (Full h) Q after)

drop_here :
    (h : ℕ) (Q : Node → Type 0) (c : Node) (cs : List Node) (p : ℕ)
    → p < size c
    → p < width h
    → ((cs ≡ []) × Q c) ⊎ ((1 ≤ length cs) × Full h c × Front (Full h) Q cs)
    → DropAt h Q (c ∷ cs) p
unfolding read_node
drop_here h Q c cs p lt narrow kind = record {
  k = 0;
  child = c;
  inner = p;
  after = cs;
  at = refl;
  place = omega arith;
  inside = lt;
  narrow = narrow;
  count = omega arith;
  rest = refl;
  elements = drop-append_left p (node_list c) (flat cs) (omega arith);
  kind = kind;
}

drop_later :
    (h : ℕ) (Q : Node → Type 0) (c : Node) (cs : List Node) (p : ℕ)
    → Full h c
    → size c ≤ p
    → DropAt h Q cs (p - size c)
    → DropAt h Q (c ∷ cs) p
unfolding read_node
drop_later h Q c cs p full le s =
    let next : suc s.k + 1 ≡ suc (s.k + 1) = omega arith in
    record {
      k = suc s.k;
      child = s.child;
      inner = s.inner;
      after = s.after;
      at = s.at;
      place = omega (arith, s.place, Full-size h c full);
      inside = s.inside;
      narrow = s.narrow;
      count = omega (arith, s.count);
      rest = ap (λ n. drop n (c ∷ cs)) next ∙ s.rest;
      elements = drop-append_right p (node_list c) (flat cs) le ∙ s.elements;
      kind = s.kind;
    }

pub drop_at :
    (h : ℕ) (Q : Node → Type 0)
    → ((c : Node) → Q c → size c ≤ width h)
    → (cs : List Node) (p : ℕ) → Front (Full h) Q cs
    → p < length (flat cs)
    → DropAt h Q cs p
drop_at h Q most [] p f lt = absurd f
drop_at h Q most (c ∷ []) p f lt =
    let len = length-append {0} (node_list c) [] in
    drop_here h Q c [] p (omega (arith, len)) (omega (arith, len, most c f)) (inl (refl, f))
drop_at h Q most (c ∷ d ∷ cs) p (full, f) lt = elim (Bool-cases (ltb p (size c))) [
  | inl here ↦
      let inside : p < size c = ground arith in
      drop_here h Q c (d ∷ cs) p inside (omega (arith, inside, Full-size h c full))
        (inr (omega arith, full, f))
  | inr later ↦
      let past : size c ≤ p = ground arith in
      drop_later h Q c (d ∷ cs) p full past (
        drop_at h Q most (d ∷ cs) (p - size c) f
          (omega (arith, past, lt, length-append {0} (node_list c) (flat (d ∷ cs)))))
]

-- The slot that the shift gives, and the place inside it.
pub drop-slot :
    (h p : ℕ) (Q : Node → Type 0) (cs : List Node) (s : DropAt h Q cs p)
    → (p / 2 ^ (5 * suc h) ≡ s.k) × (p - s.k * 2 ^ (5 * suc h) ≡ s.inner)
drop-slot h p Q cs s =
    let slot : p / width h ≡ s.k =
      div-eq_of_lt-le {k = s.k} (width h) (omega (arith, s.place))
        (omega (arith, s.place, s.narrow)) in
    rw (width-pow h) (slot, omega (arith, s.place))

-- The table that `full_sizes` gives, less the place of the cut.
abbrev pub cut_sizes : ℕ → ℕ → ℕ → ℕ → List ℕ
cut_sizes h p n slot = map (λ s. sub32 s p) (full_sizes n slot (5 * suc h))

pub cut_sizes-sums :
    (h p slot acc : ℕ) (cs : List Node)
    → All (Full h) cs
    → slot * width h ≡ p + acc
    → p + acc + length (flat cs) < 2 ^ 32
    → cut_sizes h p (length cs) slot ≡ sums acc cs
unfolding full_sizes
cut_sizes-sums h p slot acc [] all e small = refl
cut_sizes-sums h p slot acc (c ∷ cs) (full, all) e small =
    let len = length-append {0} (node_list c) (flat cs) in
    let wide = Full-size h c full in
    let here : (slot + 1) * width h ≡ p + (acc + size c) = omega (arith, e, wide) in
    let rest =
      cut_sizes-sums h p (slot + 1) (acc + size c) cs all here (omega (arith, small, len)) in
    let entry : sub32 ((slot + 1) * width h % 2 ^ 32) p ≡ acc + size c =
      omega (arith, here, small, len) in
    rw (width-pow h, entry) (ap (◌∷◌ (acc + size c)) rest)

pub length-cut_sizes : (h p n slot : ℕ) → length (cut_sizes h p n slot) ≡ n
unfolding full_sizes
length-cut_sizes h p zero slot = refl
length-cut_sizes h p (suc n) slot = ap suc (length-cut_sizes h p n (slot + 1))

-- Where the last child need not be full, its entry is set to the number of all elements.
pub cut_sizes-set :
    (h p slot acc : ℕ) (Q : Node → Type 0) (cs : List Node)
    → Front (Full h) Q cs
    → slot * width h ≡ p + acc
    → p + acc + length (flat cs) < 2 ^ 32
    → set (cut_sizes h p (length cs) slot) (length cs - 1) (acc + length (flat cs)) ≡ sums acc cs
unfolding full_sizes
cut_sizes-set h p slot acc Q [] f e small = absurd f
cut_sizes-set h p slot acc Q (c ∷ []) f e small =
    ap (λ n. n ∷ []) (omega (arith, length-append {0} (node_list c) []))
cut_sizes-set h p slot acc Q (c ∷ d ∷ cs) (full, f) e small =
    let len = length-append {0} (node_list c) (flat (d ∷ cs)) in
    let wide = Full-size h c full in
    let here : (slot + 1) * width h ≡ p + (acc + size c) = omega (arith, e, wide) in
    let rest =
      cut_sizes-set h p (slot + 1) (acc + size c) Q (d ∷ cs) f here (omega (arith, small, len)) in
    let entry : sub32 ((slot + 1) * width h % 2 ^ 32) p ≡ acc + size c =
      omega (arith, here, small, len) in
    let total : acc + length (flat (c ∷ d ∷ cs)) ≡ acc + size c + length (flat (d ∷ cs)) =
      omega (arith, len) in
    let back : suc (length (d ∷ cs)) - 1 ≡ suc (length (d ∷ cs) - 1) = omega arith in
    rw (total, back, width-pow h, entry) (ap (◌∷◌ (acc + size c)) rest)
