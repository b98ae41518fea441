-- ===== src/Rrb/Slice/Take.antt =====
-- `slice_right` of vm/src/std/owl_list.c on lists without size tables.
use owlang.Base.{
  zero, suc, ℕ, ◌+◌, ◌-◌, ◌*◌, ◌≤◌, ◌≡◌, inl, inr, refl, sym, subst, ◌∙◌, ap, arith, false,
  Bool-cases, List, [], ◌∷◌, ◌++◌, length, take, ltb, leb, ◌==◌, length-append, length-take,
}
use owlang.Base.Outcome.{Outcome, done, ◌>>=◌}
use owlang.Rrb.{Node, Rrb, Ref, deref, empty_rrb, sub32}
use owlang.Rrb.Nth.{max_levels}
use owlang.Rrb.View.{node_list, rrb_list}
use owlang.Rrb.Slice.{slice_right, promote_rightmost_leaf, slice_right_rec}
use owlang.Rrb.Slice.Cut.{take-append_left, take-append_right}
use owlang.Rrb.Slice.Right.{slice_right_rec-SlicedTree}
use owlang.Rrb.Slice.Root.{promote-PromotedRoot}
use owlang.Rrb.Tree.{size, Radix}
use owlang.Rrb.Tree.Invariant.{IsRadix, RadixRoot}

-- A slice that is returned: a list without size tables, with the elements `xs`.
pub record SlicedList (o : Outcome Ref) (xs : List ℕ) : Type 0 where
  pub list : Ref
  pub returns : o ≡ done list
  pub radix : IsRadix (deref list)
  pub elements : rrb_list (deref list) ≡ xs

pub take-all : (n : ℕ) (xs : List ℕ) → length xs ≤ n → take n xs ≡ xs
take-all zero [] h = refl
take-all zero (x ∷ xs) h = absurd (omega arith)
take-all (suc n) [] h = refl
take-all (suc n) (x ∷ xs) h = ap (◌∷◌ x) (take-all n xs (omega arith))

-- A root with an element is a tree.
pub root-Radix : (h : ℕ) (c : Node) → RadixRoot h c → 1 ≤ size c → Radix h c
unfolding node_list
root-Radix zero Node.null r pos = absurd (omega (arith, pos))
root-Radix zero (Node.leaf xs) r pos = r
root-Radix zero (Node.internal t cs) r pos = r
root-Radix (suc h) c r pos = r

abbrev pub empty-IsRadix : IsRadix empty_rrb
unfolding node_list
empty-IsRadix = record {
  height = 0;
  levels = omega arith;
  shift = refl;
  root = tt;
  tail = refl;
  tail_fits = omega arith;
  cnt = refl;
  small = omega arith;
}

module _ (ref : Ref) (t : IsRadix (deref ref)) (right : ℕ) where
  abbrev r : Rrb
  r = deref ref

  abbrev Slice : Outcome Ref → Type 0
  Slice o = SlicedList o (take right (rrb_list r))

  length-rrb_list : length (rrb_list r) ≡ r.cnt
  unfolding rrb_list
  length-rrb_list = length-append (node_list r.root) r.tail ∙ sym t.cnt

  offset : sub32 r.cnt r.tail_len ≡ size r.root
  offset = omega (arith, t.cnt, t.tail, t.small)

  -- The cut lies in the tail.
  cut_in_tail :
      (cut : ℕ)
      → cut ≤ length r.tail
      → right ≡ size r.root + cut
      → Slice (done (Ref.fresh (record r { cnt = right; tail = take cut r.tail; tail_len = cut })))
  unfolding rrb_list deref
  cut_in_tail cut fits e = record {
    list = Ref.fresh (record r { cnt = right; tail = take cut r.tail; tail_len = cut });
    returns = refl;
    radix = record {
      height = t.height;
      levels = t.levels;
      shift = t.shift;
      root = t.root;
      tail = sym (length-take cut r.tail fits);
      tail_fits = omega (arith, length-take cut r.tail fits, t.tail_fits, fits);
      cnt = omega (arith, e, length-take cut r.tail fits);
      small = omega (arith, t.small, t.cnt, e, fits);
    };
    elements =
        let past : right - size r.root ≡ cut = omega (arith, e) in
        ap (λ n. node_list r.root ++ take n r.tail) (sym past)
        ∙ sym (take-append_right right (node_list r.root) r.tail (omega (arith, e)));
  }

  -- The cut lies in the tree.
  cut_in_tree :
      1 ≤ right
      → right ≤ size r.root
      → Slice (do
        (root, shift) ← slice_right_rec max_levels r.root (right - 1) r.shift false
        rrb' ←
            promote_rightmost_leaf
              (record { cnt = right; shift = shift; tail_len = 0; tail = []; root = root })
        done (Ref.fresh rrb'))
  unfolding promote_rightmost_leaf rrb_list deref
  cut_in_tree pos inside =
      let radix = root-Radix t.height r.root t.root (omega (arith, pos, inside)) in
      let s =
        slice_right_rec-SlicedTree max_levels t.height r.root (right - 1) false radix (omega arith)
          (omega (arith, t.levels)) t.levels in
      let p =
        promote-PromotedRoot max_levels s.height s.node s.radix (s.thick refl)
          (omega (arith, t.levels, s.low)) (omega arith) in
      let back : right - 1 + 1 ≡ right = omega arith in
      let all : node_list p.p.node ++ p.p.tail ≡ take right (rrb_list r) =
        p.elements
        ∙ s.elements
        ∙ ap (λ n. take n (node_list r.root)) back
        ∙ sym (take-append_left right (node_list r.root) r.tail inside) in
      let low_enough : ltb 30 (5 * s.height) ≡ false = ground (arith, t.levels, s.low) in
      record {
        list = Ref.fresh (record {
          cnt = right;
          shift = 5 * p.height;
          tail_len = length p.p.tail;
          tail = p.p.tail;
          root = p.p.node;
        });
        returns = rw (t.shift, s.returns, low_enough, p.returns, p.shift) refl;
        radix = record {
          height = p.height;
          levels = omega (arith, p.low, s.low, t.levels);
          shift = refl;
          root = p.root;
          tail = refl;
          tail_fits = p.tail_fits;
          cnt =
              sym (length-take right (rrb_list r) (omega (arith, t.cnt, inside, length-rrb_list)))
              ∙ ap length (sym all)
              ∙ length-append (node_list p.p.node) p.p.tail;
          small = omega (arith, t.small, t.cnt, inside);
        };
        elements = all;
      }

  take_cases : Slice (slice_right ref right)
  unfolding slice_right rrb_list
  take_cases = elim (Bool-cases (right == 0)) [
    | inl nothing ↦
        let zeroth : right ≡ 0 = ground arith in
        subst Slice (rw nothing refl) (record {
          list = Ref.empty;
          returns = refl;
          radix = empty-IsRadix;
          elements = ap (λ n. take n (rrb_list r)) (sym zeroth);
        })
    | inr some_left ↦ elim (Bool-cases (leb r.cnt right)) [
      | inl all ↦
          let whole : length (rrb_list r) ≤ right = ground (arith, length-rrb_list) in
          subst Slice (rw (some_left, all) refl) (record {
            list = ref;
            returns = refl;
            radix = t;
            elements = sym (take-all right (rrb_list r) whole);
          })
      | inr less ↦ elim (Bool-cases (ltb (size r.root) right)) [
        | inl in_tail ↦
            subst Slice (rw (some_left, less, offset, in_tail) refl)
              (cut_in_tail (right - size r.root) (ground (arith, t.cnt)) (ground arith))
        | inr in_tree ↦
            subst Slice (rw (some_left, less, offset, in_tree) refl)
              (cut_in_tree (ground arith) (ground arith))
      ]
    ]
  ]

-- Of a list without size tables, and any place in it or behind it, `slice_right` returns a list
-- without size tables that keeps the invariant, with the elements before the place.
pub slice_right-take :
    (ref : Ref)
    → IsRadix (deref ref)
    → (right : ℕ) → SlicedList (slice_right ref right) (take right (rrb_list (deref ref)))
slice_right-take ref t right = take_cases ref t right
