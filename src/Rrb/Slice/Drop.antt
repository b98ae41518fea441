-- ===== src/Rrb/Slice/Drop.antt =====
-- `slice_left` of vm/src/std/owl_list.c on lists without size tables.
use owlang.Base.{
  zero, suc, ℕ, ◌-◌, ◌*◌, ◌≤◌, ◌<◌, ◌≡◌, inl, inr, refl, sym, subst, ◌∙◌, ap, arith, false,
  Bool-cases, List, [], ◌∷◌, ◌++◌, length, take, drop, leb, ◌==◌, length-append, length-drop,
}
use owlang.Base.Outcome.{Outcome, done, ◌>>=◌}
use owlang.Rrb.{Node, Rrb, Ref, deref, empty_rrb, sub32}
use owlang.Rrb.Nth.{max_levels}
use owlang.Rrb.View.{node_list, rrb_list}
use owlang.Rrb.Slice.{Sliced}
use owlang.Rrb.Slice.Left.{rrb_slice, slice_left, slice_left_rec, set_last_size, refill}
use owlang.Rrb.Slice.After.{drop-append_left, drop-append_right}
use owlang.Rrb.Slice.Descend.{slice_left_rec-CutTree}
use owlang.Rrb.Slice.Refill.{CutList, refill-CutList}
use owlang.Rrb.Slice.Take.{slice_right-take, empty-IsRadix, take-all, root-Radix}
use owlang.Rrb.Tree.{size}
use owlang.Rrb.Tree.Invariant.{IsTree, IsRadix, Tree-Root, IsRadix-IsTree}

drop-all : (n : ℕ) (xs : List ℕ) → length xs ≤ n → drop n xs ≡ []
drop-all zero [] h = refl
drop-all zero (x ∷ xs) h = absurd (omega arith)
drop-all (suc n) [] h = refl
drop-all (suc n) (x ∷ xs) h = drop-all n xs (omega arith)

module _ (ref : Ref) (t : IsRadix (deref ref)) (left : ℕ) where
  abbrev r : Rrb
  r = deref ref

  abbrev Cut : Outcome Ref → Type 0
  Cut o = CutList o (drop left (rrb_list r))

  length-rrb_list : length (rrb_list r) ≡ r.cnt
  unfolding rrb_list
  length-rrb_list = length-append (node_list r.root) r.tail ∙ sym t.cnt

  -- The cut lies in the tail.
  keep_tail :
      left < r.cnt
      → r.cnt - left ≤ r.tail_len
      → Cut (
          done (
            Ref.fresh (record empty_rrb {
              cnt = r.cnt - left;
              tail_len = r.cnt - left;
              tail = take (r.cnt - left) (drop (r.tail_len - (r.cnt - left)) r.tail);
            })))
  unfolding rrb_list deref node_list
  keep_tail lt in_tail =
      let from = r.tail_len - (r.cnt - left) in
      let len = length-drop from r.tail in
      let all : take (r.cnt - left) (drop from r.tail) ≡ drop from r.tail =
        take-all (r.cnt - left) (drop from r.tail) (omega (arith, len, t.tail)) in
      let past : left - size r.root ≡ from = omega (arith, t.cnt, t.tail, lt, in_tail) in
      record {
        list = Ref.fresh (record empty_rrb {
          cnt = r.cnt - left;
          tail_len = r.cnt - left;
          tail = take (r.cnt - left) (drop from r.tail);
        });
        returns = refl;
        tree = record {
          height = 0;
          levels = omega arith;
          shift = refl;
          root = tt;
          tail = omega (arith, ap length all, len, t.tail, in_tail);
          tail_fits = omega (arith, ap length all, len, t.tail_fits);
          cnt = omega (arith, ap length all, len, t.tail, in_tail);
          small = omega (arith, t.small);
        };
        elements =
            all
            ∙ ap (λ n. drop n r.tail) (sym past)
            ∙ sym (
                drop-append_right left (node_list r.root) r.tail
                  (omega (arith, t.cnt, t.tail, lt, in_tail)));
      }

  -- The cut root with its table repaired.
  abbrev repair : Outcome Sliced → Outcome Ref
  repair o = do
    (node, shift) ← o
    root ← set_last_size node shift (sub32 (r.cnt - left) r.tail_len)
    refill (Ref.fresh (record r { cnt = r.cnt - left; shift = shift; root = root }))

  repair-done :
      (o : Outcome Sliced) (node : Node) (shift : ℕ) (fixed : Node) (list : Ref)
      → o ≡ done (node, shift)
      → set_last_size node shift (sub32 (r.cnt - left) r.tail_len) ≡ done fixed
      → refill (Ref.fresh (record r { cnt = r.cnt - left; shift = shift; root = fixed }))
        ≡ done list
      → repair o ≡ done list
  repair-done o node shift fixed list cut set last = rw (cut, set) last

  -- The cut lies in the tree.
  drop_in_tree :
      left < r.cnt
      → r.tail_len < r.cnt - left
      → Cut (repair (slice_left_rec max_levels r.root left r.shift false))
  unfolding rrb_list deref
  drop_in_tree lt in_tree =
      let inside : left < size r.root = omega (arith, t.cnt, t.tail, in_tree) in
      let radix = root-Radix t.height r.root t.root (omega (arith, inside)) in
      let c =
        slice_left_rec-CutTree max_levels t.height r.root left radix inside
          (omega (arith, t.small, t.cnt)) (omega (arith, t.levels)) t.levels in
      let len = length-drop left (node_list r.root) in
      let total : sub32 (r.cnt - left) r.tail_len ≡ length (drop left (node_list r.root)) =
        omega (arith, len, t.cnt, t.tail, t.small, inside) in
      let cut = record r { cnt = r.cnt - left; shift = 5 * c.height; root = c.fixed } in
      let cut-IsTree : IsTree cut = record {
        height = c.height;
        levels = omega (arith, c.low, t.levels);
        shift = refl;
        root = Tree-Root c.height c.fixed c.tree;
        tail = t.tail;
        tail_fits = t.tail_fits;
        cnt = omega (arith, ap length c.elements, len, t.cnt, inside);
        small = omega (arith, t.small);
      } in
      let f = refill-CutList (Ref.fresh cut) cut-IsTree in
      record {
        list = f.list;
        returns =
            repair-done _ c.node (5 * c.height) c.fixed f.list (rw t.shift c.returns)
              (rw total c.repairs) f.returns;
        tree = f.tree;
        elements =
            f.elements
            ∙ ap (λ xs. xs ++ r.tail) c.elements
            ∙ sym (drop-append_left left (node_list r.root) r.tail (omega (arith, inside)));
      }

  drop_cases : Cut (slice_left ref left)
  unfolding slice_left rrb_list
  drop_cases = elim (Bool-cases (leb r.cnt left)) [
    | inl nothing ↦
        let past : length (rrb_list r) ≤ left = ground (arith, length-rrb_list) in
        subst Cut (rw nothing refl) (record {
          list = Ref.empty;
          returns = refl;
          tree = IsRadix-IsTree empty-IsRadix;
          elements = sym (drop-all left (rrb_list r) past);
        })
    | inr some_left ↦ elim (Bool-cases (left == 0)) [
      | inl all ↦
          let zeroth : 0 ≡ left = ground arith in
          subst Cut (rw (some_left, all) refl) (
            subst (λ n. CutList (refill ref) (drop n (rrb_list r))) zeroth
              (refill-CutList ref (IsRadix-IsTree t)))
      | inr less ↦ elim (Bool-cases (leb (r.cnt - left) r.tail_len)) [
        | inl in_tail ↦
            subst Cut (rw (some_left, less, in_tail) refl) (keep_tail (ground arith) (ground arith))
        | inr in_tree ↦
            subst Cut (rw (some_left, less, in_tree) refl)
              (drop_in_tree (ground arith) (ground arith))
      ]
    ]
  ]

-- Of a list without size tables, and any place in it or behind it, `slice_left` returns a list that
-- keeps the invariant, with the elements from the place on.
pub slice_left-drop :
    (ref : Ref)
    → IsRadix (deref ref)
    → (left : ℕ) → CutList (slice_left ref left) (drop left (rrb_list (deref ref)))
slice_left-drop ref t left = drop_cases ref t left

-- Of a list without size tables that keeps the invariant, and any two places, `rrb_slice` returns a list that keeps the
-- invariant, with the elements from the one place up to the other.
pub rrb_slice-drop-take :
    (ref : Ref)
    → IsRadix (deref ref)
    → (from to : ℕ) → CutList (rrb_slice ref from to) (drop from (take to (rrb_list (deref ref))))
unfolding rrb_slice
rrb_slice-drop-take ref t from to =
    let s = slice_right-take ref t to in
    let c = slice_left-drop s.list s.radix from in
    record {
      list = c.list;
      returns = rw s.returns c.returns;
      tree = c.tree;
      elements = c.elements ∙ ap (drop from) s.elements;
    }
