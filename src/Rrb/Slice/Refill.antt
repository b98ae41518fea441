-- ===== src/Rrb/Slice/Refill.antt =====
-- `refill_root`, the end of `slice_left` of vm/src/std/owl_list.c on any list that keeps the invariant.
use owlang.Base.{
  ℕ, ◌-◌, ◌≤◌, ◌<◌, ◌≡◌, inl, inr, refl, sym, ◌∙◌, ap, arith, true, false, Bool-cases, List, ◌++◌,
  length, take, drop, ltb, leb, ◌==◌, length-append, length-take, length-drop, append_assoc,
  take-append-drop,
}
use owlang.Base.Outcome.{Outcome, done}
use owlang.Rrb.{Node, Rrb, Ref, deref, sub32}
use owlang.Rrb.View.{node_list, rrb_list}
use owlang.Rrb.Slice.Left.{refill, refill_root}
use owlang.Rrb.Slice.Take.{take-all}
use owlang.Rrb.Tree.{size}
use owlang.Rrb.Tree.Invariant.{IsTree}

-- A list that is returned, with the elements `xs`.
pub record CutList (o : Outcome Ref) (xs : List ℕ) : Type 0 where
  pub list : Ref
  pub returns : o ≡ done list
  pub tree : IsTree (deref list)
  pub elements : rrb_list (deref list) ≡ xs

-- A list with its root filled up.
record Refilled (r : Rrb) : Type 0 where
  pub list : Rrb
  pub returns : refill_root r r.root ≡ done list
  pub tree : IsTree list
  pub elements : rrb_list list ≡ rrb_list r

unchanged : (r : Rrb) → IsTree r → refill_root r r.root ≡ done r → Refilled r
unchanged r t e = record { list = r; returns = e; tree = t; elements = refl }

module _ (r : Rrb) (t : IsTree r) (xs : List ℕ) (leaf : r.root ≡ Node.leaf xs) where
  size-leaf : size r.root ≡ length xs
  unfolding node_list
  size-leaf = ap size leaf

  -- All elements fit in the tail.
  all_in_tail : r.shift ≡ 0 → r.cnt ≤ 32 → Refilled r
  unfolding refill_root rrb_list node_list
  all_in_tail low small =
      let all : take r.tail_len r.tail ≡ r.tail =
        take-all r.tail_len r.tail (omega (arith, t.tail)) in
      let whole : leb r.cnt 32 ≡ true = ground arith in
      let len : length (xs ++ r.tail) ≡ r.cnt =
        omega (arith, length-append xs r.tail, t.cnt, size-leaf) in
      record {
        list = record r { tail = xs ++ r.tail; tail_len = r.cnt; root = Node.null };
        returns = rw (leaf, low, whole, all) refl;
        tree = record {
          height = 0;
          levels = omega arith;
          shift = low;
          root = tt;
          tail = sym len;
          tail_fits = omega (arith, len, small);
          cnt = omega (arith, len);
          small = t.small;
        };
        elements = ap (λ c. node_list c ++ r.tail) (sym leaf);
      }

  -- The root takes as many elements of the tail as it has room for.
  root_filled : r.shift ≡ 0 → 32 < r.cnt → length xs < 32 → Refilled r
  unfolding refill_root rrb_list node_list
  root_filled low many short =
      let cut = 32 - length xs in
      let more : leb r.cnt 32 ≡ false = ground arith in
      let offset : sub32 r.cnt r.tail_len ≡ length xs =
        omega (arith, t.cnt, t.tail, t.small, size-leaf) in
      let room : ltb (length xs) 32 ≡ true = ground arith in
      let len_front : length (take cut r.tail) ≡ cut =
        length-take cut r.tail (omega (arith, t.cnt, size-leaf, many)) in
      let len_back = length-drop cut r.tail in
      let all : take (r.tail_len - cut) (drop cut r.tail) ≡ drop cut r.tail =
        take-all (r.tail_len - cut) (drop cut r.tail) (omega (arith, len_back, t.tail)) in
      let len_root = length-append xs (take cut r.tail) in
      record {
        list = record r {
          tail = drop cut r.tail;
          tail_len = r.tail_len - cut;
          root = Node.leaf (xs ++ take cut r.tail);
        };
        returns = rw (leaf, low, more, offset, room, all) refl;
        tree = record {
          height = 0;
          levels = omega arith;
          shift = low;
          root = (
            omega (arith, len_root, len_front, short),
            omega (arith, len_root, len_front, short),
          );
          tail = omega (arith, len_back, t.tail);
          tail_fits = omega (arith, len_back, t.tail_fits);
          cnt = omega (arith, len_root, len_front, len_back, t.cnt, size-leaf, many, short);
          small = t.small;
        };
        elements =
            append_assoc xs (take cut r.tail) (drop cut r.tail)
            ∙ ap (λ ys. xs ++ ys) (take-append-drop cut r.tail)
            ∙ ap (λ c. node_list c ++ r.tail) (sym leaf);
      }

refill_leaf : (r : Rrb) (xs : List ℕ) → IsTree r → r.root ≡ Node.leaf xs → Refilled r
unfolding refill_root
refill_leaf r xs t leaf = elim (Bool-cases (r.shift == 0)) [
  | inr high ↦ unchanged r t (rw (leaf, high) refl)
  | inl low ↦
      let zeroth : r.shift ≡ 0 = ground arith in
      elim (Bool-cases (leb r.cnt 32)) [
        | inl small ↦ all_in_tail r t xs leaf zeroth (ground arith)
        | inr many ↦
            let offset : sub32 r.cnt r.tail_len ≡ length xs =
              omega (arith, t.cnt, t.tail, t.small, size-leaf r t xs leaf) in
            elim (Bool-cases (ltb (length xs) 32)) [
              | inl short ↦ root_filled r t xs leaf zeroth (ground arith) (ground arith)
              | inr full ↦ unchanged r t (rw (leaf, low, many, offset, full) refl)
            ]
      ]
]

refill_root-Refilled : (r : Rrb) (c : Node) → r.root ≡ c → IsTree r → Refilled r
unfolding refill_root
refill_root-Refilled r Node.null e t = unchanged r t (rw e refl)
refill_root-Refilled r (Node.leaf xs) e t = refill_leaf r xs t e
refill_root-Refilled r (Node.internal table cs) e t = unchanged r t (rw e refl)

pub refill-CutList : (ref : Ref) → IsTree (deref ref) → CutList (refill ref) (rrb_list (deref ref))
unfolding refill deref
refill-CutList Ref.empty t = record { list = Ref.empty; returns = refl; tree = t; elements = refl }
refill-CutList (Ref.given p r) t =
    let f = refill_root-Refilled r r.root refl t in
    record {
      list = Ref.given p f.list;
      returns = rw f.returns refl;
      tree = f.tree;
      elements = f.elements;
    }
refill-CutList (Ref.fresh r) t =
    let f = refill_root-Refilled r r.root refl t in
    record {
      list = Ref.fresh f.list;
      returns = rw f.returns refl;
      tree = f.tree;
      elements = f.elements;
    }
