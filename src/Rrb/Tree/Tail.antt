-- ===== src/Rrb/Tree/Tail.antt =====
-- `rrb_concat` of vm/src/std/owl_list.c: the right list is a tail alone.
use owlang.Base.{
  ℕ, ◌+◌, ◌-◌, ◌*◌, ◌%◌, ◌^◌, ◌≤◌, ◌<◌, ◌≡◌, refl, ap, sym, ◌∙◌, arith, List, [], ◌∷◌, ◌++◌, length,
  take, drop, append_assoc, length-append, length-take, length-drop, take-append-drop, ltb, leb,
  ◌==◌, Bool-cases, inl, inr, true, false,
}
use owlang.Base.Outcome.{Outcome, done}
use owlang.Rrb.{Rrb, sub32}
use owlang.Rrb.Concat.{concat_tail}
use owlang.Rrb.View.{node_list, rrb_list}
use owlang.Rrb.Built.{Shape, Fits, rrb_of, list_of, shape_leaves, shape_root, shape_shift}
use owlang.Rrb.Built.Push.{push_shape, HasRoom, push_down_tail-shape, bounds}
use owlang.Rrb.Built.Append.{length-shape}
use owlang.Rrb.Tree.Invariant.{RadixRoot-Root, Tree-Root, IsTree}
use owlang.Rrb.Tree.Built.{
  shape_height, pushed-Tree, pushed-list, pushed-shift, shape_height_le, shape-RadixRoot,
}

-- What a concatenation returns.
pub record Joined (o : Outcome Rrb) (xs : List ℕ) : Type 0 where
  pub list : Rrb
  pub returns : o ≡ done list
  pub tree : IsTree list
  pub elements : rrb_list list ≡ xs

-- A list with the tail `t` of the shape `s` pushed down and the tail `u`.
module _ (s : Shape) (t u : List ℕ) (f : Fits s) (has : HasRoom s) (pos : 1 ≤ length t)
    (most : length t ≤ 32) (most' : length u ≤ 32) where
  pushed-Joined :
      (cnt len : ℕ) (o : Outcome Rrb)
      → cnt ≡ 32 * shape_leaves s + length t + length u
      → len ≡ length u
      → o ≡ done (list_of (push_shape s t) cnt len u)
      → Joined o (rrb_list (rrb_of s t) ++ u)
  unfolding list_of rrb_list
  pushed-Joined cnt len o e l returns =
      let many = bounds s f in
      let size = ap length (pushed-list s t) ∙ length-shape s t f in
      record {
        list = list_of (push_shape s t) cnt len u;
        returns = returns;
        tree = record {
          height = shape_height (push_shape s t);
          levels = omega (arith, shape_height_le (push_shape s t));
          shift = pushed-shift (push_shape s t);
          root =
              Tree-Root (shape_height (push_shape s t)) (shape_root (push_shape s t))
                (pushed-Tree s t f has pos most);
          tail = l;
          tail_fits = most';
          cnt = omega (arith, e, size);
          small = omega (arith, e, many, most, most');
        };
        elements = ap (λ xs. xs ++ u) (pushed-list s t);
      }

take_all : (xs : List ℕ) → take (length xs) xs ≡ xs
take_all [] = refl
take_all (x ∷ xs) = ap (◌∷◌ x) (take_all xs)

cut_list :
    (s : Shape) (t first behind u : List ℕ)
    → first ++ behind ≡ u
    → rrb_list (rrb_of s (t ++ first)) ++ behind ≡ rrb_list (rrb_of s t) ++ u
unfolding rrb_list rrb_of list_of
cut_list s t first behind u e =
    let below = node_list (shape_root s) in
    ap (λ xs. xs ++ behind) (sym (append_assoc below t first))
    ∙ append_assoc (below ++ t) first behind
    ∙ ap (λ xs. (below ++ t) ++ xs) e

-- The right list is a tail alone.
module _ (s : Shape) (t : List ℕ) (r : Rrb) (f : Fits s) (has : HasRoom s) (pos : 1 ≤ length t)
    (most : length t ≤ 32) (len : r.tail_len ≡ length r.tail) (cnt : r.cnt ≡ length r.tail)
    (most' : length r.tail ≤ 32) where
  all : ℕ
  all = (32 * shape_leaves s + length t + r.cnt) % 2 ^ 32

  tail-full : length t ≡ 32 → Joined (concat_tail (rrb_of s t) r) (rrb_list (rrb_of s t) ++ r.tail)
  unfolding concat_tail rrb_of all
  tail-full full =
      let many = bounds s f in
      let is_full : (length t == 32) ≡ true = ground (arith, full) in
      pushed-Joined s t r.tail f has pos most most' all r.tail_len (concat_tail (rrb_of s t) r)
        (omega (arith, many, cnt)) len
        (rw is_full
          (push_down_tail-shape (length t) (length t) all r.tail_len t t r.tail pos most s f has))

  tail-fits :
      length t + length r.tail ≤ 32
      → length t < 32
      → Joined (concat_tail (rrb_of s t) r) (rrb_list (rrb_of s t) ++ r.tail)
  unfolding concat_tail rrb_of list_of rrb_list all
  tail-fits fits not_full =
      let many = bounds s f in
      let partly : (length t == 32) ≡ false = ground (arith, not_full) in
      let room_left : leb (length t + r.tail_len) 32 ≡ true = ground (arith, fits, len) in
      let size = length-shape s t f in
      let below = length-append (node_list (shape_root s)) t in
      record {
        list = record {
          cnt = all;
          shift = shape_shift s;
          tail_len = length t + r.tail_len;
          tail = t ++ r.tail;
          root = shape_root s;
        };
        returns = rw (partly, room_left) refl;
        tree = record {
          height = shape_height s;
          levels = omega (arith, shape_height_le s);
          shift = pushed-shift s;
          root = RadixRoot-Root (shape_height s) (shape_root s) (shape-RadixRoot s f);
          tail = omega (arith, length-append t r.tail, len);
          tail_fits = omega (arith, length-append t r.tail, fits);
          cnt = omega (arith, length-append t r.tail, size, below, many, cnt, most, most');
          small = omega (arith, many, cnt, most, most');
        };
        elements = sym (append_assoc (node_list (shape_root s)) t r.tail);
      }

  tail-cut :
      32 < length t + length r.tail
      → length t < 32
      → Joined (concat_tail (rrb_of s t) r) (rrb_list (rrb_of s t) ++ r.tail)
  unfolding concat_tail rrb_of all
  tail-cut over not_full =
      let n = length t in
      let cut = 32 - n in
      let rest = r.tail_len - cut in
      let joined = t ++ take cut r.tail in
      let behind = drop cut r.tail in
      let many = bounds s f in
      let partly : (n == 32) ≡ false = ground (arith, not_full) in
      let no_room : leb (n + r.tail_len) 32 ≡ false = ground (arith, over, len) in
      let whole : length joined ≡ 32 =
        length-append t (take cut r.tail)
        ∙ omega (arith, length-take cut r.tail (omega (arith, over, most)), most) in
      let left_cnt : sub32 all rest ≡ 32 * shape_leaves s + 32 =
        omega (arith, many, cnt, len, over, most, most') in
      let left_size : length behind ≡ rest = length-drop cut r.tail ∙ omega (arith, len) in
      let last : take rest behind ≡ behind =
        ap (λ k. take k behind) (sym left_size) ∙ take_all behind in
      let first : take n t ≡ t = take_all t in
      let pushed =
        push_down_tail-shape 32 n all rest t joined behind (omega arith) (omega arith) s f has in
      let j =
        pushed-Joined s joined behind f has (omega (arith, whole)) (omega (arith, whole))
          (omega (arith, left_size, most')) all rest (concat_tail (rrb_of s t) r)
          (omega (arith, many, cnt, whole, left_size, len, over, most, most')) (sym left_size)
          (rw (partly, no_room, left_cnt, last, first) pushed) in
      record {
        list = j.list;
        returns = j.returns;
        tree = j.tree;
        elements =
            j.elements ∙ cut_list s t (take cut r.tail) behind r.tail (take-append-drop cut r.tail);
      }

  pub tail-Joined : Joined (concat_tail (rrb_of s t) r) (rrb_list (rrb_of s t) ++ r.tail)
  tail-Joined = elim (Bool-cases (ltb (length t) 32)) [
    | inr full ↦ tail-full (ground arith)
    | inl not_full ↦ elim (Bool-cases (leb (length t + length r.tail) 32)) [
      | inl fits ↦ tail-fits (ground arith) (ground arith)
      | inr over ↦ tail-cut (ground arith) (ground arith)
    ]
  ]
