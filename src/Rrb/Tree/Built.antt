-- ===== src/Rrb/Tree/Built.antt =====
-- The lists that pushing builds, from vm/src/std/owl_list.c, among those that have trees.
use owlang.Base.{
  ℕ, ◌+◌, ◌*◌, ◌≤◌, ◌<◌, ◌≡◌, refl, sym, ◌∙◌, subst, arith, List, [], ◌∷◌, ◌++◌, length, All,
  append_assoc, append-nil, length-append, ltb, Bool-cases, inl, inr,
}
use owlang.Rrb.{Rrb, nodes_to_list}
use owlang.Rrb.View.{node_list, rrb_list}
use owlang.Rrb.Built.{
  Shape, Fits, AllFull, IsBuilt, leaves, rrb_of, list_of, shape_leaves, shape_root, shape_shift,
  nodes_length-leaves, nodes_list-snoc,
}
use owlang.Rrb.Built.Push.{push_shape, HasRoom, push_down_tail-shape, bounds}
use owlang.Rrb.Built.Append.{length-shape}
use owlang.Rrb.Tree.{Front, Full, Radix, Tree, nodes_length-list}
use owlang.Rrb.Tree.Invariant.{IsRadix, IsRadix-IsTree, RadixRoot, IsTree}
use owlang.Rrb.Tree.Lists.{PushesDown}

pub shape_height : Shape → ℕ
shape_height Shape.no_root = 0
shape_height (Shape.one_leaf l) = 0
shape_height (Shape.height_one ls) = 1
shape_height (Shape.height_two a b) = 2

-- Full leaves and a last one.
Front-snoc :
    (ls : List (List ℕ)) (t : List ℕ)
    → AllFull ls
    → 1 ≤ length t
    → length t ≤ 32
    → Front (Full 0) (Radix 0) (nodes_to_list (leaves (ls ++ t ∷ [])))
unfolding leaves nodes_to_list
Front-snoc [] t f pos most = (pos, most)
Front-snoc (l ∷ []) t (e, f) pos most = (e, (pos, most))
Front-snoc (l ∷ m ∷ ls) t (e, f) pos most = (e, Front-snoc (m ∷ ls) t f pos most)

Front-leaves :
    (ls : List (List ℕ))
    → AllFull ls
    → 1 ≤ length ls
    → Front (Full 0) (Radix 0) (nodes_to_list (leaves ls))
unfolding leaves nodes_to_list
Front-leaves [] f pos = absurd (omega (arith, pos))
Front-leaves (l ∷ []) (e, f) pos = omega (arith, e)
Front-leaves (l ∷ m ∷ ls) (e, f) pos = (e, Front-leaves (m ∷ ls) f (omega arith))

length-leaves_list : (ls : List (List ℕ)) → length (nodes_to_list (leaves ls)) ≡ length ls
length-leaves_list ls = sym (nodes_length-list (leaves ls)) ∙ nodes_length-leaves ls

leaves-All : (ls : List (List ℕ)) → AllFull ls → All (Full 0) (nodes_to_list (leaves ls))
unfolding leaves nodes_to_list
leaves-All [] f = tt
leaves-All (l ∷ ls) (e, f) = (e, leaves-All ls f)

-- The tree of a shape whose last leaf is the tail that has been pushed down.
pub pushed-Tree :
    (s : Shape) (t : List ℕ)
    → Fits s
    → HasRoom s
    → 1 ≤ length t
    → length t ≤ 32
    → Tree (shape_height (push_shape s t)) (shape_root (push_shape s t))
unfolding push_shape shape_height shape_root nodes_to_list
pushed-Tree Shape.no_root t f room pos most = (pos, most)
pushed-Tree (Shape.one_leaf l) t f room pos most =
    (omega (arith, length-leaves_list (l ∷ t ∷ [])), Front-snoc (l ∷ []) t (f, tt) pos most)
pushed-Tree (Shape.height_one ls) t (all, lo, hi) room pos most =
    elim (Bool-cases (ltb (length ls) 32)) [
      | inl h ↦ rw h (
        ground (arith, length-leaves_list (ls ++ t ∷ []), length-append ls (t ∷ [])),
        Front-snoc ls t all pos most,
      )
      | inr h ↦ rw h (
        omega arith,
        (
          (ground (arith, length-leaves_list ls), leaves-All ls all),
          (omega (arith, length-leaves_list (t ∷ [])), Front-snoc [] t tt pos most),
        ),
      )
    ]
pushed-Tree (Shape.height_two a b) t (fa, fb, la, lo, hi) room pos most = (
  omega arith,
  (
    (omega (arith, length-leaves_list a), leaves-All a fa),
    (
      omega (arith, length-leaves_list (b ++ t ∷ []), length-append b (t ∷ [])),
      Front-snoc b t fb pos most,
    ),
  ),
)

pub pushed-list :
    (s : Shape) (t : List ℕ) → node_list (shape_root (push_shape s t)) ≡ rrb_list (rrb_of s t)
unfolding rrb_list node_list rrb_of push_shape
pushed-list Shape.no_root t = refl
pushed-list (Shape.one_leaf l) t = simp append-nil
pushed-list (Shape.height_one ls) t = elim (Bool-cases (ltb (length ls) 32)) [
  | inl h ↦ rw h (simp nodes_list-snoc)
  | inr h ↦ rw h (simp append-nil)
]
pushed-list (Shape.height_two a b) t = simp (nodes_list-snoc, append-nil, append_assoc)

pub pushed-shift : (s : Shape) → shape_shift s ≡ 5 * shape_height s
unfolding shape_shift shape_height
pushed-shift Shape.no_root = refl
pushed-shift (Shape.one_leaf l) = refl
pushed-shift (Shape.height_one ls) = refl
pushed-shift (Shape.height_two a b) = refl

pub shape_height_le : (s : Shape) → shape_height s ≤ 2
unfolding shape_height
shape_height_le Shape.no_root = omega arith
shape_height_le (Shape.one_leaf l) = omega arith
shape_height_le (Shape.height_one ls) = omega arith
shape_height_le (Shape.height_two a b) = omega arith

-- A tree of the shape itself.
pub shape-RadixRoot : (s : Shape) → Fits s → RadixRoot (shape_height s) (shape_root s)
unfolding shape_height shape_root nodes_to_list
shape-RadixRoot Shape.no_root f = tt
shape-RadixRoot (Shape.one_leaf l) f = (omega arith, omega arith)
shape-RadixRoot (Shape.height_one ls) (all, lo, hi) =
    (omega (arith, length-leaves_list ls), Front-leaves ls all (omega arith))
shape-RadixRoot (Shape.height_two a b) (fa, fb, la, lo, hi) = (
  omega arith,
  (
    (omega (arith, length-leaves_list a), leaves-All a fa),
    (omega (arith, length-leaves_list b), Front-leaves b fb lo),
  ),
)

-- What pushing builds has no size tables.
pub IsBuilt-IsRadix : {r : Rrb} → IsBuilt r → IsRadix r
unfolding rrb_of rrb_list
IsBuilt-IsRadix {r} b =
    let s = b.shape in
    let size = length-shape s b.tail b.fits in
    let many = bounds s b.fits in
    subst IsRadix (sym b.is_of) (record {
      height = shape_height s;
      levels = omega (arith, shape_height_le s);
      shift = pushed-shift s;
      root = shape-RadixRoot s b.fits;
      tail = refl;
      tail_fits = b.tail_fits;
      cnt = sym size ∙ length-append (node_list (shape_root s)) b.tail;
      small = omega (arith, b.tail_fits);
    })

pub IsBuilt-IsTree : {r : Rrb} → IsBuilt r → IsTree r
IsBuilt-IsTree b = IsRadix-IsTree (IsBuilt-IsRadix b)

pub room : (s : Shape) → Fits s → shape_leaves s < 64 → HasRoom s
unfolding shape_leaves
room Shape.no_root f lt = tt
room (Shape.one_leaf l) f lt = tt
room (Shape.height_one ls) f lt = tt
room (Shape.height_two a b) f lt = omega (arith, lt)

-- Up to 2048 elements the tail of what pushing builds can be pushed down.
pub IsBuilt-PushesDown : {r : Rrb} → IsBuilt r → 1 ≤ r.tail_len → r.cnt ≤ 2048 → PushesDown r
unfolding rrb_of
IsBuilt-PushesDown {r} b pos small =
    let s = b.shape in
    let t = b.tail in
    let n = length t in
    let pos' : 1 ≤ n = subst (λ q. 1 ≤ q.tail_len) b.is_of pos in
    let small' : 32 * shape_leaves s + n ≤ 2048 = subst (λ q. q.cnt ≤ 2048) b.is_of small in
    let has = room s b.fits (omega (arith, pos', small')) in
    subst PushesDown (sym b.is_of) (record {
      left = list_of (push_shape s t) (32 * shape_leaves s + n) n [];
      returns =
          push_down_tail-shape n n (32 * shape_leaves s + n) n t t [] pos' b.tail_fits s b.fits has;
      height = shape_height (push_shape s t);
      levels = omega (arith, shape_height_le (push_shape s t));
      shift = pushed-shift (push_shape s t);
      tree = pushed-Tree s t b.fits has pos' b.tail_fits;
      same = pushed-list s t;
      cnt = sym (length-shape s t b.fits);
    })
