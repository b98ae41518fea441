-- ===== src/Rrb/Built.antt =====
-- The trees that pushing builds, from vm/src/std/owl_list.c: full leaves, no size tables, and at
-- most two nodes under the root at height two.
mod Tests
pub mod Count
pub mod Push
pub mod Append
pub mod Nth
pub mod Memory
use owlang.Base.{
  ℕ, ◌+◌, ◌*◌, ◌≤◌, ◌<◌, ◌≡◌, refl, List, [], ◌∷◌, ◌++◌, length, arith, none, append_assoc,
  append-nil,
}
use owlang.Rrb.{Node, Nodes, Rrb, nodes_length, nodes_snoc, nodes_set}
use owlang.Rrb.View.{node_list, nodes_list, rrb_list}

pub data Shape : Type 0 where
  no_root : Shape
  one_leaf : List ℕ → Shape
  height_one : List (List ℕ) → Shape
  height_two : List (List ℕ) → List (List ℕ) → Shape

unfoldable pub leaves : List (List ℕ) → Nodes
leaves [] = Nodes.nil
leaves (l ∷ ls) = Nodes.cons (Node.leaf l) (leaves ls)

abbrev pub over_leaves : List (List ℕ) → Node
over_leaves ls = Node.internal none (leaves ls)

unfoldable pub shape_root : Shape → Node
unfolding leaves
shape_root Shape.no_root = Node.null
shape_root (Shape.one_leaf l) = Node.leaf l
shape_root (Shape.height_one ls) = over_leaves ls
shape_root (Shape.height_two a b) =
    Node.internal none (Nodes.cons (over_leaves a) (Nodes.cons (over_leaves b) Nodes.nil))

unfoldable pub shape_shift : Shape → ℕ
shape_shift Shape.no_root = 0
shape_shift (Shape.one_leaf l) = 0
shape_shift (Shape.height_one ls) = 5
shape_shift (Shape.height_two a b) = 10

-- The number of leaves below the root.
unfoldable pub shape_leaves : Shape → ℕ
shape_leaves Shape.no_root = 0
shape_leaves (Shape.one_leaf l) = 1
shape_leaves (Shape.height_one ls) = length ls
shape_leaves (Shape.height_two a b) = 32 + length b

abbrev pub AllFull : List (List ℕ) → Type 0
AllFull [] = Unit
AllFull (l ∷ ls) = (length l ≡ 32) × AllFull ls

abbrev pub Fits : Shape → Type 0
Fits Shape.no_root = Unit
Fits (Shape.one_leaf l) = length l ≡ 32
Fits (Shape.height_one ls) = AllFull ls × (2 ≤ length ls) × (length ls ≤ 32)
Fits (Shape.height_two a b) =
    AllFull a × AllFull b × (length a ≡ 32) × (1 ≤ length b) × (length b ≤ 32)

-- A list with the tree of a shape, whatever its other fields are.
unfoldable pub list_of : Shape → ℕ → ℕ → List ℕ → Rrb
unfolding shape_root shape_shift
list_of s cnt tail_len tail = record {
  cnt = cnt;
  shift = shape_shift s;
  tail_len = tail_len;
  tail = tail;
  root = shape_root s;
}

unfoldable pub rrb_of : Shape → List ℕ → Rrb
unfolding list_of shape_leaves
rrb_of s tail = list_of s (32 * shape_leaves s + length tail) (length tail) tail

-- The tree is one that pushing builds.
pub record IsBuilt (r : Rrb) : Type 0 where
  pub shape : Shape
  pub tail : List ℕ
  pub is_of : r ≡ rrb_of shape tail
  pub fits : Fits shape
  pub tail_fits : length tail ≤ 32

pub nodes_length-leaves : (ls : List (List ℕ)) → nodes_length (leaves ls) ≡ length ls
unfolding leaves nodes_length
nodes_length-leaves [] = refl
nodes_length-leaves (l ∷ ls) = rw (nodes_length-leaves ls)

pub AllFull-snoc :
    (ls : List (List ℕ)) (t : List ℕ) → AllFull ls → length t ≡ 32 → AllFull (ls ++ t ∷ [])
AllFull-snoc [] t f h = (h, tt)
AllFull-snoc (l ∷ ls) t f h = (f.0, AllFull-snoc ls t f.1 h)

pub nodes_snoc-leaves :
    (ls : List (List ℕ)) (t : List ℕ) → nodes_snoc (leaves ls) (Node.leaf t) ≡ leaves (ls ++ t ∷ [])
unfolding leaves nodes_snoc
nodes_snoc-leaves [] t = refl
nodes_snoc-leaves (l ∷ ls) t = rw (nodes_snoc-leaves ls t)

pub nodes_list-snoc :
    (ls : List (List ℕ)) (t : List ℕ)
    → nodes_list (leaves (ls ++ t ∷ [])) ≡ nodes_list (leaves ls) ++ t
unfolding leaves node_list
nodes_list-snoc [] t = append-nil t
nodes_list-snoc (l ∷ ls) t = simp (nodes_list-snoc ls t, append_assoc)
