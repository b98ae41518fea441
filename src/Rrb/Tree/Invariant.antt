-- ===== src/Rrb/Tree/Invariant.antt =====
-- What every list of vm/src/std/owl_list.c keeps: the fields of `struct RRB` and its tree.
use owlang.Base.{suc, ℕ, zero, ◌+◌, ◌*◌, ◌^◌, ◌≤◌, ◌<◌, ◌≡◌, length, arith}
use owlang.Rrb.{Node, Rrb}
use owlang.Rrb.View.{node_list}
use owlang.Rrb.Tree.{Tree, Radix, Radix-Tree}

-- A root is NULL at height 0, or a tree.
abbrev pub Root : ℕ → Node → Type 0
Root zero Node.null = Unit
Root h c = Tree h c

pub record IsTree (r : Rrb) : Type 0 where
  pub height : ℕ
  pub levels : height ≤ 7
  pub shift : r.shift ≡ 5 * height
  pub root : Root height r.root
  pub tail : r.tail_len ≡ length r.tail
  pub tail_fits : length r.tail ≤ 32
  pub cnt : r.cnt ≡ length (node_list r.root) + length r.tail
  pub small : r.cnt < 2 ^ 32

-- A tree can be a root.
pub Tree-Root : (h : ℕ) (c : Node) → Tree h c → Root h c
Tree-Root zero Node.null t = absurd t
Tree-Root zero (Node.leaf xs) t = t
Tree-Root zero (Node.internal t cs) r = r
Tree-Root (suc h) c t = t

-- A root without size tables.
abbrev pub RadixRoot : ℕ → Node → Type 0
RadixRoot zero Node.null = Unit
RadixRoot h c = Radix h c

-- A list whose tree has no size tables, and is not above `RRB_MAX_HEIGHT`.
pub record IsRadix (r : Rrb) : Type 0 where
  pub height : ℕ
  pub levels : height ≤ 6
  pub shift : r.shift ≡ 5 * height
  pub root : RadixRoot height r.root
  pub tail : r.tail_len ≡ length r.tail
  pub tail_fits : length r.tail ≤ 32
  pub cnt : r.cnt ≡ length (node_list r.root) + length r.tail
  pub small : r.cnt < 2 ^ 32

pub Radix-RadixRoot : (h : ℕ) (c : Node) → Radix h c → RadixRoot h c
Radix-RadixRoot zero Node.null t = absurd t
Radix-RadixRoot zero (Node.leaf xs) t = t
Radix-RadixRoot zero (Node.internal t cs) r = r
Radix-RadixRoot (suc h) c t = t

pub RadixRoot-Root : (h : ℕ) (c : Node) → RadixRoot h c → Root h c
RadixRoot-Root zero Node.null t = tt
RadixRoot-Root zero (Node.leaf xs) t = t
RadixRoot-Root zero (Node.internal t cs) r = absurd r
RadixRoot-Root (suc h) c t = Radix-Tree (suc h) c t

abbrev pub IsRadix-IsTree : {r : Rrb} → IsRadix r → IsTree r
IsRadix-IsTree {r} t = record {
  height = t.height;
  levels = omega (arith, t.levels);
  shift = t.shift;
  root = RadixRoot-Root t.height r.root t.root;
  tail = t.tail;
  tail_fits = t.tail_fits;
  cnt = t.cnt;
  small = t.small;
}
