-- ===== src/Rrb.antt =====
-- vm/src/std/owl_list.h and owl_list.c: the relaxed radix balanced tree behind owl's lists.
-- Nodes are never changed once another node points at them, so a tree is a value here; the
-- forward flags and addresses of nodes belong to the collector and are not in it.
pub mod Nth
pub mod Push
pub mod Memory
pub mod View
pub mod Tree
pub mod Built
pub mod Sizes
pub mod Concat
pub mod Plan
pub mod Slice
pub mod Update
mod Tests
use owlang.Base.{
  ℕ, zero, suc, ◌+◌, ◌-◌, ◌*◌, ◌/◌, ◌%◌, ◌^◌, Option, none, some, List, [], ◌∷◌, get_elem?, length,
  ltb, if◌then◌else◌,
}
use owlang.Base.Outcome.{Outcome, done, fault, ◌>>=◌}

-- `RRB_BRANCHING`
abbrev pub branching : ℕ
branching = 32

-- `RRB_MASK`
abbrev pub mask : ℕ
mask = 31

-- `RRB_BITS`
abbrev pub bits : ℕ
bits = 5

-- `INC_SHIFT`, `DEC_SHIFT` on `uint32_t`
abbrev pub inc_shift : ℕ → ℕ
inc_shift shift = (shift + bits) % 2 ^ 32

abbrev pub dec_shift : ℕ → ℕ
dec_shift shift = (shift + 2 ^ 32 - bits) % 2 ^ 32

-- `a - b` on `uint32_t`
abbrev pub sub32 : ℕ → ℕ → ℕ
sub32 a b = (a + 2 ^ 32 - b) % 2 ^ 32

-- A `TreeNode *`: NULL, a leaf with its elements, or an internal node with its size table, if it
-- has one, and its children. `len` is the number of children.
mutual
  pub data Node : Type 0 where
    null : Node
    leaf : List ℕ → Node
    internal : Option (List ℕ) → Nodes → Node

  pub data Nodes : Type 0 where
    nil : Nodes
    cons : Node → Nodes → Nodes

-- `struct RRB`. The tail is the list of the elements of its leaf.
pub record Rrb : Type 0 where
  pub cnt : ℕ
  pub shift : ℕ
  pub tail_len : ℕ
  pub tail : List ℕ
  pub root : Node

-- `EMPTY_RRB`
abbrev pub empty_rrb : Rrb
empty_rrb = record { cnt = 0; shift = 0; tail_len = 0; tail = []; root = Node.null }

-- `rrb_create`
abbrev pub rrb_create : Rrb
rrb_create = empty_rrb

-- `rrb_count`
abbrev pub rrb_count : Rrb → ℕ
rrb_count rrb = rrb.cnt

-- the `len` of the array `child`
unfoldable pub nodes_length : Nodes → ℕ
nodes_length Nodes.nil = 0
nodes_length (Nodes.cons c cs) = suc (nodes_length cs)

-- `child[i]`; past the end of the array it is a read of other memory
unfoldable pub nodes_get : Nodes → ℕ → Outcome Node
nodes_get Nodes.nil i = fault
nodes_get (Nodes.cons c cs) zero = done c
nodes_get (Nodes.cons c cs) (suc i) = nodes_get cs i

-- `child[i] = c`, out of place
unfoldable pub nodes_set : Nodes → ℕ → Node → Nodes
nodes_set Nodes.nil i v = Nodes.nil
nodes_set (Nodes.cons c cs) zero v = Nodes.cons v cs
nodes_set (Nodes.cons c cs) (suc i) v = Nodes.cons c (nodes_set cs i v)

-- the array with one more slot at its end
unfoldable pub nodes_snoc : Nodes → Node → Nodes
nodes_snoc Nodes.nil v = Nodes.cons v Nodes.nil
nodes_snoc (Nodes.cons c cs) v = Nodes.cons c (nodes_snoc cs v)

-- a read of an array of words, `a[i]`
unfoldable pub read : List ℕ → ℕ → Outcome ℕ
read [] i = fault
read (x ∷ xs) zero = done x
read (x ∷ xs) (suc i) = read xs i

-- `index >> shift` of a word of 32 bits; C defines it for less than 32 places
abbrev pub shift_right : ℕ → ℕ → Outcome ℕ
shift_right index shift = if ltb shift 32 then done (index / 2 ^ shift) else fault

-- `n << shift`, likewise
abbrev pub shift_left : ℕ → ℕ → Outcome ℕ
shift_left n shift = if ltb shift 32 then done (n * 2 ^ shift) else fault

-- `(index >> shift) & RRB_MASK`
unfoldable pub radix : ℕ → ℕ → Outcome ℕ
radix index shift = do digits ← shift_right index shift; done (digits % 32)

unfoldable pub nodes_to_list : Nodes → List Node
nodes_to_list Nodes.nil = []
nodes_to_list (Nodes.cons c cs) = c ∷ nodes_to_list cs

unfoldable nodes_of_list : List Node → Nodes
nodes_of_list [] = Nodes.nil
nodes_of_list (c ∷ cs) = Nodes.cons c (nodes_of_list cs)

-- `child` of a node taken for an internal one
unfoldable pub children : Node → Outcome (List Node)
unfolding nodes_to_list
children Node.null = fault
children (Node.leaf xs) = fault
children (Node.internal t cs) = done (nodes_to_list cs)

-- `child` of a node taken for a leaf
unfoldable pub elements : Node → Outcome (List ℕ)
elements Node.null = fault
elements (Node.leaf xs) = done xs
elements (Node.internal t cs) = fault

-- `size_table` of a node taken for an internal one
unfoldable size_table : Node → Outcome (Option (List ℕ))
size_table Node.null = fault
size_table (Node.leaf xs) = fault
size_table (Node.internal t cs) = done t

unfoldable pub node_of : Option (List ℕ) → List Node → Node
unfolding nodes_of_list
node_of table cs = Node.internal table (nodes_of_list cs)

-- a read of an array of nodes
unfoldable pub read_node : List Node → ℕ → Outcome Node
read_node [] i = fault
read_node (c ∷ cs) zero = done c
read_node (c ∷ cs) (suc i) = read_node cs i

-- A list that an operation returns: the static empty one, an argument at its address, or one that
-- the operation made.
pub data Ref : Type 0 where
  empty : Ref
  given : ℕ → Rrb → Ref
  fresh : Rrb → Ref

unfoldable pub deref : Ref → Rrb
deref Ref.empty = empty_rrb
deref (Ref.given p r) = r
deref (Ref.fresh r) = r
