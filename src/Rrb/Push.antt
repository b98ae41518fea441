-- ===== src/Rrb/Push.antt =====
-- `rrb_push`, `rrb_tail_push`, `push_down_tail`, `copy_first_k` and `append_empty` of
-- vm/src/std/owl_list.c.
use owlang.Base.{
  ℕ, zero, suc, ◌+◌, ◌-◌, ◌*◌, ◌%◌, ◌^◌, Bool, true, false, not, ◌&&◌, ◌||◌, Option, none, some,
  List, [], ◌∷◌, ◌++◌, ltb, leb, ◌==◌, if◌then◌else◌, length, set,
}
use owlang.Base.Outcome.{Outcome, done, fault, out_of_fuel, ◌>>=◌}
use owlang.Rrb.{
  Node, Nodes, Rrb, nodes_length, nodes_get, nodes_set, nodes_snoc, read, shift_right, radix,
  inc_shift, dec_shift, sub32, bits, branching, mask,
}
use owlang.Rrb.Nth.{max_levels}

-- `a[i] = v` on an array of words, out of place
unfoldable pub write : List ℕ → ℕ → ℕ → Outcome (List ℕ)
write xs i v = if ltb i (length xs) then done (set xs i v) else fault

-- `child[i] = c` on a fresh node
unfoldable pub write_child : Nodes → ℕ → Node → Outcome Nodes
unfolding nodes_length nodes_set
write_child cs i v = if ltb i (nodes_length cs) then done (nodes_set cs i v) else fault

-- `leaf_node_inc`: the new last slot is zero
abbrev leaf_node_inc : List ℕ → List ℕ
leaf_node_inc original = original ++ 0 ∷ []

unfoldable pub rrb_tail_push : Rrb → ℕ → Outcome Rrb
unfolding write
rrb_tail_push rrb elt = do
  new_tail ← write (leaf_node_inc rrb.tail) rrb.tail_len elt
  done (record rrb {
    cnt = (rrb.cnt + 1) % 2 ^ 32;
    tail_len = (rrb.tail_len + 1) % 2 ^ 32;
    tail = new_tail;
  })

unfoldable pub is_null : Node → Bool
is_null Node.null = true
is_null (Node.leaf xs) = false
is_null (Node.internal t cs) = false

-- The variables of the first loop of `push_down_tail`. `stopped` says that it was left by
-- `goto copyable_count_end`. The source's `pos` is written and never read.
record Walk : Type 0 where
  pub shift : ℕ
  pub index : ℕ
  pub nodes_to_copy : ℕ
  pub nodes_visited : ℕ
  pub current : Node
  pub stopped : Bool

-- `child_index`, and `index` after the step: without a table the digit at `shift` is taken off,
-- with one the size of what lies before the last child
unfoldable last_slot : Option (List ℕ) → ℕ → ℕ → ℕ → Outcome (ℕ × ℕ)
unfolding read radix
last_slot none len shift index = do slot ← radix index shift; done (slot, index - slot * 2 ^ shift)
last_slot (some table) len shift index =
    let slot = sub32 len 1 in
    if slot == 0
    then done (slot, index)
    else (do before ← read table (slot - 1); done (slot, sub32 index before))

-- Whether the subtree of a node without a table has no slot for the index.
unfoldable is_past : Option (List ℕ) → ℕ → ℕ → Outcome Bool
is_past none prev_shift index = do above ← shift_right index prev_shift; done (ltb 0 above)
is_past (some table) prev_shift index = done false

-- One round of the loop at an internal node.
unfoldable walk_down : Option (List ℕ) → Nodes → Walk → Outcome Walk
unfolding is_past is_null last_slot nodes_length nodes_get
walk_down table child w = is_past table (w.shift + bits) w.index >>= λ past.
    if past then done (record w { nodes_visited = w.nodes_visited + 1; stopped = true }) else (do
      (slot, index') ← last_slot table (nodes_length child) w.shift w.index
      let visited = w.nodes_visited + 1
      next ← nodes_get child slot
      done (
          if is_null next
          then record w {
            index = index';
            nodes_to_copy = visited;
            nodes_visited = visited;
            current = next;
            stopped = true;
          }
          else record w {
            shift = dec_shift w.shift;
            index = index';
            nodes_to_copy = if ltb slot mask then visited else w.nodes_to_copy;
            nodes_visited = visited;
            current = next;
          }))

unfoldable walk_step : Node → Walk → Outcome Walk
unfolding walk_down
walk_step Node.null w = fault
walk_step (Node.leaf xs) w = fault
walk_step (Node.internal table child) w = walk_down table child w

-- `while (shift > INC_SHIFT(LEAF_NODE_SHIFT))`, on fuel
unfoldable walk_right : ℕ → Walk → Outcome Walk
unfolding walk_step
walk_right zero w = out_of_fuel
walk_right (suc fuel) w = elim (ltb 5 w.shift && not w.stopped) [
  | true ↦ walk_step w.current w >>= walk_right fuel
  | false ↦ done w
]

-- `current->len`: a leaf and an internal node have it at the same place
unfoldable pub node_len : Node → Outcome ℕ
unfolding nodes_length
node_len Node.null = fault
node_len (Node.leaf xs) = done (length xs)
node_len (Node.internal t cs) = done (nodes_length cs)

-- `if (shift != 0)` after the loop: the lowest internal node
unfoldable walk_bottom : Walk → Outcome Walk
unfolding node_len
walk_bottom w = if w.stopped || w.shift == 0 then done w else (do
  len ← node_len w.current
  let visited = w.nodes_visited + 1
  done (record w {
    nodes_visited = visited;
    nodes_to_copy = if ltb len branching then visited else w.nodes_to_copy;
  }))

-- `copyable_count_end`: `while (shift > INC_SHIFT(LEAF_NODE_SHIFT)) nodes_visited++`, on fuel
unfoldable count_end : ℕ → ℕ → ℕ → Outcome ℕ
count_end zero shift visited = out_of_fuel
count_end (suc fuel) shift visited = elim (ltb 5 shift) [
  | true ↦ count_end fuel (dec_shift shift) (visited + 1)
  | false ↦ done visited
]

-- `nodes_to_copy` and `nodes_visited` at the end of the count
unfoldable pub count_copyable : Rrb → Outcome (ℕ × ℕ)
unfolding walk_right walk_bottom count_end
count_copyable rrb = do
  w ← walk_right max_levels (record {
    shift = rrb.shift;
    index = sub32 rrb.cnt 1;
    nodes_to_copy = 0;
    nodes_visited = 0;
    current = rrb.root;
    stopped = false;
  })
  w' ← walk_bottom w
  visited ← count_end max_levels w'.shift w'.nodes_visited
  done (w'.nodes_to_copy, visited)

-- `append_empty`: `height` nodes with one child each, above what is put into the lowest
unfoldable append_empty : ℕ → Node → Node
append_empty zero bottom = bottom
append_empty (suc height) bottom =
    Node.internal none (Nodes.cons (append_empty height bottom) Nodes.nil)

-- `size[i] += n`, `size[i]` as a plain word
unfoldable table_add : List ℕ → ℕ → ℕ → Outcome (List ℕ)
unfolding read write
table_add table i n = do s ← read table i; write table i ((s + n) % 2 ^ 32)

-- the table of `internal_node_clone` and `size_table_clone` in a round before the last
unfoldable clone_table : Option (List ℕ) → ℕ → ℕ → Outcome (Option (List ℕ))
unfolding table_add
clone_table none len tail_size = done none
clone_table (some table) len tail_size = do
  table' ← table_add table (sub32 len 1) tail_size
  done (some table')

-- the table of `internal_node_inc` in the last round: one more slot, `len` is the old length
unfoldable inc_table : Option (List ℕ) → ℕ → ℕ → Outcome (Option (List ℕ))
unfolding read write
inc_table none len tail_size = done none
inc_table (some table) len tail_size = do
  s ← read table (sub32 len 1)
  table' ← write (table ++ 0 ∷ []) len ((s + tail_size) % 2 ^ 32)
  done (some table')

-- The slot that the last round leaves for `*to_set`.
unfoldable inc_slot : Option (List ℕ) → ℕ → ℕ → ℕ → Outcome ℕ
unfolding radix
inc_slot none len shift index = radix index shift
inc_slot (some table) len shift index = done len

-- The slot of a round before the last; here a digit is not taken off `index`.
unfoldable pub copy_slot : Option (List ℕ) → ℕ → ℕ → ℕ → Outcome (ℕ × ℕ)
unfolding last_slot radix
copy_slot none len shift index = do slot ← radix index shift; done (slot, index)
copy_slot (some table) len shift index = last_slot (some table) len shift index

-- `copy_first_k`, with `k` the rounds that are left and `bottom` the node that the caller stores
-- through the pointer which it returns. In the last round the source also reads `child[len]` of the
-- old node, and does not use what it reads.
unfoldable pub copy_first_k : ℕ → ℕ → ℕ → ℕ → Node → Node → Outcome Node
unfolding clone_table inc_table inc_slot copy_slot write_child nodes_length nodes_get nodes_snoc
copy_first_k zero shift index tail_size bottom current = done bottom
copy_first_k (suc k) shift index tail_size bottom Node.null =
    if shift == 0 then done bottom else fault
copy_first_k (suc k) shift index tail_size bottom (Node.leaf xs) =
    if shift == 0 then done bottom else fault
copy_first_k (suc zero) shift index tail_size bottom (Node.internal table child) =
    if shift == 0 then done bottom else (do
      table' ← inc_table table (nodes_length child) tail_size
      slot ← inc_slot table (nodes_length child) shift index
      child' ← write_child (nodes_snoc child Node.null) slot bottom
      done (Node.internal table' child'))
copy_first_k (suc (suc k)) shift index tail_size bottom (Node.internal table child) =
    if shift == 0 then done bottom else (do
      table' ← clone_table table (nodes_length child) tail_size
      (slot, index') ← copy_slot table (nodes_length child) shift index
      next ← nodes_get child slot
      next' ← copy_first_k (suc k) (dec_shift shift) index' tail_size bottom next
      child' ← write_child child slot next'
      done (Node.internal table' child'))

-- The size table of a new root above a root that has one.
unfoldable grown_table : Node → ℕ → ℕ → Option (List ℕ)
grown_table Node.null cnt tail_size = none
grown_table (Node.leaf xs) cnt tail_size = none
grown_table (Node.internal none child) cnt tail_size = none
grown_table (Node.internal (some table) child) cnt tail_size = some (sub32 cnt tail_size ∷ cnt ∷ [])

-- `new_rrb` with its old tail put into the tree of `rrb`, and `new_tail` as its tail.
unfoldable pub push_down_tail : Rrb → Rrb → List ℕ → Outcome Rrb
unfolding grown_table append_empty
push_down_tail rrb new_rrb new_tail =
    let old_tail = new_rrb.tail in
    if leb rrb.cnt branching
    then done (record new_rrb { tail = new_tail; shift = 0; root = Node.leaf old_tail })
    else (do
      (nodes_to_copy, nodes_visited) ← count_copyable rrb
      if nodes_to_copy == 0
          then done (record new_rrb {
            tail = new_tail;
            shift = inc_shift new_rrb.shift;
            root = Node.internal (grown_table rrb.root rrb.cnt (length old_tail)) (
                Nodes.cons rrb.root
                  (Nodes.cons (append_empty nodes_visited (Node.leaf old_tail)) Nodes.nil));
          })
          else (do
            root ←
                copy_first_k nodes_to_copy rrb.shift (sub32 rrb.cnt 1) (length old_tail)
                  (append_empty (nodes_visited - nodes_to_copy) (Node.leaf old_tail)) rrb.root
            done (record new_rrb { tail = new_tail; root = root })))

unfoldable pub rrb_push : Rrb → ℕ → Outcome Rrb
unfolding rrb_tail_push push_down_tail
rrb_push rrb elt =
    if ltb rrb.tail_len branching
    then rrb_tail_push rrb elt
    else push_down_tail rrb (record rrb { cnt = (rrb.cnt + 1) % 2 ^ 32; tail_len = 1 }) (elt ∷ [])
