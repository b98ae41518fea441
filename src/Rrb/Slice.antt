-- ===== src/Rrb/Slice.antt =====
-- `slice_right` and `promote_rightmost_leaf` of
-- vm/src/std/owl_list.c.
pub mod Left
pub mod After
pub mod Rest
pub mod Descend
pub mod Refill
pub mod Drop
mod Tests
pub mod Cut
pub mod Right
pub mod Promote
pub mod Root
pub mod Take
use owlang.Base.{
  ℕ, zero, suc, ◌+◌, ◌-◌, ◌*◌, ◌/◌, ◌%◌, ◌^◌, Bool, true, false, not, ◌&&◌, ◌||◌, Option, none,
  some, List, [], ◌∷◌, ◌++◌, length, take, drop, map, ltb, leb, ◌==◌, if◌then◌else◌,
}
use owlang.Base.Outcome.{Outcome, done, fault, out_of_fuel, ◌>>=◌}
use owlang.Rrb.{
  Node, Rrb, Ref, deref, empty_rrb, branching, dec_shift, sub32, read, read_node, nodes_to_list,
  node_of, shift_right,
}
use owlang.Rrb.Nth.{max_levels, scan_table}
use owlang.Rrb.Push.{is_null, write}

-- A subtree that a slice returns, and `*total_shift`.
abbrev Sliced : Type 0
Sliced = Node × ℕ

-- The slot of the child that holds the place `at`, and the place inside it.
unfoldable slice_slot : Option (List ℕ) → ℕ → ℕ → Outcome (ℕ × ℕ)
unfolding scan_table read
slice_slot none shift at = do slot ← shift_right at shift; done (slot, at - slot * 2 ^ shift)
slice_slot (some table) shift at = do
  start ← shift_right at shift
  slot ← scan_table (drop start table) start at
  if slot == 0
      then done (slot, at)
      else (do before ← read table (slot - 1); done (slot, sub32 at before))

-- The size table cut behind slot `subidx`, if there is one.
unfoldable table_right : Option (List ℕ) → ℕ → ℕ → Option (List ℕ)
table_right none subidx right = none
table_right (some table) subidx right = some (take subidx table ++ (right + 1) ∷ [])

-- What `slice_right_rec` puts round the node that it has sliced at slot `subidx`.
unfoldable wrap_right : Option (List ℕ) → List Node → ℕ → ℕ → ℕ → Bool → Sliced → Outcome Sliced
unfolding table_right node_of
wrap_right table cs subidx right shift has_left (node, total_shift) =
    let cut = table_right table subidx right in
    if subidx == 0
    then (if has_left then done (node_of cut (node ∷ []), shift) else done (node, total_shift))
    else done (node_of cut (take subidx cs ++ node ∷ []), shift)

unfoldable slice_right_rec : ℕ → Node → ℕ → ℕ → Bool → Outcome Sliced
unfolding slice_slot wrap_right read_node nodes_to_list
slice_right_rec zero root right shift has_left = out_of_fuel
slice_right_rec (suc fuel) Node.null right shift has_left = fault
slice_right_rec (suc fuel) (Node.leaf xs) right shift has_left =
    if ltb 0 shift || leb (length xs) right
    then fault
    else done (Node.leaf (take (right + 1) xs), shift)
slice_right_rec (suc fuel) (Node.internal table child) right shift has_left = elim (ltb 0 shift) [
  | true ↦
      let cs = nodes_to_list child in
      slice_slot table shift right >>= λ (subidx, idx). read_node cs subidx >>= λ next.
      slice_right_rec fuel next idx (dec_shift shift) (not (subidx == 0) || has_left) >>= λ sliced.
      wrap_right table cs subidx right shift has_left sliced
  | false ↦ fault
]

-- What `promote_rightmost_leaf` leaves of a node: its elements are those of the leaf that becomes
-- the tail, and `lowered` says that the root was replaced by its only child.
record Promoted : Type 0 where
  pub tail : List ℕ
  pub node : Node
  pub lowered : Bool

-- `size[len - 1] -= tail_len` on a clone of the table
unfoldable table_sub : Option (List ℕ) → ℕ → ℕ → Outcome (Option (List ℕ))
unfolding read write
table_sub none len tail_len = done none
table_sub (some table) len tail_len = do
  s ← read table (len - 1)
  table' ← write (take len table) (len - 1) (sub32 s tail_len)
  done (some table')

-- One round of the second loop, at a node whose last child has become `below`.
unfoldable promote_step : Option (List ℕ) → List Node → Bool → Promoted → Outcome Promoted
unfolding table_sub node_of is_null read_node
promote_step table cs is_root below =
    let len = length cs in
    if is_null below.node
    then if len == 1
      then done (record below { node = Node.null })
      else if is_root && len == 2
      then (do first ← read_node cs 0; done (record below { node = first; lowered = true }))
      else done (record below { node = node_of table (take (len - 1) cs) })
    else (do
      table' ← table_sub table len (length below.tail)
      done (record below { node = node_of table' (take (len - 1) cs ++ below.node ∷ []) }))

-- The path to the rightmost leaf, and the way back up.
unfoldable promote : ℕ → Node → ℕ → Bool → Outcome Promoted
unfolding promote_step nodes_to_list read_node
promote zero node shift is_root = out_of_fuel
promote (suc fuel) Node.null shift is_root = fault
promote (suc fuel) (Node.leaf xs) shift is_root =
    if ltb 0 shift then fault else done (record { tail = xs; node = Node.null; lowered = false })
promote (suc fuel) (Node.internal table child) shift is_root = elim (ltb 0 shift) [
  | true ↦
      let cs = nodes_to_list child in
      read_node cs (length cs - 1) >>= λ last.
      promote fuel last (dec_shift shift) false >>= promote_step table cs is_root
  | false ↦ fault
]

-- the shift of `RRB_MAX_HEIGHT`
abbrev max_height : ℕ
max_height = 30

-- The array `path` has no room for a tree above `RRB_MAX_HEIGHT`.
unfoldable pub promote_rightmost_leaf : Rrb → Outcome Rrb
unfolding promote
promote_rightmost_leaf rrb = if ltb max_height rrb.shift then fault else (do
  p ← promote max_levels rrb.root rrb.shift true
  done (record rrb {
    tail = p.tail;
    tail_len = length p.tail;
    root = p.node;
    shift = if p.lowered then dec_shift rrb.shift else rrb.shift;
  }))

unfoldable slice_right : Ref → ℕ → Outcome Ref
unfolding slice_right_rec promote_rightmost_leaf deref
slice_right ref right =
    let rrb = deref ref in
    let tail_offset = sub32 rrb.cnt rrb.tail_len in
    if right == 0
    then done Ref.empty
    else if leb rrb.cnt right
    then done ref
    else if ltb tail_offset right
    then done (
        Ref.fresh (record rrb {
          cnt = right;
          tail = take (right - tail_offset) rrb.tail;
          tail_len = right - tail_offset;
        }))
    else (do
      (root, shift) ← slice_right_rec max_levels rrb.root (right - 1) rrb.shift false
      rrb' ←
          promote_rightmost_leaf
            (record { cnt = right; shift = shift; tail_len = 0; tail = []; root = root })
      done (Ref.fresh rrb'))
