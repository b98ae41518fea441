-- ===== src/Rrb/Memory.antt =====
-- The bytes that `rrb_push` of vm/src/std/owl_list.c asks for, behind the head of the new list.
use owlang.Base.{
  ℕ, zero, suc, ◌+◌, ◌-◌, ◌*◌, Option, none, some, List, [], ◌∷◌, ◌++◌, length, replicate, ltb, leb,
  ◌==◌, if◌then◌else◌,
}
use owlang.Base.Outcome.{Outcome, done, fault, ◌>>=◌}
use owlang.Rrb.{Node, Rrb, nodes_length, nodes_get, dec_shift, sub32, branching}
use owlang.Rrb.Push.{copy_slot, count_copyable}

-- `sizeof(LeafNode)` and its elements
abbrev pub leaf_bytes : ℕ → ℕ
leaf_bytes len = 16 + len * 8

-- `sizeof(InternalNode)` and its children
abbrev pub internal_bytes : ℕ → ℕ
internal_bytes len = 24 + len * 8

-- `sizeof(RRBSizeTable)` and its entries, where there is a table
unfoldable pub table_bytes : Option (List ℕ) → ℕ → List ℕ
table_bytes none len = []
table_bytes (some table) len = (8 + len * 4) ∷ []

-- The calls of `owl_alloc` in `copy_first_k`, with `k` the rounds that are left.
unfoldable pub copied_bytes : ℕ → ℕ → ℕ → Node → Outcome (List ℕ)
unfolding table_bytes copy_slot nodes_length nodes_get
copied_bytes zero shift index current = done []
copied_bytes (suc k) shift index Node.null = if shift == 0 then done [] else fault
copied_bytes (suc k) shift index (Node.leaf xs) = if shift == 0 then done [] else fault
copied_bytes (suc zero) shift index (Node.internal table child) =
    if shift == 0
    then done []
    else done (internal_bytes (nodes_length child + 1) ∷ table_bytes table (nodes_length child + 1))
copied_bytes (suc (suc k)) shift index (Node.internal table child) =
    if shift == 0 then done [] else (do
      (slot, index') ← copy_slot table (nodes_length child) shift index
      next ← nodes_get child slot
      rest ← copied_bytes (suc k) (dec_shift shift) index' next
      done (internal_bytes (nodes_length child) ∷ (table_bytes table (nodes_length child) ++ rest)))

-- The table of the new root in `push_down_tail`.
unfoldable pub root_table_bytes : Node → List ℕ
unfolding table_bytes
root_table_bytes Node.null = []
root_table_bytes (Node.leaf xs) = []
root_table_bytes (Node.internal table child) = table_bytes table 2

-- The calls of `owl_alloc` in `push_down_tail` and in `append_empty`.
unfoldable pub push_down_bytes : Rrb → Outcome (List ℕ)
unfolding copied_bytes root_table_bytes
push_down_bytes rrb = if leb rrb.cnt branching then done [] else (do
  (nodes_to_copy, nodes_visited) ← count_copyable rrb
  if nodes_to_copy == 0
      then done (
          internal_bytes 2
          ∷ (root_table_bytes rrb.root ++ replicate nodes_visited (internal_bytes 1)))
      else (do
        copied ← copied_bytes nodes_to_copy rrb.shift (sub32 rrb.cnt 1) rrb.root
        done (copied ++ replicate (nodes_visited - nodes_to_copy) (internal_bytes 1))))

-- The calls of `owl_alloc` in `rrb_push` behind `rrb_head_clone`, in `leaf_node_inc` or for the new
-- tail and what the old one is pushed down by.
unfoldable pub push_bytes : Rrb → Outcome (List ℕ)
unfolding push_down_bytes
push_bytes rrb =
    if ltb rrb.tail_len branching
    then done (leaf_bytes (length rrb.tail + 1) ∷ [])
    else (do below ← push_down_bytes rrb; done (leaf_bytes 1 ∷ below))
