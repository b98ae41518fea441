-- ===== src/Rrb/Update.antt =====
-- `rrb_peek`, `rrb_update` and `rrb_pop` of vm/src/std/owl_list.c.
use owlang.Base.{
  ℕ, zero, suc, ◌-◌, ◌%◌, true, false, Option, none, some, List, [], ◌∷◌, length, take, leb, ◌==◌,
  if◌then◌else◌,
}
use owlang.Base.Outcome.{Outcome, done, fault, out_of_fuel, ◌>>=◌}
use owlang.Rrb.{Node, Rrb, Ref, nodes_get, read, radix, dec_shift, sub32}
use owlang.Rrb.Nth.{max_levels, sized_pos}
use owlang.Rrb.Push.{write, write_child}
use owlang.Rrb.Slice.{promote_rightmost_leaf}

unfoldable pub rrb_peek : Rrb → Outcome ℕ
unfolding read
rrb_peek rrb = read rrb.tail (sub32 rrb.tail_len 1)

-- The slot of the child that holds `index`, and the index inside that child.
unfoldable pub child_slot : Option (List ℕ) → ℕ → ℕ → Outcome (ℕ × ℕ)
unfolding sized_pos radix
child_slot none index shift = do slot ← radix index shift; done (slot, index)
child_slot (some table) index shift = sized_pos table index shift

-- The leaf below the loop; NULL or an internal node here is read as another struct.
unfoldable pub update_leaf : ℕ → ℕ → Node → Outcome Node
unfolding write
update_leaf index elt Node.null = fault
update_leaf index elt (Node.leaf xs) = do xs' ← write xs (index % 32) elt; done (Node.leaf xs')
update_leaf index elt (Node.internal t cs) = fault

-- A round of the loop: `current` is cloned, and the slot of the clone is where the next clone goes.
unfoldable pub update_node : (ℕ → Node → Outcome Node) → ℕ → ℕ → Node → Outcome Node
unfolding child_slot nodes_get write_child
update_node rec shift index Node.null = fault
update_node rec shift index (Node.leaf xs) = fault
update_node rec shift index (Node.internal table child) = do
  (child_index, index') ← child_slot table index shift
  current ← nodes_get child child_index
  current' ← rec index' current
  child' ← write_child child child_index current'
  done (Node.internal table child')

-- `for (shift = RRB_SHIFT(rrb); shift > 0; shift -= RRB_BITS)`, on fuel
unfoldable pub update_descend : ℕ → ℕ → ℕ → ℕ → Node → Outcome Node
unfolding update_leaf update_node
update_descend zero shift elt index current = out_of_fuel
update_descend (suc fuel) shift elt index current = elim (shift == 0) [
  | true ↦ update_leaf index elt current
  | false ↦ update_node (update_descend fuel (dec_shift shift) elt) shift index current
]

-- `none` is the result NULL
unfoldable pub rrb_update : Rrb → ℕ → ℕ → Outcome (Option Rrb)
unfolding update_descend write
rrb_update rrb index elt =
    if leb rrb.cnt index
    then done none
    else let tail_offset = sub32 rrb.cnt rrb.tail_len in
      if leb tail_offset index
      then (do
        new_tail ← write rrb.tail (index - tail_offset) elt
        done (some (record rrb { tail = new_tail })))
      else (do
        root ← update_descend max_levels rrb.shift elt index rrb.root
        done (some (record rrb { root = root })))

-- A tail without elements has no last one to take off.
unfoldable pub leaf_node_dec : List ℕ → Outcome (List ℕ)
leaf_node_dec [] = fault
leaf_node_dec (x ∷ xs) = done (take (length xs) (x ∷ xs))

unfoldable pub rrb_pop : Rrb → Outcome Ref
unfolding promote_rightmost_leaf leaf_node_dec
rrb_pop rrb =
    if rrb.cnt == 1
    then done Ref.empty
    else if rrb.tail_len == 1
    then (do
      rrb' ← promote_rightmost_leaf (record rrb { cnt = sub32 rrb.cnt 1 })
      done (Ref.fresh rrb'))
    else (do
      new_tail ← leaf_node_dec rrb.tail
      done (
          Ref.fresh (record rrb {
            cnt = sub32 rrb.cnt 1;
            tail_len = sub32 rrb.tail_len 1;
            tail = new_tail;
          })))
