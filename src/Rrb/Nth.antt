-- ===== src/Rrb/Nth.antt =====
-- `sized_pos`, `sized` and `rrb_nth` of vm/src/std/owl_list.c.
use owlang.Base.{
  ℕ, zero, suc, ◌+◌, ◌-◌, ◌%◌, true, false, Option, none, some, List, [], ◌∷◌, leb, ◌==◌,
  if◌then◌else◌, drop,
}
use owlang.Base.Outcome.{Outcome, done, fault, out_of_fuel, ◌>>=◌}
use owlang.Rrb.{Node, Nodes, Rrb, nodes_get, read, shift_right, radix, dec_shift, sub32}

-- `while (table->size[is] <= *index) is++;` over what is left of the table from slot `is` on
unfoldable pub scan_table : List ℕ → ℕ → ℕ → Outcome ℕ
scan_table [] is index = fault
scan_table (s ∷ rest) is index = if leb s index then scan_table rest (is + 1) index else done is

-- The slot of the child that holds `index`, and the index inside that child.
unfoldable pub sized_pos : List ℕ → ℕ → ℕ → Outcome (ℕ × ℕ)
unfolding scan_table read
sized_pos table index sp = do
  start ← shift_right index sp
  is ← scan_table (drop start table) start index
  if is == 0
      then done (is, index)
      else (read table (is - 1) >>= λ before. done (is, sub32 index before))

unfoldable pub sized : List ℕ → Nodes → ℕ → ℕ → Outcome (Node × ℕ)
unfolding sized_pos nodes_get
sized table child index sp = do
  (is, index') ← sized_pos table index sp
  node ← nodes_get child is
  done (node, index')

-- The body of the loop of `rrb_nth`: one level down. A leaf or NULL here is read as another struct.
unfoldable pub nth_step : ℕ → ℕ → Node → Outcome (Node × ℕ)
unfolding sized nodes_get radix
nth_step shift index Node.null = fault
nth_step shift index (Node.leaf xs) = fault
nth_step shift index (Node.internal none child) = do
  slot ← radix index shift
  node ← nodes_get child slot
  done (node, index)
nth_step shift index (Node.internal (some table) child) = sized table child index shift

-- `for (shift = RRB_SHIFT(rrb); shift > 0; shift -= RRB_BITS)`, on fuel
unfoldable pub nth_descend : ℕ → ℕ → ℕ → Node → Outcome (Node × ℕ)
unfolding nth_step
nth_descend zero shift index current = out_of_fuel
nth_descend (suc fuel) shift index current = elim (shift == 0) [
  | true ↦ done (current, index)
  | false ↦ nth_step shift index current >>= λ (node, index').
      nth_descend fuel (dec_shift shift) index' node
]

-- `((const LeafNode *)current)->child[i]`
unfoldable pub leaf_child : Node → ℕ → Outcome ℕ
unfolding read
leaf_child Node.null i = fault
leaf_child (Node.leaf xs) i = read xs i
leaf_child (Node.internal t cs) i = fault

-- more than the `RRB_MAX_HEIGHT` levels and the leaves
abbrev pub max_levels : ℕ
max_levels = 8

-- `none` is the result NULL
unfoldable pub rrb_nth : Rrb → ℕ → Outcome (Option ℕ)
unfolding nth_descend leaf_child read
rrb_nth rrb index =
    if leb rrb.cnt index
    then done none
    else let tail_offset = sub32 rrb.cnt rrb.tail_len in
      if leb tail_offset index
      then (do x ← read rrb.tail (index - tail_offset); done (some x))
      else (do
        (current, index') ← nth_descend max_levels rrb.shift index rrb.root
        x ← leaf_child current (index' % 32)
        done (some x))
