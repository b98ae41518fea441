-- ===== src/Rrb/Slice/Left.antt =====
-- `slice_left` and `rrb_slice` of vm/src/std/owl_list.c.
use owlang.Base.{
  ℕ, zero, suc, ◌+◌, ◌-◌, ◌*◌, ◌%◌, ◌^◌, Bool, true, false, not, ◌||◌, Option, none, some, List, [],
  ◌∷◌, ◌++◌, length, take, drop, map, ltb, leb, ◌==◌, if◌then◌else◌,
}
use owlang.Base.Outcome.{Outcome, done, fault, out_of_fuel, ◌>>=◌}
use owlang.Rrb.{
  Node, Rrb, Ref, deref, empty_rrb, branching, dec_shift, sub32, read, read_node, nodes_to_list,
  node_of,
}
use owlang.Rrb.Nth.{max_levels}
use owlang.Rrb.Push.{write}
use owlang.Rrb.Slice.{Sliced, slice_slot, slice_right}

-- The size table of a node whose slots before `subidx` are cut: without a table all children but
-- the last are taken to be full.
unfoldable pub full_sizes : ℕ → ℕ → ℕ → List ℕ
full_sizes zero slot shift = []
full_sizes (suc rest) slot shift =
    (slot + 1) * 2 ^ shift % 2 ^ 32 ∷ full_sizes rest (slot + 1) shift

unfoldable pub sizes_left : Option (List ℕ) → ℕ → ℕ → ℕ → List ℕ
unfolding full_sizes
sizes_left none len subidx shift = full_sizes (len - subidx) subidx shift
sizes_left (some table) len subidx shift = take (len - subidx) (drop subidx table)

-- The one-slot table above a node that has a table.
unfoldable pub parent_table : Node → ℕ → Outcome (Option (List ℕ))
unfolding nodes_to_list read
parent_table (Node.internal (some table) cs) subshift =
    if subshift == 0
    then done none
    else (do s ← read table (length (nodes_to_list cs) - 1); done (some (s ∷ [])))
parent_table _ subshift = done none

unfoldable pub wrap_left : Option (List ℕ) → List Node → ℕ → ℕ → ℕ → Bool → Sliced → Outcome Sliced
unfolding node_of sizes_left parent_table
wrap_left table cs subidx left shift has_right (node, total_shift) =
    if subidx == sub32 (length cs) 1
    then if has_right
      then (do above ← parent_table node (dec_shift shift); done (node_of above (node ∷ []), shift))
      else done (node, total_shift)
    else let sizes = map (λ s. sub32 s left) (sizes_left table (length cs) subidx shift) in
      done (node_of (some sizes) (node ∷ drop (subidx + 1) cs), shift)

unfoldable pub slice_left_rec : ℕ → Node → ℕ → ℕ → Bool → Outcome Sliced
unfolding slice_slot wrap_left read_node nodes_to_list
slice_left_rec zero root left shift has_right = out_of_fuel
slice_left_rec (suc fuel) Node.null left shift has_right = fault
slice_left_rec (suc fuel) (Node.leaf xs) left shift has_right =
    if ltb 0 shift || ltb (length xs) left then fault else done (Node.leaf (drop left xs), shift)
slice_left_rec (suc fuel) (Node.internal table child) left shift has_right = elim (ltb 0 shift) [
  | true ↦
      let cs = nodes_to_list child in
      slice_slot table shift left >>= λ (subidx, idx). read_node cs subidx >>= λ next.
      slice_left_rec fuel next idx (dec_shift shift)
        (not (subidx == sub32 (length cs) 1) || has_right)
      >>= wrap_left table cs subidx left shift has_right
  | false ↦ fault
]

-- `root->size_table->size[root->len-1] = …` on the new root
unfoldable pub set_last_size : Node → ℕ → ℕ → Outcome Node
unfolding nodes_to_list write
set_last_size (Node.internal (some table) cs) shift size =
    if shift == 0 then done (Node.internal (some table) cs) else (do
      table' ← write table (length (nodes_to_list cs) - 1) size
      done (Node.internal (some table') cs))
set_last_size node shift size = done node

-- The end of `slice_left`: a root that is a short leaf is filled up from the tail. It changes the
-- head in place.
unfoldable pub refill_root : Rrb → Node → Outcome Rrb
refill_root rrb (Node.leaf xs) =
    let tail_cut = branching - length xs in
    if not (rrb.shift == 0)
    then done rrb
    else if leb rrb.cnt branching
    then done (record rrb {
      tail = xs ++ take rrb.tail_len rrb.tail;
      tail_len = rrb.cnt;
      root = Node.null;
    })
    else if ltb (sub32 rrb.cnt rrb.tail_len) branching
    then done (record rrb {
      tail = take (rrb.tail_len - tail_cut) (drop tail_cut rrb.tail);
      tail_len = rrb.tail_len - tail_cut;
      root = Node.leaf (xs ++ take tail_cut rrb.tail);
    })
    else done rrb
refill_root rrb _ = done rrb

unfoldable pub refill : Ref → Outcome Ref
unfolding refill_root
refill Ref.empty = done Ref.empty
refill (Ref.given p r) = do r' ← refill_root r r.root; done (Ref.given p r')
refill (Ref.fresh r) = do r' ← refill_root r r.root; done (Ref.fresh r')

unfoldable pub slice_left : Ref → ℕ → Outcome Ref
unfolding slice_left_rec set_last_size refill deref
slice_left ref left =
    let rrb = deref ref in
    let remaining = rrb.cnt - left in
    if leb rrb.cnt left
    then done Ref.empty
    else if left == 0
    then refill ref
    else if leb remaining rrb.tail_len
    then done (
        Ref.fresh (record empty_rrb {
          cnt = remaining;
          tail_len = remaining;
          tail = take remaining (drop (rrb.tail_len - remaining) rrb.tail);
        }))
    else (do
      (node, shift) ← slice_left_rec max_levels rrb.root left rrb.shift false
      root ← set_last_size node shift (sub32 remaining rrb.tail_len)
      refill (Ref.fresh (record rrb { cnt = remaining; shift = shift; root = root })))

unfoldable pub rrb_slice : Ref → ℕ → ℕ → Outcome Ref
unfolding slice_right slice_left
rrb_slice ref from to = do cut ← slice_right ref to; slice_left cut from
