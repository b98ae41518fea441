-- ===== src/Rrb/Plan.antt =====
-- `create_concat_plan` and `execute_concat_plan` of vm/src/std/owl_list.c.
use owlang.Base.{
  ℕ, zero, suc, ◌+◌, ◌-◌, ◌/◌, ◌%◌, ◌^◌, min, true, false, ◌&&◌, List, [], ◌∷◌, ◌++◌, length, take,
  drop, ltb, leb, ◌==◌, if◌then◌else◌,
}
use owlang.Base.Outcome.{Outcome, done, fault, out_of_fuel, ◌>>=◌}
use owlang.Rrb.{Node, branching, dec_shift, sub32, read, children, elements}
use owlang.Rrb.Push.{node_len, write}
use owlang.Rrb.Sizes.{set_sizes}

-- `node_count`, one number for each child
unfoldable pub node_counts : List Node → Outcome (List ℕ)
unfolding node_len
node_counts [] = done []
node_counts (c ∷ cs) = do n ← node_len c; rest ← node_counts cs; done (n ∷ rest)

unfoldable pub total : List ℕ → ℕ
total [] = 0
total (n ∷ ns) = (n + total ns) % 2 ^ 32

-- `while (node_count[i] > RRB_BRANCHING - RRB_INVARIANT) i++;`
unfoldable pub skip_full : ℕ → List ℕ → ℕ → Outcome ℕ
unfolding read
skip_full zero counts i = out_of_fuel
skip_full (suc fuel) counts i = do
  n ← read counts i
  elim (ltb (branching - 1) n) [ true ↦ skip_full fuel counts (i + 1) | false ↦ done i ]

-- The `do … while (remaining_nodes > 0)` loop.
unfoldable pub redistribute : ℕ → List ℕ → ℕ → ℕ → Outcome (List ℕ × ℕ)
unfolding read write
redistribute zero counts i remaining = out_of_fuel
redistribute (suc fuel) counts i remaining = do
  next ← read counts (i + 1)
  let min_size = min (remaining + next) branching
  counts' ← write counts i min_size
  let rest = remaining + next - min_size
  elim (ltb 0 rest) [
    | true ↦ redistribute fuel counts' (i + 1) rest
    | false ↦ done (counts', i + 1)
  ]

-- `for (j = i; j < shuffled_len - 1; j++) node_count[j] = node_count[j+1];`
unfoldable pub shuffle_up : ℕ → ℕ → List ℕ → Outcome (List ℕ)
unfolding read write
shuffle_up zero j counts = done counts
shuffle_up (suc rounds) j counts = do
  n ← read counts (j + 1)
  counts' ← write counts j n
  shuffle_up rounds (j + 1) counts'

-- `while (optimal_slots + RRB_EXTRAS < shuffled_len)`; a round makes `shuffled_len` one less.
unfoldable pub plan_loop : ℕ → ℕ → ℕ → List ℕ → Outcome (List ℕ × ℕ)
unfolding skip_full redistribute shuffle_up read
plan_loop optimal i zero counts = done (counts, 0)
plan_loop optimal i (suc len) counts = elim (ltb (optimal + 2) (suc len)) [
  | true ↦ skip_full (suc (length counts)) counts i >>= λ short. read counts short >>= λ remaining.
      redistribute (suc (length counts)) counts short remaining >>= λ (counts₁, i₁).
      shuffle_up (len - i₁) i₁ counts₁ >>= λ counts₂. plan_loop optimal (i₁ - 1) len counts₂
  | false ↦ done (counts, suc len)
]

-- The plan: the sizes of the new nodes. `total_nodes - 1` is a subtraction on `uint32_t`.
unfoldable pub create_concat_plan : List Node → Outcome (List ℕ)
unfolding node_counts total plan_loop
create_concat_plan all = do
  counts ← node_counts all
  let optimal_slots = sub32 (total counts) 1 / branching + 1
  (plan, top_len) ← plan_loop optimal_slots 0 (length all) counts
  done (take top_len plan)

-- The nodes from `idx` on, each with what it holds: elements of a leaf or children.
abbrev pub Source : Type 0 → Type 0
Source A = List (Node × List A)

-- `(node, content)` for each old node
unfoldable pub contents : {A : Type 0} → (Node → Outcome (List A)) → List Node → Outcome (Source A)
contents content [] = done []
contents content (c ∷ cs) = do xs ← content c; rest ← contents content cs; done ((c, xs) ∷ rest)

-- The `while (cur_size < new_size)` loop, with `need` slots of the new node left to fill: what is
-- copied, and the `offset` and the nodes that are left.
unfoldable pub fill : {A : Type 0} → ℕ → ℕ → Source A → Outcome (List A × ℕ × Source A)
fill need offset [] = if need == 0 then done ([], offset, []) else fault
fill need offset ((c, xs) ∷ olds) =
    let rest = fill (need - (length xs - offset)) 0 olds in
    if need == 0
    then done ([], offset, (c, xs) ∷ olds)
    else if leb (length xs - offset) need
    then (do (ys, offset', olds') ← rest; done (drop offset xs ++ ys, offset', olds'))
    else done (take need (drop offset xs), offset + need, (c, xs) ∷ olds)

-- One round of the `for` loop: the new node, and what is left.
unfoldable pub next_node :
    {A : Type 0} → (List A → Outcome Node) → ℕ → ℕ → Source A → Outcome (Node × ℕ × Source A)
unfolding fill
next_node make new_size offset [] = fault
next_node make new_size offset ((c, xs) ∷ olds) =
    if offset == 0 && new_size == length xs then done (c, 0, olds) else (do
      (ys, offset', olds') ← fill new_size offset ((c, xs) ∷ olds)
      node ← make ys
      done (node, offset', olds'))

unfoldable pub rebuild :
    {A : Type 0} → (List A → Outcome Node) → List ℕ → ℕ → Source A → Outcome (List Node)
unfolding next_node
rebuild make [] offset olds = done []
rebuild make (n ∷ ns) offset olds = do
  (node, offset', olds') ← next_node make n offset olds
  rest ← rebuild make ns offset' olds'
  done (node ∷ rest)

-- The two branches of the source differ in what the nodes hold and in the size tables.
unfoldable pub execute_concat_plan : List Node → List ℕ → ℕ → Outcome (List Node)
unfolding contents rebuild elements children set_sizes
execute_concat_plan all node_size shift =
    if shift == 5
    then (contents elements all >>= λ olds. rebuild (λ xs. done (Node.leaf xs)) node_size 0 olds)
    else (contents children all >>= λ olds.
        rebuild (λ cs. set_sizes cs (dec_shift shift)) node_size 0 olds)
