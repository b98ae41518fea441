-- ===== src/Rrb/Tree/Rebalance.antt =====
-- `rebalance` of vm/src/std/owl_list.c on trees.
use owlang.Base.{
  ℕ, suc, ◌*◌, ◌^◌, ◌≤◌, ◌<◌, ◌≡◌, refl, ap, sym, ◌∙◌, arith, List, [], ◌∷◌, ◌++◌, length, All,
  take, drop, Option, append-nil, length-append, All-map, All-take, All-drop, length-take,
  length-drop, take-append-drop, leb, Bool, Bool-cases, inl, inr, true, false,
}
use owlang.Base.Outcome.{Outcome, done}
use owlang.Rrb.{Node}
use owlang.Rrb.View.{node_list}
use owlang.Rrb.Concat.{internal_node_merge, rebalance}
use owlang.Rrb.Tree.{flat, Tree, flat-append}
use owlang.Rrb.Tree.Sizes.{set_sizes-Tree}
use owlang.Rrb.Tree.Plan.Create.{GoodPlan, create_concat_plan-GoodPlan, Tree-count}
use owlang.Rrb.Tree.Execute.{Executed, execute_concat_plan-Executed}

-- How many nodes there are, and how high: below the root up to 32 trees of any height so far, on the
-- way up one or two of the height of the level.
abbrev pub Few : Bool → ℕ → ℕ → ℕ → Type 0
Few true h level n = (level ≤ h) × (n ≤ 32)
Few false h level n = (level ≡ h) × (n ≤ 2)

-- The nodes that a merge up to height `h` returns, with the elements `xs`.
pub record Merge (top : Bool) (h : ℕ) (xs : List ℕ) (o : Outcome (List Node)) : Type 0 where
  pub nodes : List Node
  pub level : ℕ
  pub returns : o ≡ done nodes
  pub trees : All (Tree level) nodes
  pub pos : 1 ≤ length nodes
  pub few : Few top h level (length nodes)
  pub same : flat nodes ≡ xs

two-Few : (top : Bool) (h n : ℕ) → n ≤ 2 → Few top h h n
two-Few true h n le = (omega arith, omega (arith, le))
two-Few false h n le = (refl, le)

pub merge_one :
    (top : Bool) (h : ℕ) (c : Node) (xs : List ℕ) (o : Outcome (List Node))
    → o ≡ done (c ∷ [])
    → Tree h c
    → node_list c ≡ xs
    → Merge top h xs o
merge_one top h c xs o e t same = record {
  nodes = c ∷ [];
  level = h;
  returns = e;
  trees = (t, tt);
  pos = omega arith;
  few = two-Few top h 1 (omega arith);
  same = append-nil (node_list c) ∙ same;
}

pub merge_two :
    (top : Bool) (h : ℕ) (c d : Node) (xs : List ℕ) (o : Outcome (List Node))
    → o ≡ done (c ∷ d ∷ [])
    → Tree h c
    → Tree h d
    → node_list c ++ node_list d ≡ xs
    → Merge top h xs o
merge_two top h c d xs o e t u same = record {
  nodes = c ∷ d ∷ [];
  level = h;
  returns = e;
  trees = (t, (u, tt));
  pos = omega arith;
  few = two-Few top h 2 (omega arith);
  same = ap (λ ys. node_list c ++ ys) (append-nil (node_list d)) ∙ same;
}

-- What `rebalance` does with the new nodes of a plan that has been carried out.
module _ (h : ℕ) (all : List Node) (left right : Option (List Node)) (centre : List Node)
    (p : GoodPlan all) (x : Executed h all p.plan)
    (merged : internal_node_merge left centre right ≡ all) (low : h < 7)
    (small : length (flat all) < 2 ^ 32) where
  new_small : length (flat x.news) < 2 ^ 32
  new_small = omega (arith, ap length x.same, small)

  rebalance-top :
      leb (length p.plan) 32 ≡ true
      → Merge true (suc h) (flat all) (rebalance left centre right (5 * suc h) true)
  unfolding rebalance
  rebalance-top fits = record {
    nodes = x.news;
    level = h;
    returns = rw (merged, p.returns, x.returns) (ground (arith, fits));
    trees = x.trees;
    pos = omega (arith, x.one_each, p.pos);
    few = (omega arith, ground (arith, x.one_each, fits));
    same = x.same;
  }

  rebalance-one :
      leb (length p.plan) 32 ≡ true
      → Merge false (suc h) (flat all) (rebalance left centre right (5 * suc h) false)
  unfolding rebalance
  rebalance-one fits =
      let (c, made, tree, same) =
        set_sizes-Tree h x.news low (omega (arith, x.one_each, p.pos))
          (ground (arith, x.one_each, fits)) x.trees new_small in
      merge_one false (suc h) c (flat all) (rebalance left centre right (5 * suc h) false)
        (rw (merged, p.returns, x.returns, made) (ground (arith, fits))) tree (same ∙ x.same)

  rebalance-fits :
      (top : Bool)
      → leb (length p.plan) 32 ≡ true
      → Merge top (suc h) (flat all) (rebalance left centre right (5 * suc h) top)
  rebalance-fits true fits = rebalance-top fits
  rebalance-fits false fits = rebalance-one fits

  rebalance-two :
      (top : Bool)
      → leb (length p.plan) 32 ≡ false
      → length all ≤ 64
      → Merge top (suc h) (flat all) (rebalance left centre right (5 * suc h) top)
  unfolding rebalance
  rebalance-two top over most =
      let more : 32 < length x.news = ground (arith, x.one_each, over) in
      let parts =
        sym (flat-append (take 32 x.news) (drop 32 x.news))
        ∙ ap flat (take-append-drop 32 x.news) in
      let sizes =
        sym (length-append (flat (take 32 x.news)) (flat (drop 32 x.news))) ∙ ap length parts in
      let few = length-take 32 x.news (omega (arith, more)) in
      let rest = length-drop 32 x.news in
      let (c, made, tree, same) =
        set_sizes-Tree h (take 32 x.news) low (omega (arith, few)) (omega (arith, few))
          (All-take (Tree h) 32 x.news x.trees) (omega (arith, sizes, new_small)) in
      let (d, made', tree', same') =
        set_sizes-Tree h (drop 32 x.news) low (omega (arith, rest, more))
          (omega (arith, rest, x.one_each, p.shorter, most)) (All-drop (Tree h) 32 x.news x.trees)
          (omega (arith, sizes, new_small)) in
      merge_two top (suc h) c d (flat all) (rebalance left centre right (5 * suc h) top)
        (rw (merged, p.returns, x.returns, made, made') (ground (arith, over))) tree tree'
        ((rw (same, same') parts) ∙ x.same)

-- Where left, centre and right together are 1 to 64 trees of one height below seven, with less than
-- 2^32 elements, `rebalance` returns one or two trees of the next height, or at the root up to 32 of
-- one height up to that, with the same elements in order.
pub rebalance-Merge :
    (h : ℕ) (left right : Option (List Node)) (centre all : List Node) (top : Bool)
    → internal_node_merge left centre right ≡ all
    → h < 7
    → All (Tree h) all
    → 1 ≤ length all
    → length all ≤ 64
    → length (flat all) < 2 ^ 32
    → Merge top (suc h) (flat all) (rebalance left centre right (5 * suc h) top)
rebalance-Merge h left right centre all top merged low trees pos most small =
    let p =
      create_concat_plan-GoodPlan all pos most (All-map (Tree h) _ (Tree-count h) all trees) in
    let x =
      execute_concat_plan-Executed h all p.plan (omega arith) trees small p.range p.same_sum in
    elim (Bool-cases (leb (length p.plan) 32)) [
      | inl fits ↦ rebalance-fits h all left right centre p x merged low small top fits
      | inr over ↦ rebalance-two h all left right centre p x merged low small top over most
    ]
