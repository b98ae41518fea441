-- ===== src/Rrb/Tree/Execute.antt =====
-- `execute_concat_plan` of vm/src/std/owl_list.c on trees of one height.
use owlang.Base.{
  ℕ, zero, suc, ◌*◌, ◌^◌, ◌≤◌, ◌<◌, ◌≡◌, refl, ap, sym, ◌∙◌, arith, List, [], ◌∷◌, ◌++◌, length,
  sum, All, map, length-append, All-append, All-split, All-map, ◌==◌, false,
}
use owlang.Base.Outcome.{Outcome, done}
use owlang.Rrb.{Node, nodes_to_list, elements, children, dec_shift}
use owlang.Rrb.Sizes.{set_sizes}
use owlang.Rrb.View.{node_list}
use owlang.Rrb.Plan.{Source, contents, execute_concat_plan}
use owlang.Rrb.Tree.{flat, Tree, flat-append, size-internal, Tree-children}
use owlang.Rrb.Tree.Sizes.{set_sizes-Tree}
use owlang.Rrb.Tree.Plan.{InRange}
use owlang.Rrb.Tree.Plan.Create.{count}
use owlang.Rrb.Tree.Fill.{join, nodes, Each, Each-Offset}
use owlang.Rrb.Tree.Rebuild.{rebuild-Rebuilt}

module _ {A : Type 0} (content : Node → Outcome (List A)) (P : Node → List A → Type 0) where
  record Loaded (all : List Node) : Type 0 where
    pub olds : Source A
    pub returns : contents content all ≡ done olds
    pub same : nodes olds ≡ all
    pub good : Each P olds
    pub counts : length (join olds) ≡ sum (map count all)

  -- What a node holds.
  abbrev Holds : Node → Type 0
  Holds c = (xs : List A) × (content c ≡ done xs) × P c xs × (length xs ≡ count c) × (1 ≤ length xs)

  contents-Loaded : (all : List Node) → All Holds all → Loaded all
  unfolding contents
  contents-Loaded [] holds = record {
    olds = [];
    returns = refl;
    same = refl;
    good = tt;
    counts = omega arith;
  }
  contents-Loaded (c ∷ cs) ((xs, e, p, n, pos), holds) =
      let rest = contents-Loaded cs holds in
      record {
        olds = (c, xs) ∷ rest.olds;
        returns = rw (e, rest.returns) refl;
        same = ap (◌∷◌ c) rest.same;
        good = (p, pos, rest.good);
        counts = omega (arith, length-append xs (join rest.olds), rest.counts, n);
      }

-- The new nodes of a plan.
pub record Executed (h : ℕ) (all : List Node) (plan : List ℕ) : Type 0 where
  pub news : List Node
  pub returns : execute_concat_plan all plan (5 * suc h) ≡ done news
  pub trees : All (Tree h) news
  pub same : flat news ≡ flat all
  pub one_each : length news ≡ length plan

abbrev IsLeaf : Node → List ℕ → Type 0
IsLeaf c xs = Tree 0 c × (node_list c ≡ xs)

-- An internal node and its children.
abbrev IsInternal : ℕ → Node → List Node → Type 0
IsInternal h c cs = Tree (suc h) c × (node_list c ≡ flat cs) × All (Tree h) cs

IsLeaf-Holds : (c : Node) → Tree 0 c → Holds elements IsLeaf c
unfolding elements node_list
IsLeaf-Holds (Node.leaf xs) t = (xs, refl, (t, refl), refl, t.0)
IsLeaf-Holds Node.null t = absurd t
IsLeaf-Holds (Node.internal t cs) r = absurd r

IsInternal-Holds : (h : ℕ) (c : Node) → Tree (suc h) c → Holds children (IsInternal h) c
unfolding children
IsInternal-Holds h (Node.internal t cs) r =
    let (pos, len, all) = Tree-children h t cs r in
    (nodes_to_list cs, refl, (r, size-internal t cs, all), refl, pos)
IsInternal-Holds h _ r = absurd r

Each-leaf :
    (olds : Source ℕ)
    → Each IsLeaf olds
    → All (Tree 0) (nodes olds) × (flat (nodes olds) ≡ join olds)
Each-leaf [] e = (tt, refl)
Each-leaf ((c, xs) ∷ olds) ((t, same), pos, e) =
    let rest = Each-leaf olds e in ((t, rest.0), rw (same, rest.1) refl)

Each-internal :
    (h : ℕ) (olds : Source Node)
    → Each (IsInternal h) olds
    → All (Tree (suc h)) (nodes olds)
      × (flat (nodes olds) ≡ flat (join olds))
      × All (Tree h) (join olds)
Each-internal h [] e = (tt, refl, tt)
Each-internal h ((c, cs) ∷ olds) ((t, same, all), pos, e) =
    let rest = Each-internal h olds e in
    (
      (t, rest.0),
      rw (same, rest.1) (sym (flat-append cs (join olds))),
      All-append (Tree h) cs (join olds) all rest.2,
    )

-- What new internal nodes are made of.
abbrev Parts : ℕ → List Node → Type 0
Parts h cs = All (Tree h) cs × (length (flat cs) < 2 ^ 32)

Parts-split : (h : ℕ) (cs ds : List Node) → Parts h (cs ++ ds) → Parts h cs × Parts h ds
Parts-split h cs ds (all, small) =
    let (left, right) = All-split (Tree h) cs ds all in
    let size = ap length (flat-append cs ds) ∙ length-append (flat cs) (flat ds) in
    ((left, omega (arith, size, small)), (right, omega (arith, size, small)))

make-IsLeaf :
    (xs : List ℕ)
    → InRange (length xs)
    → Unit {0}
    → (c : Node) × (Outcome.done (Node.leaf xs) ≡ done c) × IsLeaf c xs
unfolding node_list
make-IsLeaf xs range _ = (Node.leaf xs, refl, (range, refl))

make-IsInternal :
    (h : ℕ)
    → h < 7
    → (cs : List Node) → InRange (length cs)
    → Parts h cs
    → (c : Node) × (set_sizes cs (5 * suc h) ≡ done c) × IsInternal h c cs
make-IsInternal h lt cs (pos, len) (all, small) =
    let (c, made, tree, same) = set_sizes-Tree h cs lt pos len all small in
    (c, made, (tree, same, all))

execute-leaves :
    (all : List Node) (plan : List ℕ)
    → All (Tree 0) all
    → All InRange plan
    → sum plan ≡ sum (map count all)
    → Executed 0 all plan
unfolding execute_concat_plan
execute-leaves all plan trees range sums =
    let c =
      contents-Loaded elements IsLeaf all
        (All-map (Tree 0) (Holds elements IsLeaf) IsLeaf-Holds all trees) in
    let r =
      rebuild-Rebuilt (λ xs. done (Node.leaf xs)) IsLeaf (λ _. Unit) (λ _ _ _. (tt, tt)) make-IsLeaf
        plan 0 c.olds range (Each-Offset IsLeaf c.olds c.good) c.good tt
        (sums ∙ omega (arith, c.counts)) in
    let (new, new_flat) = Each-leaf r.news r.good in
    let (old, old_flat) = Each-leaf c.olds c.good in
    record {
      news = nodes r.news;
      returns = rw (c.returns, r.returns) refl;
      trees = new;
      same = new_flat ∙ r.same ∙ sym old_flat ∙ ap flat c.same;
      one_each = r.one_each;
    }

execute-internal :
    (h : ℕ) (all : List Node) (plan : List ℕ)
    → h < 7
    → All (Tree (suc h)) all
    → length (flat all) < 2 ^ 32
    → All InRange plan
    → sum plan ≡ sum (map count all)
    → Executed (suc h) all plan
unfolding execute_concat_plan
execute-internal h all plan lt trees small range sums =
    let c =
      contents-Loaded children (IsInternal h) all
        (All-map (Tree (suc h)) (Holds children (IsInternal h)) (IsInternal-Holds h) all trees) in
    let (old, old_flat, parts) = Each-internal h c.olds c.good in
    let all_small : length (flat (join c.olds)) < 2 ^ 32 =
      omega (arith, small, ap length old_flat, ap (λ cs. length (flat cs)) c.same) in
    let r =
      rebuild-Rebuilt (λ cs. set_sizes cs (5 * suc h)) (IsInternal h) (Parts h) (Parts-split h)
        (make-IsInternal h lt) plan 0 c.olds range (Each-Offset (IsInternal h) c.olds c.good) c.good
        (parts, all_small) (sums ∙ omega (arith, c.counts)) in
    let (new, new_flat, _) = Each-internal h r.news r.good in
    let down : dec_shift (5 * suc (suc h)) ≡ 5 * suc h = omega arith in
    let higher : (5 * suc (suc h) == 5) ≡ false = ground arith in
    record {
      news = nodes r.news;
      returns = rw (higher, c.returns, down, r.returns) refl;
      trees = new;
      same = new_flat ∙ ap flat r.same ∙ sym old_flat ∙ ap flat c.same;
      one_each = r.one_each;
    }

-- Trees of one height up to seven, with less than 2^32 elements together, and a plan of 1 to 32
-- entries a node for as many as they have: `execute_concat_plan` returns trees of the same height with
-- the same elements in order, one for each number of the plan.
pub execute_concat_plan-Executed :
    (h : ℕ) (all : List Node) (plan : List ℕ)
    → h ≤ 7
    → All (Tree h) all
    → length (flat all) < 2 ^ 32
    → All InRange plan
    → sum plan ≡ sum (map count all)
    → Executed h all plan
execute_concat_plan-Executed zero all plan le trees small range sums =
    execute-leaves all plan trees range sums
execute_concat_plan-Executed (suc h) all plan le trees small range sums =
    execute-internal h all plan (omega (arith, le)) trees small range sums
