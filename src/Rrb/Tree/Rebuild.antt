-- ===== src/Rrb/Tree/Rebuild.antt =====
-- The outer loop of `execute_concat_plan` of vm/src/std/owl_list.c, for nodes of any content.
use owlang.Base.{
  ℕ, suc, ◌-◌, ◌≤◌, ◌≡◌, refl, ap, sym, ◌∙◌, subst, arith, List, [], ◌∷◌, ◌++◌, length, sum, All,
  drop, length-append, length-drop, ◌==◌, Bool-cases, inl, inr, true, false, ◌&&◌,
}
use owlang.Base.Outcome.{Outcome, done}
use owlang.Rrb.{Node}
use owlang.Rrb.Plan.{Source, next_node, rebuild}
use owlang.Rrb.Tree.Plan.{InRange}
use owlang.Rrb.Tree.Fill.{join, nodes, Offset, Each, Each-Offset, Filled, fill-Filled, no_items}

-- `make` makes a node `P` of any part of what there is, when as much fits into a node; `R` holds of
-- the parts.
module _ {A : Type 0} (make : List A → Outcome Node) (P : Node → List A → Type 0)
    (R : List A → Type 0) (split : (xs ys : List A) → R (xs ++ ys) → R xs × R ys)
    (makes : (xs : List A)
      → InRange (length xs)
      → R xs
      → (c : Node) × (make xs ≡ done c) × P c xs) where
  record Next (n offset : ℕ) (olds : Source A) : Type 0 where
    pub node : Node
    pub items : List A
    pub offset' : ℕ
    pub left : Source A
    pub returns : next_node make n offset olds ≡ done (node, offset', left)
    pub is_node : P node items
    pub size : length items ≡ n
    pub inside : Offset offset' left
    pub good : Each P left
    pub same : drop offset (join olds) ≡ items ++ drop offset' (join left)

  -- An old node is taken over.
  next-old :
      (n offset : ℕ) (c : Node) (xs : List A) (olds : Source A)
      → Each P ((c, xs) ∷ olds)
      → (offset == 0 && n == length xs) ≡ true
      → Next n offset ((c, xs) ∷ olds)
  unfolding next_node
  next-old n offset c xs olds (p, pos, e) old =
      let first : offset ≡ 0 = ground arith in
      record {
        node = c;
        items = xs;
        offset' = 0;
        left = olds;
        returns = rw old refl;
        is_node = p;
        size = ground arith;
        inside = Each-Offset P olds e;
        good = e;
        same = ap (λ o. drop o (xs ++ join olds)) first;
      }

  next-new :
      (n offset : ℕ) (c : Node) (xs : List A) (olds : Source A)
      → InRange n
      → R (drop offset (xs ++ join olds))
      → (offset == 0 && n == length xs) ≡ false
      → Filled P n offset ((c, xs) ∷ olds)
      → Next n offset ((c, xs) ∷ olds)
  unfolding next_node
  next-new n offset c xs olds range all new f =
      let part = split f.items (drop f.offset' (join f.left)) (subst R f.same all) in
      let (node, made, is_node) = makes f.items (subst InRange (sym f.size) range) part.0 in
      record {
        node = node;
        items = f.items;
        offset' = f.offset';
        left = f.left;
        returns = rw (new, f.returns, made) refl;
        is_node = is_node;
        size = f.size;
        inside = f.inside;
        good = f.good;
        same = f.same;
      }

  next :
      (n offset : ℕ) (olds : Source A)
      → InRange n
      → Offset offset olds
      → Each P olds
      → R (drop offset (join olds))
      → n ≤ length (join olds) - offset
      → Next n offset olds
  next n offset [] range o e all le = absurd (omega (arith, le, range))
  next n offset ((c, xs) ∷ olds) range o e all le =
      elim (Bool-cases (offset == 0 && n == length xs)) [
        | inl old ↦ next-old n offset c xs olds e old
        | inr new ↦
            next-new n offset c xs olds range all new
              (fill-Filled P n offset ((c, xs) ∷ olds) o e le)
      ]

  -- The new nodes hold what the old ones held from the offset on, one node for each number.
  pub record Rebuilt (ns : List ℕ) (offset : ℕ) (olds : Source A) : Type 0 where
    pub news : Source A
    pub returns : rebuild make ns offset olds ≡ done (nodes news)
    pub good : Each P news
    pub same : join news ≡ drop offset (join olds)
    pub one_each : length (nodes news) ≡ length ns

  pub rebuild-Rebuilt :
      (ns : List ℕ) (offset : ℕ) (olds : Source A)
      → All InRange ns
      → Offset offset olds
      → Each P olds
      → R (drop offset (join olds))
      → sum ns ≡ length (join olds) - offset
      → Rebuilt ns offset olds
  unfolding rebuild
  rebuild-Rebuilt [] offset olds range o e all sums = record {
    news = [];
    returns = refl;
    good = tt;
    same =
        sym (
          no_items (drop offset (join olds)) (omega (arith, sums, length-drop offset (join olds))));
    one_each = refl;
  }
  rebuild-Rebuilt (n ∷ ns) offset olds (range, ranges) o e all sums =
      let x = next n offset olds range o e all (omega (arith, sums)) in
      let part = split x.items (drop x.offset' (join x.left)) (subst R x.same all) in
      let size = ap length x.same in
      let rest = rebuild-Rebuilt ns x.offset' x.left ranges x.inside x.good part.1 (
        omega (
          arith,
          sums,
          size,
          x.size,
          length-append x.items (drop x.offset' (join x.left)),
          length-drop offset (join olds),
          length-drop x.offset' (join x.left),
        )) in
      record {
        news = (x.node, x.items) ∷ rest.news;
        returns = rw (x.returns, rest.returns) refl;
        good = (x.is_node, omega (arith, x.size, range), rest.good);
        same = ap (λ zs. x.items ++ zs) rest.same ∙ sym x.same;
        one_each = ap suc rest.one_each;
      }
