-- ===== src/Rrb/Tree/Fill.antt =====
-- The inner loop of `execute_concat_plan` of vm/src/std/owl_list.c, for nodes of any content.
use owlang.Base.{
  ℕ, zero, suc, ◌+◌, ◌-◌, ◌≤◌, ◌<◌, ◌≡◌, refl, ap, sym, ◌∙◌, arith, List, [], ◌∷◌, ◌++◌, length,
  take, drop, append_assoc, length-append, length-drop, length-take, drop-append_left, drop-drop,
  take-append-drop, leb, Bool-cases, inl, inr,
}
use owlang.Base.Outcome.{done}
use owlang.Rrb.{Node}
use owlang.Rrb.Plan.{Source, fill}

module _ {A : Type 0} where
  -- What some nodes hold, one behind the other.
  abbrev pub join : Source A → List A
  join [] = []
  join ((c, xs) ∷ olds) = xs ++ join olds

  abbrev pub nodes : Source A → List Node
  nodes [] = []
  nodes ((c, xs) ∷ olds) = c ∷ nodes olds

  -- The offset lies in the first node that is left.
  abbrev pub Offset : ℕ → Source A → Type 0
  Offset offset [] = offset ≡ 0
  Offset offset ((c, xs) ∷ olds) = offset < length xs

  -- Each node holds something, and is for its content what `P` says.
  abbrev pub Each : (Node → List A → Type 0) → Source A → Type 0
  Each P [] = Unit
  Each P ((c, xs) ∷ olds) = P c xs × (1 ≤ length xs) × Each P olds

  pub Each-Offset : (P : Node → List A → Type 0) (olds : Source A) → Each P olds → Offset 0 olds
  Each-Offset P [] e = refl
  Each-Offset P ((c, xs) ∷ olds) (p, pos, e) = omega (arith, pos)

  pub no_items : (xs : List A) → length xs ≡ 0 → xs ≡ []
  no_items [] e = refl
  no_items (x ∷ xs) e = absurd (omega (arith, e))

  -- A new node takes the first `need` that are left.
  pub record Filled (P : Node → List A → Type 0) (need offset : ℕ) (olds : Source A) : Type 0 where
    pub items : List A
    pub offset' : ℕ
    pub left : Source A
    pub returns : fill need offset olds ≡ done (items, offset', left)
    pub size : length items ≡ need
    pub inside : Offset offset' left
    pub good : Each P left
    pub same : drop offset (join olds) ≡ items ++ drop offset' (join left)

  fill-none :
      (P : Node → List A → Type 0) (offset : ℕ) (olds : Source A)
      → Offset offset olds
      → Each P olds
      → Filled P 0 offset olds
  unfolding fill
  fill-none P offset [] o e = record {
    items = [];
    offset' = offset;
    left = [];
    returns = refl;
    size = refl;
    inside = o;
    good = e;
    same = refl;
  }
  fill-none P offset ((c, xs) ∷ olds) o e = record {
    items = [];
    offset' = offset;
    left = (c, xs) ∷ olds;
    returns = refl;
    size = refl;
    inside = o;
    good = e;
    same = refl;
  }

  module _ (P : Node → List A → Type 0) (need offset : ℕ) (c : Node) (xs : List A) (olds : Source A)
      (pos : 1 ≤ need) (o : offset < length xs) where
    fill-part :
        need < length xs - offset → Each P ((c, xs) ∷ olds) → Filled P need offset ((c, xs) ∷ olds)
    unfolding fill
    fill-part part e = record {
      items = take need (drop offset xs);
      offset' = offset + need;
      left = (c, xs) ∷ olds;
      returns = ground arith;
      size = length-take need (drop offset xs) (omega (arith, length-drop offset xs));
      inside = omega arith;
      good = e;
      same =
          drop-append_left offset xs (join olds) (omega arith)
          ∙ ap (λ zs. zs ++ join olds) (sym (take-append-drop need (drop offset xs)))
          ∙ append_assoc (take need (drop offset xs)) (drop need (drop offset xs)) (join olds)
          ∙ ap (λ zs. take need (drop offset xs) ++ zs)
              (ap (λ zs. zs ++ join olds) (drop-drop need offset xs)
                ∙ sym (drop-append_left (offset + need) xs (join olds) (omega arith)));
    }

    fill-whole :
        length xs - offset ≤ need
        → Filled P (need - (length xs - offset)) 0 olds
        → Filled P need offset ((c, xs) ∷ olds)
    unfolding fill
    fill-whole whole f = record {
      items = drop offset xs ++ f.items;
      offset' = f.offset';
      left = f.left;
      returns = rw f.returns (ground arith);
      size = length-append (drop offset xs) f.items ∙ omega (arith, length-drop offset xs, f.size);
      inside = f.inside;
      good = f.good;
      same =
          drop-append_left offset xs (join olds) (omega arith)
          ∙ ap (λ zs. drop offset xs ++ zs) f.same
          ∙ sym (append_assoc (drop offset xs) f.items (drop f.offset' (join f.left)));
    }

  pub fill-Filled :
      (P : Node → List A → Type 0) (need offset : ℕ) (olds : Source A)
      → Offset offset olds
      → Each P olds
      → need ≤ length (join olds) - offset
      → Filled P need offset olds
  fill-Filled P zero offset olds o e le = fill-none P offset olds o e
  fill-Filled P (suc need) offset [] o e le = absurd (omega (arith, le))
  fill-Filled P (suc need) offset ((c, xs) ∷ olds) o e le =
      elim (Bool-cases (leb (length xs - offset) (suc need))) [
        | inl whole ↦ fill-whole P (suc need) offset c xs olds (omega arith) o (ground arith) (
            fill-Filled P (suc need - (length xs - offset)) 0 olds (Each-Offset P olds e.2) e.2
              (omega (arith, le, o, length-append {0} xs (join olds))))
        | inr part ↦ fill-part P (suc need) offset c xs olds (omega arith) o (ground arith) e
      ]
