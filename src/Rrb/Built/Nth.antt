-- ===== src/Rrb/Built/Nth.antt =====
-- `rrb_nth` of vm/src/std/owl_list.c on the trees that pushing builds.
use owlang.Base.{ℕ, ◌≡◌, get_elem?}
use owlang.Base.Outcome.{done}
use owlang.Rrb.{Rrb}
use owlang.Rrb.Nth.{rrb_nth}
use owlang.Rrb.View.{rrb_list}
use owlang.Rrb.Built.{IsBuilt}
use owlang.Rrb.Tree.Built.{IsBuilt-IsRadix}
use owlang.Rrb.Tree.Invariant.{IsRadix-IsTree}
use owlang.Rrb.Tree.Nth.{rrb_nth-elements}

-- On a tree that pushing builds `rrb_nth` is the element of the list at the index, and NULL exactly
-- past the end; it reads no memory that is not the tree's.
pub rrb_nth-get_elem? :
    {r : Rrb} → IsBuilt r → (i : ℕ) → rrb_nth r i ≡ done (get_elem? (rrb_list r) i)
rrb_nth-get_elem? b i = let t = IsBuilt-IsRadix b in rrb_nth-elements (IsRadix-IsTree t) t.levels i
