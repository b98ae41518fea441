-- ===== src/Rrb/Slice/Tests.antt =====
-- Slices at concrete lists.
use owlang.Base.{refl, ◌∷◌, [], take, drop, replicate, arith}
use owlang.Rrb.{Ref, Rrb, deref}
use owlang.Rrb.View.{rrb_list}
use owlang.Rrb.Built.{IsBuilt, Shape, rrb_of}
use owlang.Rrb.Slice.Left.{rrb_slice}
use owlang.Rrb.Slice.Refill.{CutList}
use owlang.Rrb.Slice.Drop.{rrb_slice-drop-take}
use owlang.Rrb.Tree.Built.{IsBuilt-IsRadix}

-- Three leaves and a tail.
abbrev long_list : Rrb
long_list =
    rrb_of (Shape.height_one (replicate 32 1 ∷ replicate 32 2 ∷ replicate 32 3 ∷ [])) (4 ∷ 5 ∷ [])

abbrev long_list-IsBuilt : IsBuilt long_list
long_list-IsBuilt = record {
  shape = Shape.height_one (replicate 32 1 ∷ replicate 32 2 ∷ replicate 32 3 ∷ []);
  tail = 4 ∷ 5 ∷ [];
  is_of = refl;
  fits = ((refl, (refl, (refl, tt))), omega arith, omega arith);
  tail_fits = omega arith;
}

-- From inside the first leaf up to a place inside the second one.
rrb_slice-drop-take_example :
    CutList (rrb_slice (Ref.fresh long_list) 7 40) (drop 7 (take 40 (rrb_list long_list)))
unfolding deref rrb_of
rrb_slice-drop-take_example =
    rrb_slice-drop-take (Ref.fresh long_list) (IsBuilt-IsRadix long_list-IsBuilt) 7 40
