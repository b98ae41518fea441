-- ===== src/Rrb/Built/Tests.antt =====
-- Trees that pushing builds, at concrete lists.
use owlang.Base.{ℕ, zero, suc, ◌≡◌, refl, arith, List, [], ◌∷◌, ◌++◌, replicate}
use owlang.Base.Outcome.{done, fault}
use owlang.Rrb.{Rrb}
use owlang.Rrb.Push.{rrb_push}
use owlang.Rrb.View.{rrb_list}
use owlang.Rrb.Built.{IsBuilt, Shape, AllFull, rrb_of}
use owlang.Rrb.Built.Append.{rrb_push-append, rrb_push-limit}

abbrev leaf : List ℕ
leaf = replicate 32 7

-- 32 leaves below one node and 2 below another, and a full tail: the next push copies a path.
abbrev tall_shape : Shape
tall_shape = Shape.height_two (replicate 32 leaf) (leaf ∷ leaf ∷ [])

all_full : (n : ℕ) → AllFull (replicate n leaf)
all_full zero = tt
all_full (suc n) = (refl, all_full n)

abbrev tall : Rrb
tall = rrb_of tall_shape leaf

abbrev tall-IsBuilt : IsBuilt tall
tall-IsBuilt = record {
  shape = tall_shape;
  tail = leaf;
  is_of = refl;
  fits = (all_full 32, (refl, (refl, tt)), refl, omega arith, omega arith);
  tail_fits = omega arith;
}

-- 64 full leaves and a full tail.
abbrev full_shape : Shape
full_shape = Shape.height_two (replicate 32 leaf) (replicate 32 leaf)

abbrev full : Rrb
full = rrb_of full_shape leaf

abbrev full-IsBuilt : IsBuilt full
full-IsBuilt = record {
  shape = full_shape;
  tail = leaf;
  is_of = refl;
  fits = (all_full 32, all_full 32, refl, omega arith, omega arith);
  tail_fits = omega arith;
}

rrb_push-append_example :
    (r' : Rrb) × (rrb_push tall 5 ≡ done r') × IsBuilt r' × (rrb_list r' ≡ rrb_list tall ++ 5 ∷ [])
unfolding rrb_of
rrb_push-append_example = rrb_push-append tall-IsBuilt 5 (omega arith)

rrb_push-limit_example : rrb_push full 5 ≡ fault
unfolding rrb_of
rrb_push-limit_example = rrb_push-limit full-IsBuilt 5 refl
