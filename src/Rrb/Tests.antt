-- ===== src/Rrb/Tests.antt =====
-- Lists at concrete values.
use owlang.Base.{
  ℕ, ◌≡◌, refl, List, [], ◌∷◌, zero, suc, ◌+◌, ◌-◌, ◌&&◌, some, Bool, true, false, drop, ◌==◌,
}
use owlang.Base.Outcome.{Outcome, done, ◌>>=◌}
use owlang.Rrb.{Rrb, Ref, deref, rrb_create}
use owlang.Rrb.Nth.{rrb_nth}
use owlang.Rrb.Push.{rrb_push, count_copyable, copy_first_k}
use owlang.Rrb.Concat.{rrb_concat}
use owlang.Rrb.Slice.Left.{rrb_slice}
use owlang.Rrb.View.{rrb_list}

count_up : ℕ → ℕ → List ℕ
count_up zero i = []
count_up (suc n) i = i ∷ count_up n (i + 1)

same : List ℕ → List ℕ → Bool
same [] [] = true
same (x ∷ xs) (y ∷ ys) = x == y && same xs ys
same _ _ = false

-- The elements are pushed one after another.
push_all : Rrb → List ℕ → Outcome Rrb
unfolding rrb_push
push_all rrb [] = done rrb
push_all rrb (x ∷ xs) = rrb_push rrb x >>= λ next. push_all next xs

nths : ℕ → ℕ → Rrb → List ℕ → Outcome Bool
unfolding rrb_nth
nths zero i r xs = done true
nths (suc n) i r [] = done false
nths (suc n) i r (x ∷ xs) =
    rrb_nth r i >>= elim [ some y ↦ (if_same (x == y) (nths n (i + 1) r xs)) | _ ↦ done false ]
  where
    -- stops at the first wrong element
    if_same : Bool → Outcome Bool → Outcome Bool
    if_same true k = k
    if_same false k = done false

built : ℕ → ℕ → Outcome Rrb
unfolding count_up push_all count_copyable copy_first_k
built n i = push_all rrb_create (count_up n i)

concat_ok : ℕ → ℕ → Outcome Bool
unfolding built rrb_concat rrb_list same nths deref count_copyable copy_first_k
concat_ok n m = do
  l ← built n 1
  r ← built m (n + 1)
  ref ← rrb_concat (Ref.given 1 l) (Ref.given 2 r)
  b ← nths (n + m) 0 (deref ref) (count_up (n + m) 1)
  done (b && same (rrb_list (deref ref)) (count_up (n + m) 1))

slice_ok : ℕ → ℕ → ℕ → ℕ → Outcome Bool
unfolding concat_ok rrb_slice
slice_ok n m from to = do
  l ← built n 1
  r ← built m (n + 1)
  ref ← rrb_concat (Ref.given 1 l) (Ref.given 2 r)
  cut ← rrb_slice ref from to
  b ← nths (to - from) 0 (deref cut) (drop from (count_up to 1))
  done (b && same (rrb_list (deref cut)) (drop from (count_up to 1)))

concat_short_lists : concat_ok 100 200 ≡ done true
unfolding concat_ok
concat_short_lists = refl

concat_long_with_short : concat_ok 1100 20 ≡ done true
unfolding concat_ok
concat_long_with_short = refl

concat_long_lists : concat_ok 1100 1200 ≡ done true
unfolding concat_ok
concat_long_lists = refl

concat_short_with_long : concat_ok 33 1500 ≡ done true
unfolding concat_ok
concat_short_with_long = refl

slice_left_part : slice_ok 1100 1200 5 700 ≡ done true
unfolding slice_ok
slice_left_part = refl

slice_right_part : slice_ok 1100 1200 1150 2200 ≡ done true
unfolding slice_ok
slice_right_part = refl

slice_middle : slice_ok 100 120 40 150 ≡ done true
unfolding slice_ok
slice_middle = refl

slice_pushed_list : slice_ok 1100 0 40 1050 ≡ done true
unfolding slice_ok
slice_pushed_list = refl

slice_short_list : slice_ok 100 0 40 99 ≡ done true
unfolding slice_ok
slice_short_list = refl

slice_across_leaves : slice_ok 100 0 7 35 ≡ done true
unfolding slice_ok
slice_across_leaves = refl

slice_across_nodes : slice_ok 700 800 31 1290 ≡ done true
unfolding slice_ok
slice_across_nodes = refl
