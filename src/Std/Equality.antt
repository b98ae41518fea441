-- ===== src/Std/Equality.antt =====
-- `owl_terms_eq` of vm/src/term.c and `owl_list_eq` of vm/src/std/owl_list.c.
pub mod Laws
use owlang.Base.{
  ℕ, zero, suc, ◌+◌, ◌%◌, Bool, true, false, Option, none, some, List, [], ◌∷◌, length, ltb, leb,
  ◌==◌, if◌then◌else◌,
}
use owlang.Base.Outcome.{Outcome, done, out_of_fuel, ◌>>=◌}
use owlang.World.{World}
use owlang.Term.{OwlTag, tag_value, owl_extract_ptr, owl_tag_of}
use owlang.Rrb.{Rrb, rrb_count, read}
use owlang.Rrb.Nth.{rrb_nth}
use owlang.Vm.{Vm}
use owlang.Vm.Memory.{load_tuple, load_rrb, load_string}

-- `strcmp(a, b) == 0`
unfoldable pub same_bytes : List ℕ → List ℕ → Bool
same_bytes [] [] = true
same_bytes [] (y ∷ ys) = false
same_bytes (x ∷ xs) [] = false
same_bytes (x ∷ xs) (y ∷ ys) = if x == y then same_bytes xs ys else false

-- `for(uint8_t i = …; i <= size; i++) if (!test(i)) return false;`, on fuel. The counter wraps at
-- 256, so that a size of 255 gives no end to the loop while the tests hold.
unfoldable pub all_u8 : ℕ → ℕ → ℕ → (ℕ → Outcome Bool) → Outcome Bool
all_u8 zero i size test = out_of_fuel
all_u8 (suc fuel) i size test =
    let rest = all_u8 fuel ((i + 1) % 256) size test in
    if leb i size then (test i >>= λ b. if b then rest else done false) else done true

-- the number of values of a counter of 8 bits
abbrev pub u8_rounds : ℕ
u8_rounds = 256

-- `for (uint32_t i = …; i < count; i++)` with `rest` rounds left
unfoldable pub all_below : ℕ → ℕ → (ℕ → Outcome Bool) → Outcome Bool
all_below zero i test = done true
all_below (suc rest) i test =
    let more = all_below rest (i + 1) test in test i >>= λ b. if b then more else done false

-- `(owl_term) rrb_nth(rrb, i)`, NULL being the word 0
unfoldable pub nth_word : Rrb → ℕ → Outcome ℕ
nth_word rrb i = rrb_nth rrb i >>= elim [ none ↦ done 0 | some x ↦ done x ]

-- The words of a tuple as they stand in memory, its size first.
abbrev pub words : List ℕ → List ℕ
words xs = length xs ∷ xs

-- The loop of the tuple case.
unfoldable pub tuples_eq : (ℕ → ℕ → Outcome Bool) → List ℕ → List ℕ → Outcome Bool
unfolding read
tuples_eq eq left right =
    let left_size = length left % 256 in
    let right_size = length right % 256 in
    if left_size == right_size
    then all_u8 u8_rounds 1 left_size
        (λ i. read (words left) i >>= λ l. read (words right) i >>= λ r. eq l r)
    else done false

unfoldable pub owl_list_eq : (ℕ → ℕ → Outcome Bool) → Rrb → Rrb → Outcome Bool
unfolding all_below nth_word
owl_list_eq eq left right =
    if rrb_count left == rrb_count right
    then all_below (rrb_count left) 0
        (λ i. nth_word left i >>= λ l. nth_word right i >>= λ r. eq l r)
    else done false

module _ {w : World} where
  -- The `switch` over the tag that both terms have, `eq` being the recursive call.
  unfoldable pub same_tag_eq : (ℕ → ℕ → Outcome Bool) → ℕ → ℕ → Vm w → Outcome Bool
  unfolding tag_value tuples_eq owl_list_eq same_bytes
  same_tag_eq eq left right vm =
      let tag = owl_tag_of left in
      if tag == tag_value OwlTag.tuple
      then (load_tuple (owl_extract_ptr left) vm >>= λ ls.
          load_tuple (owl_extract_ptr right) vm >>= λ rs. tuples_eq eq ls rs)
      else if tag == tag_value OwlTag.list
      then (load_rrb (owl_extract_ptr left) vm >>= λ l.
          load_rrb (owl_extract_ptr right) vm >>= λ r. owl_list_eq eq l r)
      else if tag == tag_value OwlTag.string
      then (load_string (owl_extract_ptr left) vm >>= λ l.
          load_string (owl_extract_ptr right) vm >>= λ r. done (same_bytes l r))
      else done false

  -- `fuel` bounds how deep the terms are nested.
  unfoldable pub owl_terms_eq : ℕ → ℕ → ℕ → Vm w → Outcome Bool
  unfolding same_tag_eq
  owl_terms_eq zero left right vm = out_of_fuel
  owl_terms_eq (suc fuel) left right vm =
      let rest = same_tag_eq (λ l r. owl_terms_eq fuel l r vm) left right vm in
      if left == right
      then done true
      else if owl_tag_of left == owl_tag_of right
      then rest
      else done false
