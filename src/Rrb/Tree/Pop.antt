-- ===== src/Rrb/Tree/Pop.antt =====
-- `rrb_pop` of vm/src/std/owl_list.c after `rrb_push`.
use owlang.Base.{
  ℕ, ◌+◌, ◌%◌, ◌^◌, ◌≤◌, ◌<◌, ◌≡◌, refl, ap, ◌∙◌, arith, List, [], ◌∷◌, ◌++◌, length, take, set,
  length-append, set-length_append, take-length_append, ltb, ◌==◌, true, false,
}
use owlang.Base.Outcome.{done, ◌>>=◌}
use owlang.Rrb.{Rrb, Ref, sub32}
use owlang.Rrb.Push.{rrb_push, write}
use owlang.Rrb.Update.{rrb_pop, leaf_node_dec}
use owlang.Rrb.Tree.Invariant.{IsTree}

dec-snoc : (xs : List ℕ) (x : ℕ) → take (length xs) (xs ++ x ∷ []) ≡ xs
dec-snoc xs x = take-length_append xs (x ∷ [])

leaf_node_dec-snoc : (xs : List ℕ) (x : ℕ) → leaf_node_dec (xs ++ x ∷ []) ≡ done xs
unfolding leaf_node_dec
leaf_node_dec-snoc [] x = refl
leaf_node_dec-snoc (y ∷ xs) x =
    let e : length (xs ++ x ∷ []) ≡ length (y ∷ xs) = omega (arith, length-append xs (x ∷ [])) in
    ap (λ n. done (take n (y ∷ (xs ++ x ∷ [])))) e ∙ ap done (dec-snoc (y ∷ xs) x)

-- The list with room in its tail and one element more.
abbrev pushed : Rrb → ℕ → Rrb
pushed r x = record r { cnt = r.cnt + 1; tail_len = r.tail_len + 1; tail = r.tail ++ x ∷ [] }

module _ (r : Rrb) (x : ℕ) (t : IsTree r) (room : r.tail_len < 32)
    (small : r.cnt + 1 < 2 ^ 32) where
  rrb_push-pushed : rrb_push r x ≡ done (pushed r x)
  unfolding rrb_push write
  rrb_push-pushed =
      let fits : ltb r.tail_len 32 ≡ true = ground (arith, room) in
      let inside : ltb r.tail_len (length (r.tail ++ 0 ∷ [])) ≡ true =
        ground (arith, t.tail, length-append r.tail (0 ∷ [])) in
      let slot : set (r.tail ++ 0 ∷ []) r.tail_len x ≡ r.tail ++ x ∷ [] =
        ap (λ n. set (r.tail ++ 0 ∷ []) n x) t.tail ∙ set-length_append r.tail 0 x [] in
      let cnt : (r.cnt + 1) % 2 ^ 32 ≡ r.cnt + 1 = omega (arith, small) in
      let len : (r.tail_len + 1) % 2 ^ 32 ≡ r.tail_len + 1 = omega (arith, room) in
      rw (fits, inside, slot, cnt, len) refl

  pop-pushed : 1 ≤ r.tail_len → rrb_pop (pushed r x) ≡ done (Ref.fresh r)
  unfolding rrb_pop
  pop-pushed pos =
      let many : (r.cnt + 1 == 1) ≡ false = ground (arith, t.cnt, t.tail, pos) in
      let two : (r.tail_len + 1 == 1) ≡ false = ground (arith, pos) in
      let cnt : sub32 (r.cnt + 1) 1 ≡ r.cnt = omega (arith, small) in
      let len : sub32 (r.tail_len + 1) 1 ≡ r.tail_len = omega (arith, room) in
      rw (many, two, leaf_node_dec-snoc r.tail x, cnt, len) refl

  -- Where the tail of a list that keeps the invariant has an element and room for another one, with
  -- less than 2^32 - 1 elements in all, `rrb_pop` after `rrb_push` gives the very list back.
  pub rrb_pop-push : 1 ≤ r.tail_len → (rrb_push r x >>= rrb_pop) ≡ done (Ref.fresh r)
  rrb_pop-push pos = rw rrb_push-pushed (pop-pushed pos)
