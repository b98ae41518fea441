-- ===== src/Rrb/Tree/Level.antt =====
-- One level down a tree of vm/src/std/owl_list.c: the slot that the index leads to.
use owlang.Base.{
  ℕ, suc, ◌+◌, ◌*◌, ◌/◌, ◌%◌, ◌^◌, ◌≤◌, ◌<◌, ◌≡◌, ap, ◌∙◌, arith, List, length, All, drop, All-map,
  refl, ltb, true,
}
use native.Mathlib.Nat.{div-eq_of_lt-le, div-mul-le_self}
use owlang.Base.Outcome.{done}
use owlang.Rrb.{Node, Nodes, nodes_to_list, radix}
use owlang.Rrb.Nth.{sized_pos, scan_table}
use owlang.Rrb.Tree.Slot.{Slot, Front-slot, scan-slot, sized_pos-slot}
use owlang.Rrb.Tree.{
  Front, Full, flat, size, sums, Radix, Tree, width, width-pow, Radix-Tree, Tree-size,
}

-- The slot of `high * width (suc h) + (k * width h + inner)` one level down is `k`.
radix-slot :
    (high k inner w : ℕ)
    → k < 32
    → inner < w
    → (high * (32 * w) + (k * w + inner)) / w ≡ high * 32 + k
radix-slot high k inner w lt lt' = div-eq_of_lt-le {k = high * 32 + k} w (omega arith) (omega arith)

-- Without a size table the slot is a digit of the index.
pub radix-level :
    (h index high p : ℕ) (cs : List Node)
    → length cs ≤ 32
    → Front (Full h) (Radix h) cs
    → index ≡ high * width (suc h) + p
    → p < length (flat cs)
    → (s : Slot cs p) × Radix h s.child
      × (index / width h % 32 ≡ s.k)
      × (index ≡ (high * 32 + s.k) * width h + s.inner)
radix-level h index high p cs len front e small =
    let (s, before, r) = Front-slot h cs p front small in
    let place = s.place in
    let inside = s.inside in
    let bound = s.bound in
    let most = (Tree-size h s.child (Radix-Tree h s.child r)).1 in
    let slot : index / width h ≡ high * 32 + s.k =
      ap (λ n. n / width h) (omega (arith, e, place, before))
      ∙ radix-slot high s.k s.inner (width h) (omega arith) (omega arith) in
    (s, r, omega arith, omega (arith, e, place, before))

-- The slot that `sized_pos` finds, by a table that holds the sums of the sizes.
pub sized-slot :
    (h p : ℕ) (cs : Nodes)
    → All (Tree h) (nodes_to_list cs)
    → p < length (flat (nodes_to_list cs))
    → p < 2 ^ 32
    → h ≤ 5
    → (s : Slot (nodes_to_list cs) p) × (sized_pos (sums 0 (nodes_to_list cs)) p (5 * suc h)
        ≡ done (s.k, s.inner))
sized-slot h p cs all lt small low =
    let w = width h in
    let fits =
      All-map (Tree h) (λ c. size c ≤ w) (λ c t. (Tree-size h c t).1) (nodes_to_list cs) all in
    let (s, scan, before) =
      scan-slot w (nodes_to_list cs) 0 (p / w) 0 p p fits (omega arith) lt (div-mul-le_self p w) in
    let pos =
      sized_pos-slot (sums 0 (nodes_to_list cs)) h p s.k s.before s.inner
        (ap (λ n. scan_table (drop (p / w) (sums 0 (nodes_to_list cs))) n p) (omega arith)
          ∙ scan
          ∙ ap done (omega arith))
        (before ∙ ap done (omega arith)) s.place small low in
    (s, pos)

-- The digit of the index at a level.
pub radix-digit :
    (h index k : ℕ) → h ≤ 5 → index / width h % 32 ≡ k → radix index (5 * suc h) ≡ done k
unfolding radix
radix-digit h index k low digit =
    let fits : ltb (5 * suc h) 32 ≡ true = ground (arith, low) in rw (fits, width-pow h, digit) refl
