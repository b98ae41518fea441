-- ===== src/Rrb/Built/Memory.antt =====
-- What `rrb_push` of vm/src/std/owl_list.c asks for on the trees that pushing builds.
use owlang.Base.{
  ℕ, ◌+◌, ◌-◌, ◌*◌, ◌/◌, ◌%◌, ◌^◌, ◌≤◌, ◌<◌, ◌≡◌, refl, arith, List, [], ◌∷◌, length, ltb,
  Bool-cases, inl, inr,
}
use owlang.Base.Outcome.{done, Outcome}
use owlang.Rrb.{Rrb, rrb_count}
use owlang.Rrb.Memory.{push_bytes}
use owlang.Vm.Memory.{align}
use owlang.Rrb.Built.{IsBuilt, Shape, Fits, rrb_of, shape_leaves, nodes_length-leaves}
use owlang.Rrb.Built.Count.{
  count_one_leaf, count_height_one, count_height_one_full, count_height_two,
}
use owlang.Rrb.Built.Push.{HasRoom}
use owlang.Rrb.Built.Append.{push_limit, room_of_small}

-- The bytes that these calls of `owl_alloc` take.
unfoldable pub total_bytes : List ℕ → ℕ
unfolding align
total_bytes [] = 0
total_bytes (n ∷ ns) = (align n + 1) % 2 ^ 32 + total_bytes ns

-- A known number of calls that take no more than 351 bytes.
abbrev pub Few : Outcome (List ℕ) → Type 0
Few o = (sizes : List ℕ) × (o ≡ done sizes) × (total_bytes sizes ≤ 351)

tail_bytes : (n : ℕ) → n < 32 → (align (16 + (n + 1) * 8) + 1) % 2 ^ 32 ≡ 25 + n * 8
unfolding align
tail_bytes n h = ground arith

node_bytes : (n : ℕ) → n < 32 → (align (24 + (n + 1) * 8) + 1) % 2 ^ 32 ≡ 33 + n * 8
unfolding align
node_bytes n h = ground arith

push_down_bytes-shape :
    (s : Shape) (t : List ℕ) → length t ≡ 32 → Fits s → HasRoom s → Few (push_bytes (rrb_of s t))
unfolding push_bytes rrb_of total_bytes
push_down_bytes-shape Shape.no_root t full f room = (24 ∷ [], ground arith, omega arith)
push_down_bytes-shape (Shape.one_leaf l) t full f room = (
  24 ∷ 40 ∷ [],
  ground (arith, count_one_leaf (length t) (length t) t (omega arith) (omega arith) l),
  omega arith,
)
push_down_bytes-shape (Shape.height_one ls) t full (all, lo, hi) room =
    let n = length t in
    elim (Bool-cases (ltb (length ls) 32)) [
      | inl short ↦
          let size = node_bytes (length ls) (ground arith) in
          (
            24 ∷ (24 + (length ls + 1) * 8) ∷ [],
            ground (
              arith,
              count_height_one n n t (omega arith) (omega arith) ls,
              nodes_length-leaves ls,
            ),
            rw size (ground arith),
          )
      | inr long ↦ (
        24 ∷ 40 ∷ 32 ∷ [],
        ground (arith, count_height_one_full n n t (omega arith) (omega arith) ls),
        omega arith,
      )
    ]
push_down_bytes-shape (Shape.height_two a b) t full (fa, fb, la, lo, hi) room =
    let n = length t in
    let size = node_bytes (length b) room in
    let slot : (32 * (32 + length b) + n - 1) / 1024 % 32 ≡ 1 = omega arith in
    (
      24 ∷ 40 ∷ (24 + (length b + 1) * 8) ∷ [],
      ground (
        arith,
        count_height_two n n t (omega arith) (omega arith) a b,
        nodes_length-leaves b,
        slot,
      ),
      rw size (ground arith),
    )

bytes_below_limit :
    (s : Shape) (t : List ℕ)
    → Fits s
    → length t ≤ 32
    → 32 * shape_leaves s + length t < push_limit
    → Few (push_bytes (rrb_of s t))
unfolding push_bytes rrb_of total_bytes
bytes_below_limit s t f h small = elim (Bool-cases (ltb (length t) 32)) [
  | inl short ↦
      let size = tail_bytes (length t) (ground arith) in
      ((16 + (length t + 1) * 8) ∷ [], rw short refl, rw size (ground arith))
  | inr long ↦
      let full : length t ≡ 32 = ground arith in
      push_down_bytes-shape s t full f (room_of_small s f (omega arith))
]

-- Below the limit a push onto a list that pushing builds asks for no more than 351 bytes.
pub push_bytes-Few : {r : Rrb} → IsBuilt r → rrb_count r < push_limit → Few (push_bytes r)
unfolding rrb_of
push_bytes-Few {r} b small =
    let small' = rw b.is_of at small in
    rw b.is_of (bytes_below_limit b.shape b.tail b.fits b.tail_fits small')
