-- ===== src/Rrb/Built/Push.antt =====
-- `rrb_push` on the trees that pushing builds.
use owlang.Base.{
  ℕ, suc, ◌^◌, false, ◌+◌, ◌-◌, ◌*◌, ◌/◌, ◌%◌, ◌≤◌, ◌<◌, ◌≡◌, refl, ap, ◌∙◌, List, [], ◌∷◌, ◌++◌,
  length, arith, ltb, if◌then◌else◌, set, length-append, append_assoc, append-nil, ◌⊎◌, inl, inr,
  Bool-cases,
}
use owlang.Base.Outcome.{done, fault}
use owlang.Rrb.{Node, Nodes, nodes_length, nodes_set, nodes_snoc}
use owlang.Rrb.Push.{rrb_push, push_down_tail, copy_first_k, write_child}
use owlang.Rrb.View.{node_list, rrb_list}
use owlang.Rrb.Built.{
  Shape, Fits, leaves, rrb_of, list_of, over_leaves, shape_leaves, shape_root, nodes_length-leaves,
  nodes_snoc-leaves, nodes_list-snoc, AllFull-snoc,
}
use owlang.Rrb.Built.Count.{
  count_one_leaf, count_height_one, count_height_one_full, count_height_two, count_height_two_full,
}

-- The slot behind the last element is written.
set-snoc : (xs : List ℕ) (x : ℕ) → set (xs ++ 0 ∷ []) (length xs) x ≡ xs ++ x ∷ []
set-snoc [] x = refl
set-snoc (y ∷ xs) x = ap (λ zs. y ∷ zs) (set-snoc xs x)

nodes_set-snoc :
    (ls : List (List ℕ)) (c : Node)
    → nodes_set (nodes_snoc (leaves ls) Node.null) (length ls) c ≡ nodes_snoc (leaves ls) c
unfolding nodes_set nodes_snoc leaves
nodes_set-snoc [] c = refl
nodes_set-snoc (l ∷ ls) c = rw (nodes_set-snoc ls c)

nodes_length-snoc : (cs : Nodes) (c : Node) → nodes_length (nodes_snoc cs c) ≡ suc (nodes_length cs)
unfolding nodes_length nodes_snoc
nodes_length-snoc Nodes.nil c = refl
nodes_length-snoc (Nodes.cons d cs) c = rw (nodes_length-snoc cs c)

-- Where the leaves of a shape go when a full tail is pushed down.
unfoldable pub push_shape : Shape → List ℕ → Shape
push_shape Shape.no_root t = Shape.one_leaf t
push_shape (Shape.one_leaf l) t = Shape.height_one (l ∷ t ∷ [])
push_shape (Shape.height_one ls) t =
    if ltb (length ls) 32 then Shape.height_one (ls ++ t ∷ []) else Shape.height_two ls (t ∷ [])
push_shape (Shape.height_two a b) t = Shape.height_two a (b ++ t ∷ [])

write_child-snoc :
    (ls : List (List ℕ)) (t : List ℕ)
    → write_child (nodes_snoc (leaves ls) Node.null) (length ls) (Node.leaf t)
      ≡ done (leaves (ls ++ t ∷ []))
unfolding write_child
write_child-snoc ls t =
    rw (nodes_set-snoc, nodes_snoc-leaves)
      (ground (arith, nodes_length-snoc (leaves ls) Node.null, nodes_length-leaves ls))

copy_height_one :
    (ls : List (List ℕ)) (t : List ℕ) (index size : ℕ)
    → index / 32 ≡ length ls
    → length ls < 32
    → copy_first_k 1 5 index size (Node.leaf t) (over_leaves ls) ≡ done (over_leaves (ls ++ t ∷ []))
unfolding copy_first_k
copy_height_one ls t index size at h =
    let slot : index / 32 % 32 ≡ length ls = omega arith in rw (slot, write_child-snoc ls t)

copy_height_two :
    (a b : List (List ℕ)) (t : List ℕ) (index size : ℕ)
    → index / 32 ≡ 32 + length b
    → 1 ≤ length b
    → length b < 32
    → copy_first_k 2 10 index size (Node.leaf t) (shape_root (Shape.height_two a b))
      ≡ done (shape_root (Shape.height_two a (b ++ t ∷ [])))
unfolding copy_first_k shape_root
copy_height_two a b t index size at pos h =
    let high : index / 1024 % 32 ≡ 1 = omega arith in
    let low : index / 32 % 32 ≡ length b = omega arith in rw (high, low, write_child-snoc b t)

-- The tree has no room for another leaf: its root at height two has two full children.
abbrev pub IsAtLimit : Shape → Type 0
IsAtLimit (Shape.height_two a b) = length b ≡ 32
IsAtLimit _ = ⊥

abbrev pub HasRoom : Shape → Type 0
HasRoom (Shape.height_two a b) = length b < 32
HasRoom _ = Unit

pub bounds : (s : Shape) → Fits s → shape_leaves s ≤ 64
unfolding shape_leaves
bounds Shape.no_root f = omega arith
bounds (Shape.one_leaf l) f = omega arith
bounds (Shape.height_one ls) f = omega arith
bounds (Shape.height_two a b) f = omega arith

-- There is one leaf more.
leaves-push_shape :
    (s : Shape) (t : List ℕ) → Fits s → shape_leaves (push_shape s t) ≡ suc (shape_leaves s)
unfolding shape_leaves push_shape
leaves-push_shape Shape.no_root t f = omega arith
leaves-push_shape (Shape.one_leaf l) t f = omega arith
leaves-push_shape (Shape.height_one ls) t f = ground (arith, length-append ls (t ∷ []))
leaves-push_shape (Shape.height_two a b) t f = omega (arith, length-append b (t ∷ []))

-- A tail `t` is pushed down a list with `n` elements behind its leaves, to give `list_of s cnt len t`
-- a new tail.
module _ (n tail_len cnt len : ℕ) (tail t new_tail : List ℕ) (pos : 1 ≤ n) (most : n ≤ 32) where
  pub push_down_tail-shape :
      (s : Shape)
      → Fits s
      → HasRoom s
      → push_down_tail
          (list_of s (32 * shape_leaves s + n) tail_len tail)
          (list_of s cnt len t)
          new_tail
        ≡ done (list_of (push_shape s t) cnt len new_tail)
  unfolding push_down_tail push_shape list_of shape_leaves
  push_down_tail-shape Shape.no_root f room = ground arith
  push_down_tail-shape (Shape.one_leaf l) f room =
      ground (arith, count_one_leaf n tail_len tail pos most l)
  push_down_tail-shape (Shape.height_one ls) (all, lo, hi) room = ground (
    arith,
    count_height_one n tail_len tail pos most ls,
    count_height_one_full n tail_len tail pos most ls,
    copy_height_one ls t (32 * length ls + n - 1) (length t),
  )
  push_down_tail-shape (Shape.height_two a b) (fa, fb, la, lo, hi) room = ground (
    arith,
    count_height_two n tail_len tail pos most a b,
    copy_height_two a b t (32 * (32 + length b) + n - 1) (length t),
  )

module _ (t : List ℕ) (x : ℕ) where
  pub push_into_tail :
      (s : Shape) → length t < 32 → Fits s → rrb_push (rrb_of s t) x ≡ done (rrb_of s (t ++ x ∷ []))
  unfolding rrb_push rrb_of
  push_into_tail s h f =
      ground (arith, bounds s f, set-snoc t x, length-append t (0 ∷ []), length-append t (x ∷ []))

  pub push_full_tail :
      (s : Shape)
      → length t ≡ 32
      → Fits s
      → HasRoom s
      → rrb_push (rrb_of s t) x ≡ done (rrb_of (push_shape s t) (x ∷ []))
  unfolding rrb_push rrb_of
  push_full_tail s full f room =
      let n = length t in
      let no_room : ltb n 32 ≡ false = ground arith in
      let many = bounds s f in
      let more = leaves-push_shape s t f in
      let cnt : (32 * shape_leaves s + n + 1) % 2 ^ 32 ≡ 32 * shape_leaves (push_shape s t) + 1 =
        omega arith in
      rw no_room (
        push_down_tail-shape n n ((32 * shape_leaves s + n + 1) % 2 ^ 32) 1 t t (x ∷ [])
          (omega arith) (omega arith) s f room
        ∙ ap (λ c. done (list_of (push_shape s t) c 1 (x ∷ []))) cnt)

  pub push_at_limit :
      (s : Shape) → length t ≡ 32 → Fits s → IsAtLimit s → rrb_push (rrb_of s t) x ≡ fault
  unfolding rrb_push rrb_of
  push_at_limit Shape.no_root full f lim = absurd lim
  push_at_limit (Shape.height_two a b) full f lim =
      ground (arith, count_height_two_full (length t) (length t) t (omega arith) (omega arith) a b)
  push_at_limit _ full f lim = absurd lim

  pub rrb_list-push_shape :
      (s : Shape) → rrb_list (rrb_of (push_shape s t) (x ∷ [])) ≡ rrb_list (rrb_of s t) ++ x ∷ []
  unfolding rrb_list node_list rrb_of push_shape
  rrb_list-push_shape Shape.no_root = refl
  rrb_list-push_shape (Shape.one_leaf l) = simp (append_assoc, append-nil)
  rrb_list-push_shape (Shape.height_one ls) = elim (Bool-cases (ltb (length ls) 32)) [
    | inl h ↦ rw h (simp (nodes_list-snoc, append_assoc))
    | inr h ↦ rw h (simp (append_assoc, append-nil))
  ]
  rrb_list-push_shape (Shape.height_two a b) = simp (nodes_list-snoc, append_assoc, append-nil)

  pub Fits-push_shape : (s : Shape) → length t ≡ 32 → Fits s → HasRoom s → Fits (push_shape s t)
  unfolding push_shape
  Fits-push_shape Shape.no_root full f room = full
  Fits-push_shape (Shape.one_leaf l) full f room = omega arith
  Fits-push_shape (Shape.height_one ls) full (all, lo, hi) room =
      elim (Bool-cases (ltb (length ls) 32)) [
        | inl h ↦ rw h (
          AllFull-snoc ls t all full,
          ground (arith, length-append ls (t ∷ [])),
          ground (arith, length-append ls (t ∷ [])),
        )
        | inr h ↦ rw h (all, (full, tt), ground arith, ground arith, ground arith)
      ]
  Fits-push_shape (Shape.height_two a b) full (fa, fb, la, lo, hi) room = (
    fa,
    AllFull-snoc b t fb full,
    la,
    omega (arith, length-append {0} b (t ∷ [])),
    omega (arith, length-append {0} b (t ∷ [])),
  )

pub room_or_limit : (s : Shape) → Fits s → HasRoom s ⊎ IsAtLimit s
room_or_limit (Shape.height_two a b) f = ground arith
room_or_limit Shape.no_root f = inl tt
room_or_limit _ f = inl tt

-- The count of a tree that has no room, and only that, is 2048 and the tail.
pub limit_leaves : (s : Shape) → IsAtLimit s → shape_leaves s ≡ 64
unfolding shape_leaves
limit_leaves (Shape.height_two a b) lim = omega arith
limit_leaves Shape.no_root lim = absurd lim
limit_leaves _ lim = absurd lim

pub room_leaves : (s : Shape) → Fits s → HasRoom s → shape_leaves s < 64
unfolding shape_leaves
room_leaves Shape.no_root f lim = omega arith
room_leaves (Shape.one_leaf l) f lim = omega arith
room_leaves (Shape.height_one ls) f lim = omega arith
room_leaves (Shape.height_two a b) f lim = omega arith
