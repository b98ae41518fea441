-- ===== src/Rrb/Built/Count.antt =====
-- What `push_down_tail` counts on the trees that pushing builds.
use owlang.Base.{ℕ, ◌+◌, ◌*◌, ◌≤◌, ◌<◌, ◌≡◌, refl, List, length, arith}
use owlang.Base.Outcome.{done, fault}
use owlang.Rrb.Push.{count_copyable}
use owlang.Rrb.Built.{Shape, list_of, nodes_length-leaves}

-- The counted list has `n` elements behind the leaves, in the tail that is to be pushed down.
module _ (n tail_len : ℕ) (tail : List ℕ) (pos : 1 ≤ n) (most : n ≤ 32) where
  pub count_one_leaf :
      (l : List ℕ)
      → count_copyable (list_of (Shape.one_leaf l) (32 + n) tail_len tail) ≡ done (0, 0)
  unfolding count_copyable list_of
  count_one_leaf l = refl

  pub count_height_one :
      (ls : List (List ℕ))
      → length ls < 32
      → count_copyable (list_of (Shape.height_one ls) (32 * length ls + n) tail_len tail)
        ≡ done (1, 1)
  unfolding count_copyable list_of
  count_height_one ls h = ground (arith, nodes_length-leaves ls)

  pub count_height_one_full :
      (ls : List (List ℕ))
      → length ls ≡ 32
      → count_copyable (list_of (Shape.height_one ls) (32 * length ls + n) tail_len tail)
        ≡ done (0, 1)
  unfolding count_copyable list_of
  count_height_one_full ls h = ground (arith, nodes_length-leaves ls)

  pub count_height_two :
      (a b : List (List ℕ))
      → 1 ≤ length b
      → length b < 32
      → count_copyable (list_of (Shape.height_two a b) (32 * (32 + length b) + n) tail_len tail)
        ≡ done (2, 2)
  unfolding count_copyable list_of
  count_height_two a b one h = ground (arith, nodes_length-leaves b)

  pub count_height_two_full :
      (a b : List (List ℕ))
      → length b ≡ 32
      → count_copyable (list_of (Shape.height_two a b) (32 * (32 + length b) + n) tail_len tail)
        ≡ fault
  unfolding count_copyable list_of
  count_height_two_full a b h = ground (arith, nodes_length-leaves b)
