-- ===== src/Rrb/Built/Append.antt =====
-- `rrb_push` of vm/src/std/owl_list.c against lists: what is appended, and where it stops.
use owlang.Base.{
  ℕ, ◌+◌, ◌*◌, ◌≤◌, ◌<◌, ◌≡◌, refl, ◌∙◌, sym, List, [], ◌∷◌, ◌++◌, length, arith, length-append,
  append_assoc, append-nil, inl, inr, ltb, Bool-cases, ltb→lt,
}
use owlang.Base.Outcome.{done, fault}
use owlang.Rrb.{Rrb, rrb_create, rrb_count}
use owlang.Rrb.Push.{rrb_push}
use owlang.Rrb.View.{node_list, nodes_list, rrb_list}
use owlang.Rrb.Built.{Shape, Fits, AllFull, leaves, rrb_of, shape_leaves, IsBuilt}
use owlang.Rrb.Built.Push.{
  push_shape, HasRoom, IsAtLimit, push_into_tail, push_full_tail, push_at_limit,
  rrb_list-push_shape, Fits-push_shape, room_or_limit, limit_leaves, room_leaves, bounds,
}

-- The longest list that pushing can build.
abbrev pub push_limit : ℕ
push_limit = 2080

IsBuilt-create : IsBuilt rrb_create
unfolding rrb_of
IsBuilt-create = record {
  shape = Shape.no_root;
  tail = [];
  is_of = refl;
  fits = tt;
  tail_fits = omega arith;
}

pub length-leaves :
    (ls : List (List ℕ)) → AllFull ls → length (nodes_list (leaves ls)) ≡ 32 * length ls
unfolding leaves node_list
length-leaves [] f = refl
length-leaves (l ∷ ls) f = length-append l _ ∙ omega (arith, length-leaves ls f.1)

pub length-shape :
    (s : Shape) (t : List ℕ)
    → Fits s
    → length (rrb_list (rrb_of s t)) ≡ 32 * shape_leaves s + length t
unfolding rrb_list node_list rrb_of shape_leaves
length-shape Shape.no_root t f = omega arith
length-shape (Shape.one_leaf l) t f = length-append l t ∙ omega arith
length-shape (Shape.height_one ls) t f =
    length-append (nodes_list (leaves ls)) t ∙ omega (arith, length-leaves ls f.0)
length-shape (Shape.height_two a b) t f =
    let here = length-leaves a f.0 in
    let there = length-leaves b f.1 in
    let inner = length-append (nodes_list (leaves a)) (nodes_list (leaves b) ++ []) in
    rw (append-nil (nodes_list (leaves b))) (
      length-append (nodes_list (leaves a) ++ nodes_list (leaves b)) t
      ∙ omega
          (arith, length-append {0} (nodes_list (leaves a)) (nodes_list (leaves b)), here, there))

-- `rrb_count` of a tree that pushing builds is the number of its elements.
pub rrb_count-IsBuilt : {r : Rrb} → IsBuilt r → rrb_count r ≡ length (rrb_list r)
unfolding rrb_of
rrb_count-IsBuilt b = rw b.is_of (sym (length-shape b.shape b.tail b.fits))

rrb_list-snoc :
    (s : Shape) (t : List ℕ) (x : ℕ)
    → rrb_list (rrb_of s (t ++ x ∷ [])) ≡ rrb_list (rrb_of s t) ++ x ∷ []
unfolding rrb_list rrb_of
rrb_list-snoc s t x = sym (append_assoc _ t (x ∷ []))

pub room_of_small : (s : Shape) → Fits s → shape_leaves s < 64 → HasRoom s
room_of_small s f h = elim (room_or_limit s f) [
  | inl room ↦ room
  | inr lim ↦ absurd (omega (arith, limit_leaves s lim))
]

limit_of_large : (s : Shape) → Fits s → 64 ≤ shape_leaves s → IsAtLimit s
limit_of_large s f h = elim (room_or_limit s f) [
  | inl room ↦ absurd (omega (arith, room_leaves s f room))
  | inr lim ↦ lim
]

-- Pushing onto the tree `rrb_of s t` below the limit.
push_step :
    (s : Shape) (t : List ℕ) (x : ℕ)
    → Fits s
    → length t ≤ 32
    → 32 * shape_leaves s + length t < push_limit
    → (r' : Rrb) × (rrb_push (rrb_of s t) x ≡ done r')
      × IsBuilt r'
      × (rrb_list r' ≡ rrb_list (rrb_of s t) ++ x ∷ [])
push_step s t x f h small = elim (Bool-cases (ltb (length t) 32)) [
  | inl short ↦ (
    rrb_of s (t ++ x ∷ []),
    push_into_tail t x s (ltb→lt _ _ short) f,
    record {
      shape = s;
      tail = t ++ x ∷ [];
      is_of = refl;
      fits = f;
      tail_fits = ground (arith, length-append t (x ∷ []));
    },
    rrb_list-snoc s t x,
  )
  | inr long ↦
      let full : length t ≡ 32 = ground arith in
      let room : HasRoom s = room_of_small s f (omega arith) in
      (
        rrb_of (push_shape s t) (x ∷ []),
        push_full_tail t x s full f room,
        record {
          shape = push_shape s t;
          tail = x ∷ [];
          is_of = refl;
          fits = Fits-push_shape t x s full f room;
          tail_fits = omega arith;
        },
        rrb_list-push_shape t x s,
      )
]

module _ {r : Rrb} (b : IsBuilt r) (x : ℕ) where
  -- Below 2080 elements a push succeeds, its result is again a tree that pushing builds, and its
  -- elements are the old ones with the new one behind them.
  pub rrb_push-append :
      rrb_count r < push_limit
      → (r' : Rrb) × (rrb_push r x ≡ done r') × IsBuilt r' × (rrb_list r' ≡ rrb_list r ++ x ∷ [])
  unfolding rrb_of
  rrb_push-append small =
      let small' = rw b.is_of at small in
      rw b.is_of (push_step b.shape b.tail x b.fits b.tail_fits small')

  -- At 2080 elements a push reads a child behind the last one of the root.
  pub rrb_push-limit : rrb_count r ≡ push_limit → rrb_push r x ≡ fault
  unfolding rrb_of
  rrb_push-limit e =
      let e' = rw b.is_of at e in
      let many = bounds b.shape b.fits in
      let lim = limit_of_large b.shape b.fits (omega (arith, b.tail_fits)) in
      rw b.is_of (push_at_limit b.tail x b.shape (omega (arith, b.tail_fits)) b.fits lim)
