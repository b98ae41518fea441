-- ===== src/Gc/Forward.antt =====
-- The end of `copy` in vm/src/alloc.c: the references are written to the new block, and the forward
-- address to the old one.
use owlang.Base.{
  ℕ, ◌+◌, ◌/◌, ◌<◌, ◌≤◌, ◌≡◌, ◌≢◌, ◌⊎◌, inl, inr, refl, sym, subst, ◌∙◌, ap, arith, Bool-cases,
  ==_iff, none, some, All, All-map, ◌==◌,
}
use owlang.World.{World}
use owlang.Vm.{Vm, Object, update}
use owlang.Gc.{object_size, copied_object}
use owlang.Gc.Relocate.{refs, map_refs, map_refs-agree, moved, IsSettled}
use owlang.Gc.Space.{
  Snapshot, IsLiveHeap, IsWaiting, IsMoved, IsCopying, Extends, Extends-trans, Pays,
}
use owlang.Gc.Prices.{prices-split, prices-paid}
use owlang.Gc.Refs.{Stays, All-later}
use owlang.Gc.Block.{
  with_block, forwarded, update_other, update_same, not_live, marked-IsMoved, new_dead, room,
  with_block-Extends,
}

pub refs-copied_object : (object : Object) → refs (copied_object object) ≡ refs object
unfolding copied_object refs
refs-copied_object (Object.tuple xs) = refl
refs-copied_object (Object.string bytes) = ground arith
refs-copied_object (Object.unterminated bytes) = refl
refs-copied_object (Object.function f) = refl
refs-copied_object (Object.list r) = refl

-- The object at `p` has been given its block, and its references have been copied, which has led from
-- `with_block object vm` to `vm₂`.
module _ {w : World} (vm₀ : Vm w) (s : Snapshot) (h : IsLiveHeap vm₀ s) (p : ℕ) (l : s.live p)
    (vm : Vm w) (c : IsCopying vm₀ s vm) (waiting : vm.forwards p ≡ 0)
    (fits : vm.gc.alloc_ptr + object_size (s.content p) ≤ vm.gc.to_space + vm.gc.size / 2)
    (vm₂ : Vm w) (c₂ : IsCopying vm₀ s vm₂)
    (e₂ : Extends vm₀ s (s.rank p) (with_block (s.content p) vm) vm₂) where
  new : ℕ
  new = vm.gc.alloc_ptr + 1

  below : vm.gc.alloc_ptr + object_size (s.content p) ≤ vm₀.gc.to_space + vm₀.gc.size / 2
  below = room vm₀ s h (s.content p) vm c (h.sized p l) fits

  e₀₂ : Extends vm₀ s (s.rank p) vm vm₂
  e₀₂ =
      Extends-trans vm₀ s
        (with_block-Extends vm₀ s h (s.content p) vm c (h.sized p l) fits (s.rank p)) e₂

  unmarked : vm₂.forwards p ≡ 0
  unmarked = (e₀₂.later p l (omega arith)).0 ∙ waiting

  dead : s.live new → ⊥
  unfolding new
  dead = new_dead vm₀ s h (s.content p) vm c (h.sized p l) fits

  -- No other object has been moved to the new block.
  not_new : (q : ℕ) → s.live q → vm₂.forwards q ≢ new
  unfolding new
  not_new q k e = elim (Bool-cases (vm.forwards q == 0)) [
    | inl zero ↦ elim (e₂.beyond q k (ground arith)) [ inl z ↦ omega arith | inr far ↦ omega arith ]
    | inr marked ↦
        let nonzero : vm.forwards q ≢ 0 = λ z. ground arith in
        omega (arith, e₀₂.stays q k nonzero, (marked-IsMoved vm₀ s h q c k nonzero).placed)
  ]

  module _ (object : Object)
      (is : object ≡ map_refs (moved vm₀.gc vm₂.forwards) (copied_object (s.content p)))
      (settled : All (IsSettled vm₀.gc vm₂.forwards) (refs (s.content p))) where
    vm₃ : Vm w
    vm₃ = forwarded p new object vm₂

    forwards_other : (q : ℕ) → s.live q → q ≢ p → vm₃.forwards q ≡ vm₂.forwards q
    unfolding vm₃
    forwards_other q k other =
        update_other (update vm₂.forwards new 0) p new q other
        ∙ update_other vm₂.forwards new 0 q (λ e. dead (subst s.live e k))

    objects_other : (q : ℕ) → q ≢ p → q ≢ new → vm₃.objects q ≡ vm₂.objects q
    unfolding vm₃
    objects_other q other old =
        update_other (update vm₂.objects new (some object)) p none q other
        ∙ update_other vm₂.objects new (some object) q old

    forwards_here : vm₃.forwards p ≡ new
    unfolding vm₃
    forwards_here = update_same (update vm₂.forwards new 0) p new

    objects_here : vm₃.objects new ≡ some object
    unfolding vm₃
    objects_here =
        update_other (update vm₂.objects new (some object)) p none new
          (λ e. dead (subst s.live (sym e) l))
        ∙ update_same vm₂.objects new (some object)

    stays : Stays vm₀ s vm₂.forwards vm₃.forwards
    stays q k marked = forwards_other q k (λ e. marked (ap vm₂.forwards e ∙ unmarked))

    -- References that have been copied are what they were.
    same_refs :
        (q : ℕ)
        → s.live q
        → All (IsSettled vm₀.gc vm₂.forwards) (refs (s.content q))
        → All (IsSettled vm₀.gc vm₃.forwards) (refs (s.content q))
          × (map_refs (moved vm₀.gc vm₃.forwards) (copied_object (s.content q))
              ≡ map_refs (moved vm₀.gc vm₂.forwards) (copied_object (s.content q)))
    same_refs q k done =
        let (kept, agree) =
          All-later vm₀ s (s.rank q) vm₂.forwards vm₃.forwards (refs (s.content q)) stays
            (h.closed q k) done in
        (
          kept,
          map_refs-agree _ _ (copied_object (s.content q))
              (rw (refs-copied_object (s.content q)) agree),
        )

    here-IsMoved : IsMoved vm₀ s vm₃ p
    unfolding new vm₃
    here-IsMoved =
        let (kept, same) = same_refs p l settled in
        record {
          marked = omega (arith, forwards_here, c.above);
          placed = omega (arith, forwards_here, e₀₂.grows, e₂.grows, grown);
          inside = omega (arith, forwards_here, below, h.sized p l);
          holds = ap vm₃.objects forwards_here ∙ objects_here ∙ ap some (is ∙ sym same);
          settled = kept;
        }
      where
        grown : vm₃.gc.alloc_ptr ≡ vm₂.gc.alloc_ptr
        grown = refl

    -- Another object that has been moved stays where it is.
    other-IsMoved : (q : ℕ) → s.live q → q ≢ p → IsMoved vm₀ s vm₂ q → IsMoved vm₀ s vm₃ q
    unfolding vm₃
    other-IsMoved q k other m =
        let (kept, same) = same_refs q k m.settled in
        let at = forwards_other q k other in
        record {
          marked = omega (arith, at, m.marked);
          placed = omega (arith, at, m.placed);
          inside = omega (arith, at, m.inside);
          holds =
              ap vm₃.objects at
              ∙ objects_other (vm₂.forwards q)
                  (λ e. not_live vm₀ s h p (omega (arith, m.marked)) (omega (arith, m.inside)) l)
                  (not_new q k)
              ∙ m.holds
              ∙ ap some (sym same);
          settled = kept;
        }

    other-IsWaiting : (q : ℕ) → s.live q → q ≢ p → IsWaiting vm₀ s vm₂ q → IsWaiting vm₀ s vm₃ q
    other-IsWaiting q k other m = record {
      unmarked = forwards_other q k other ∙ m.unmarked;
      holds = objects_other q other (λ e. dead (subst s.live e k)) ∙ m.holds;
    }

    each_other : (q : ℕ) → s.live q → q ≢ p → IsWaiting vm₀ s vm₃ q ⊎ IsMoved vm₀ s vm₃ q
    each_other q k other = elim (c₂.each q k) [
      | inl m ↦ inl (other-IsWaiting q k other m)
      | inr m ↦ inr (other-IsMoved q k other m)
    ]

    each_after : (q : ℕ) → s.live q → IsWaiting vm₀ s vm₃ q ⊎ IsMoved vm₀ s vm₃ q
    each_after q k = elim (Bool-cases (q == p)) [
      | inl same ↦ inr (subst (IsMoved vm₀ s vm₃) (sym ((==_iff q p).0 same)) here-IsMoved)
      | inr other ↦ each_other q k (λ e. ground arith)
    ]

    -- The forward address of `p` is no other object's.
    only_here : (q : ℕ) → s.live q → vm₃.forwards q ≡ new → q ≡ p
    only_here q k e = elim (Bool-cases (q == p)) [
      | inl same ↦ (==_iff q p).0 same
      | inr other ↦ absurd (not_new q k (sym (forwards_other q k (λ e. ground arith)) ∙ e))
    ]

    injective_after :
        (q r : ℕ)
        → s.live q
        → s.live r
        → vm₃.forwards q ≢ 0
        → vm₃.forwards q ≡ vm₃.forwards r
        → q ≡ r
    injective_after q r k m marked e = elim (Bool-cases (q == p)) [
      | inl at ↦
          let here = (==_iff q p).0 at in
          here ∙ sym (only_here r m (sym e ∙ ap vm₃.forwards here ∙ forwards_here))
      | inr off ↦ elim (Bool-cases (r == p)) [
        | inl at ↦
            let here = (==_iff r p).0 at in
            only_here q k (e ∙ ap vm₃.forwards here ∙ forwards_here) ∙ sym here
        | inr off' ↦
            let left = forwards_other q k (λ i. ground arith) in
            let right = forwards_other r m (λ i. ground arith) in
            c₂.injective q r k m (λ z. marked (left ∙ z)) (sym left ∙ e ∙ right)
      ]
    ]

    pub forwarded-IsCopying : IsCopying vm₀ s (forwarded p (vm.gc.alloc_ptr + 1) object vm₂)
    unfolding vm₃ new
    forwarded-IsCopying = record {
      to_space = c₂.to_space;
      from_space = c₂.from_space;
      size = c₂.size;
      above = c₂.above;
      each = each_after;
      injective = injective_after;
    }

    beyond_after :
        (q : ℕ)
        → s.live q
        → vm.forwards q ≡ 0
        → (vm₃.forwards q ≡ 0) ⊎ (vm.gc.alloc_ptr < vm₃.forwards q)
    unfolding new
    beyond_after q k e = elim (Bool-cases (q == p)) [
      | inl at ↦ inr (omega (arith, ap vm₃.forwards ((==_iff q p).0 at) ∙ forwards_here))
      | inr off ↦
          let same = forwards_other q k (λ i. ground arith) in
          elim (e₀₂.beyond q k e) [
            | inl zero ↦ inl (same ∙ zero)
            | inr far ↦ inr (omega (arith, same))
          ]
    ]

    pub forwarded-Extends :
        Extends vm₀ s (s.rank p + 1) vm (forwarded p (vm.gc.alloc_ptr + 1) object vm₂)
    unfolding vm₃ new
    forwarded-Extends = record {
      grows = e₀₂.grows;
      stays = λ q k marked.
          let before = e₀₂.stays q k marked in
          forwards_other q k (λ e. marked (ap vm.forwards e ∙ waiting)) ∙ before;
      later = λ q k deep.
          let off : q ≢ p = λ e. omega (arith, ap s.rank e) in
          let (f, o) = e₀₂.later q k (omega arith) in
          (forwards_other q k off ∙ f, objects_other q off (λ e. dead (subst s.live e k)) ∙ o);
      beyond = beyond_after;
      kept = λ q out at.
          objects_other q (λ e. out (subst s.live (sym e) l))
            (λ e. elim at [ inl low ↦ omega arith | inr high ↦ omega (arith, below, h.sized p l) ])
          ∙ e₀₂.kept q out at;
    }

    pub forwards-forwarded :
        (forwarded p (vm.gc.alloc_ptr + 1) object vm₂).forwards p ≡ vm.gc.alloc_ptr + 1
    unfolding vm₃ new
    forwards-forwarded = forwards_here

    -- The block has been paid for.
    pub forwarded-Pays :
        Pays vm₀ s (s.rank p) (with_block (s.content p) vm) vm₂
        → Pays vm₀ s (s.rank p + 1) vm (forwarded p (vm.gc.alloc_ptr + 1) object vm₂)
    unfolding vm₃ new
    forwarded-Pays paid =
        let k = s.rank p in
        let ps = s.addresses in
        let split = prices-split s k (k + 1) vm.forwards vm₂.forwards ps (omega arith) (
          All-map s.live (λ q. k ≤ s.rank q → vm₂.forwards q ≡ vm.forwards q)
            (λ q m deep. (e₀₂.later q m deep).0) ps h.alive) in
        let bought =
          prices-paid s (k + 1) vm₂.forwards vm₃.forwards p unmarked
            (λ z. omega (arith, forwards_here)) ps (omega arith) (h.listed p l)
            (All-map s.live (λ q. q ≢ p → vm₃.forwards q ≡ vm₂.forwards q) forwards_other ps
              h.alive) in
        omega (arith, split, bought)
