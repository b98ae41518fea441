-- ===== src/Gc/Copy.antt =====
-- `copy` of vm/src/alloc.c: a term and all that it refers to, once each, with enough fuel.
use owlang.Base.{
  ℕ, zero, suc, ◌+◌, ◌/◌, ◌<◌, ◌≤◌, ◌≡◌, ◌≢◌, inl, inr, refl, sym, subst, arith, true, false, some,
  [], ◌∷◌, All, All-map, ◌==◌,
}
use owlang.Base.Outcome.{Outcome, done, bind}
use owlang.World.{World}
use owlang.Term.{owl_extract_ptr, owl_tag_of, owl_tag_with}
use owlang.Vm.{Vm, Op, Object}
use owlang.Vm.Memory.{load, store}
use owlang.Gc.{
  on_heap, object_size, copied_object, has_tag, points_at_block, heap_object, forward, copy_block,
  copy,
}
use owlang.Gc.Relocate.{refs, in_heap, moved, IsSettled, map_refs}
use owlang.Gc.Space.{
  Snapshot, IsWhole, IsGood, IsLiveHeap, IsCopying, Extends-mono, Copies, stops, goes, goes_here,
  IsTight,
}
use owlang.Gc.Refs.{Placed, copy_refs-Copies}
use owlang.Gc.Block.{with_block, forwarded, move_block_lem, not_null, with_block-IsCopying}
use owlang.Gc.Forward.{
  refs-copied_object, forwarded-IsCopying, forwarded-Extends, forwarded-Pays, forwards-forwarded,
}
use owlang.Gc.Prices.{prices-split, prices_mono, prices-Member}

heap_object-has_tag :
    {w : World} (tag : ℕ) (object : Object) (vm : Vm w)
    → IsWhole object
    → has_tag tag object ≡ true
    → heap_object tag (some object) vm ≡ done (object, vm)
unfolding heap_object
heap_object-has_tag tag (Object.tuple xs) vm ok e = ground arith
heap_object-has_tag tag (Object.string bytes) vm ok e = ground arith
heap_object-has_tag tag (Object.unterminated bytes) vm ok e = absurd ok
heap_object-has_tag tag (Object.function f) vm ok e = ground arith
heap_object-has_tag tag (Object.list r) vm ok e = ground arith

points_at_block-has_tag :
    (tag : ℕ) (object : Object) → has_tag tag object ≡ true → points_at_block tag ≡ true
unfolding has_tag points_at_block
points_at_block-has_tag tag (Object.tuple xs) e = ground arith
points_at_block-has_tag tag (Object.string bytes) e = ground arith
points_at_block-has_tag tag (Object.unterminated bytes) e = ground arith
points_at_block-has_tag tag (Object.function f) e = ground arith
points_at_block-has_tag tag (Object.list r) e = ground arith

module _ {w : World} (vm₀ : Vm w) (s : Snapshot) (h : IsLiveHeap vm₀ s) where
  in_heap-live : (p : ℕ) → s.live p → in_heap vm₀.gc p ≡ true
  in_heap-live p l = ground (arith, h.within p l)

  on_heap-in_heap : (vm : Vm w) (p : ℕ) → IsCopying vm₀ s vm → on_heap vm.gc p ≡ in_heap vm₀.gc p
  unfolding on_heap
  on_heap-in_heap vm p c = rw (c.from_space, c.size) refl

  -- The end of `copy_block`, `r` being what comes of copying the references.
  finish-Copies :
      (term : ℕ) (l : s.live (owl_extract_ptr term)) (vm : Vm w) (c : IsCopying vm₀ s vm)
      (waiting : vm.forwards (owl_extract_ptr term) ≡ 0)
      (fits : vm.gc.alloc_ptr + object_size (s.content (owl_extract_ptr term))
        ≤ vm.gc.to_space + vm.gc.size / 2)
      (r : Outcome (Object × Vm w))
      → Copies vm₀ s
          (s.rank (owl_extract_ptr term))
          (with_block (s.content (owl_extract_ptr term)) vm)
          (Placed vm₀ s
            (refs (copied_object (s.content (owl_extract_ptr term))))
            (λ f. map_refs f (copied_object (s.content (owl_extract_ptr term)))))
          r
      → Copies vm₀ s
          (s.rank (owl_extract_ptr term) + 1)
          vm
          (Placed vm₀ s (term ∷ []) (λ f. f term))
          (bind r λ (object, vm₂). done (
            owl_tag_with (vm.gc.alloc_ptr + 1) (owl_tag_of term),
            forwarded (owl_extract_ptr term) (vm.gc.alloc_ptr + 1) object vm₂,
          ))
  unfolding moved
  finish-Copies term l vm c waiting fits r (stops tight) =
      let p = owl_extract_ptr term in
      stops (omega (arith, prices-Member s vm.forwards p s.addresses waiting (h.listed p l)))
  finish-Copies term l vm c waiting fits r (goes {a} {vm'} c₂ e₂ paid f g (is, settled)) =
      let p = owl_extract_ptr term in
      let settled' =
        subst (All (IsSettled vm₀.gc vm'.forwards)) (refs-copied_object (s.content p)) settled in
      let at = forwards-forwarded vm₀ s h p l vm c waiting fits vm' c₂ e₂ a is settled' in
      let set = forwarded-IsCopying vm₀ s h p l vm c waiting fits vm' c₂ e₂ a is settled' in
      let far = forwarded-Extends vm₀ s h p l vm c waiting fits vm' c₂ e₂ a is settled' in
      let bought = forwarded-Pays vm₀ s h p l vm c waiting fits vm' c₂ e₂ a is settled' paid in
      goes set far bought f g (rw (in_heap-live p l, at) refl, (inr (λ z. omega (arith, at)), tt))

  -- `copy` does this for terms that are nested less than `n` deep.
  abbrev CopiesBelow : ℕ → (ℕ → Op w ℕ) → Type 0
  CopiesBelow n copy =
      (x : ℕ) (vm : Vm w)
      → IsGood vm₀.gc s n x
      → IsCopying vm₀ s vm
      → Copies vm₀ s n vm (Placed vm₀ s (x ∷ []) (λ f. f x)) (copy x vm)

  pub no_null : s.live 0 → ⊥
  no_null l = not_null vm₀ s h 0 l refl

  IsGood-refs :
      (p : ℕ) → s.live p → All (IsGood vm₀.gc s (s.rank p)) (refs (copied_object (s.content p)))
  IsGood-refs p l =
      subst (All (IsGood vm₀.gc s (s.rank p))) (sym (refs-copied_object (s.content p)))
        (h.closed p l)

  load-live :
      (p : ℕ) (vm : Vm w)
      → s.live p
      → vm.objects p ≡ some (s.content p)
      → load p vm ≡ some (s.content p)
  unfolding load
  load-live p vm l e = let set : (p == 0) ≡ false = ground (arith, not_null vm₀ s h p l) in rw set e

  -- There is no room for one more object.
  IsTight-at :
      (p : ℕ)
      → s.live p
      → (vm : Vm w) → IsCopying vm₀ s vm
      → vm.forwards p ≡ 0
      → vm.gc.to_space + vm.gc.size / 2 < vm.gc.alloc_ptr + object_size (s.content p)
      → IsTight vm₀ s (s.rank p + 1) vm
  IsTight-at p l vm c waiting full =
      let full' : vm₀.gc.to_space + vm₀.gc.size / 2 < vm.gc.alloc_ptr + object_size (s.content p) =
        rw (c.to_space, c.size) at full in
      omega (arith, full', prices-Member s vm.forwards p s.addresses waiting (h.listed p l))

  copy_block-Copies :
      (copy : ℕ → Op w ℕ) (term : ℕ) (l : s.live (owl_extract_ptr term))
      → CopiesBelow (s.rank (owl_extract_ptr term)) copy
      → has_tag (owl_tag_of term) (s.content (owl_extract_ptr term)) ≡ true
      → (vm : Vm w) → IsCopying vm₀ s vm
      → vm.forwards (owl_extract_ptr term) ≡ 0
      → vm.objects (owl_extract_ptr term) ≡ some (s.content (owl_extract_ptr term))
      → Copies vm₀ s
          (s.rank (owl_extract_ptr term) + 1)
          vm
          (Placed vm₀ s (term ∷ []) (λ f. f term))
          (copy_block copy term vm)
  unfolding copy_block store forward
  copy_block-Copies copy term l below tag vm c waiting holds =
      let p = owl_extract_ptr term in
      let there = load-live p vm l holds in
      let read = heap_object-has_tag (owl_tag_of term) (s.content p) vm (h.whole p l) tag in
      let sized : (object_size (s.content p) == 0) ≡ false = ground (arith, h.sized p l) in
      elim (move_block_lem (s.content p) vm) [
        | inl (full, dies) ↦
            rw (there, read, sized, dies) (stops (IsTight-at p l vm c waiting full))
        | inr (fits, moves) ↦
            rw (there, read, sized, moves)
              (finish-Copies term l vm c waiting fits _ (
                copy_refs-Copies vm₀ s no_null (s.rank p) copy below (copied_object (s.content p))
                  (with_block (s.content p) vm) (IsGood-refs p l)
                  (with_block-IsCopying vm₀ s h (s.content p) vm c (h.sized p l) fits)))
      ]

  Copies-mono :
      {A : Type 0} {n m : ℕ} {vm : Vm w} {P : A → Vm w → Type 0} {r : Outcome (A × Vm w)}
      → n ≤ m
      → Copies vm₀ s n vm P r
      → Copies vm₀ s m vm P r
  Copies-mono {n = n} {m = m} {vm = vm} le (stops tight) =
      stops (omega (arith, prices_mono s n m vm.forwards s.addresses le))
  Copies-mono {n = n} {m = m} {vm = vm} le (goes {vm' = vm'} c e paid f g good) =
      let split = prices-split s n m vm.forwards vm'.forwards s.addresses le (
        All-map s.live (λ q. n ≤ s.rank q → vm'.forwards q ≡ vm.forwards q)
          (λ q l deep. (e.later q l deep).0) s.addresses h.alive) in
      goes c (Extends-mono vm₀ s le e) (omega (arith, split)) f g good

  -- A term that has been copied before is given its new address.
  forwarded-Copies :
      (n term : ℕ) (vm : Vm w)
      → in_heap vm₀.gc (owl_extract_ptr term) ≡ true
      → IsCopying vm₀ s vm
      → vm.forwards (owl_extract_ptr term) ≢ 0
      → Copies vm₀ s n vm
          (Placed vm₀ s (term ∷ []) (λ f. f term))
          (done (owl_tag_with (vm.forwards (owl_extract_ptr term)) (owl_tag_of term), vm))
  unfolding moved
  forwarded-Copies n term vm inside c marked = goes_here vm₀ s c (rw inside refl, (inr marked, tt))

  unmoved-Copies :
      (n term : ℕ) (vm : Vm w)
      → in_heap vm₀.gc (owl_extract_ptr term) ≡ false
      → IsCopying vm₀ s vm
      → Copies vm₀ s n vm (Placed vm₀ s (term ∷ []) (λ f. f term)) (done (term, vm))
  unfolding moved
  unmoved-Copies n term vm outside c = goes_here vm₀ s c (rw outside refl, (inl outside, tt))

  -- With fuel for the depth of the term.
  pub copy-Copies : (fuel n : ℕ) → n < fuel → CopiesBelow n (copy fuel)
  unfolding copy
  copy-Copies zero n deep x vm good c = absurd (omega arith)
  copy-Copies (suc fuel) n deep x vm (inl outside) c =
      rw (on_heap-in_heap vm (owl_extract_ptr x) c, outside) (unmoved-Copies n x vm outside c)
  copy-Copies (suc fuel) n deep x vm (inr (l, less, tag)) c =
      let p = owl_extract_ptr x in
      let inside = in_heap-live p l in
      let block = points_at_block-has_tag (owl_tag_of x) (s.content p) tag in
      elim (c.each p l) [
        | inl m ↦
            let zero : (vm.forwards p == 0) ≡ true = ground (arith, m.unmarked) in
            rw (on_heap-in_heap vm p c, inside, block, zero)
              (Copies-mono (omega arith) (
                copy_block-Copies (copy fuel) x l (copy-Copies fuel (s.rank p) (omega arith)) tag vm
                  c m.unmarked m.holds))
        | inr m ↦
            let set : (vm.forwards p == 0) ≡ false = ground (arith, m.marked) in
            rw (on_heap-in_heap vm p c, inside, block, set)
              (forwarded-Copies n x vm inside c (λ z. omega (arith, m.marked)))
      ]
