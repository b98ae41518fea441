-- ===== src/Gc/Block.antt =====
-- `copy` of vm/src/alloc.c at an object that has not been moved: its new block, and the forward
-- address in the old one.
use owlang.Base.{
  ℕ, ◌+◌, ◌/◌, ◌<◌, ◌≤◌, ◌≡◌, ◌≢◌, ◌⊎◌, inl, inr, refl, subst, ◌∙◌, arith, true, false, Bool-cases,
  none, some, ltb, ◌==◌,
}
use owlang.Base.Outcome.{done, exited}
use owlang.World.{World}
use owlang.Vm.{Vm, Object, update}
use owlang.Gc.{object_size, copied_object, move_block}
use owlang.Gc.Relocate.{moved}
use owlang.Gc.Space.{Snapshot, IsLiveHeap, IsMoved, IsCopying, Extends}

module _ {w : World} where
  -- `move_block` leaves this machine.
  abbrev pub with_block : Object → Vm w → Vm w
  with_block object vm = record vm {
    gc = record (vm.gc) { alloc_ptr = vm.gc.alloc_ptr + object_size object + 1 };
    objects = update vm.objects (vm.gc.alloc_ptr + 1) (some (copied_object object));
  }

  pub move_block_lem :
      (object : Object) (vm : Vm w)
      → ((vm.gc.to_space + vm.gc.size / 2 < vm.gc.alloc_ptr + object_size object)
          × (move_block object vm ≡ exited 1))
        ⊎ ((vm.gc.alloc_ptr + object_size object ≤ vm.gc.to_space + vm.gc.size / 2)
            × (move_block object vm ≡ done (vm.gc.alloc_ptr + 1, with_block object vm)))
  unfolding move_block
  move_block_lem object vm =
      elim (Bool-cases
        (ltb (vm.gc.to_space + vm.gc.size / 2) (vm.gc.alloc_ptr + object_size object))) [
          | inl full ↦ inl (ground arith, rw full refl)
          | inr fits ↦ inr (ground arith, rw fits refl)
        ]

  -- The object at its new place gets its references, and the old block its forward address.
  abbrev pub forwarded : ℕ → ℕ → Object → Vm w → Vm w
  forwarded p new object vm = record vm {
    forwards = update (update vm.forwards new 0) p new;
    objects = update (update vm.objects new (some object)) p none;
  }

pub update_other {ℓ} :
    {A : Type ℓ} (f : ℕ → A) (i : ℕ) (v : A) (j : ℕ) → j ≢ i → update f i v j ≡ f j
update_other f i v j h = let other : (j == i) ≡ false = ground arith in rw other refl

pub update_same {ℓ} : {A : Type ℓ} (f : ℕ → A) (i : ℕ) (v : A) → update f i v i ≡ v
update_same f i v = let same : (i == i) ≡ true = ground arith in rw same refl

module _ {w : World} (vm₀ : Vm w) (s : Snapshot) (h : IsLiveHeap vm₀ s) where
  -- Nothing in use is in the half that is copied to.
  pub not_live :
      (q : ℕ) → vm₀.gc.to_space < q → q ≤ vm₀.gc.to_space + vm₀.gc.size / 2 → s.live q → ⊥
  not_live q low high l = elim h.apart [
    | inl before ↦ omega (arith, h.within q l)
    | inr behind ↦ omega (arith, h.within q l)
  ]

  pub not_null : (p : ℕ) → s.live p → p ≢ 0
  not_null p l e = omega (arith, h.within p l)

  pub marked-IsMoved :
      {vm : Vm w} (p : ℕ) → IsCopying vm₀ s vm → s.live p → vm.forwards p ≢ 0 → IsMoved vm₀ s vm p
  marked-IsMoved p c l marked = elim (c.each p l) [
    | inl waiting ↦ absurd (marked waiting.unmarked)
    | inr moved ↦ moved
  ]

  module _ (object : Object) (vm : Vm w) (c : IsCopying vm₀ s vm) (sized : 0 < object_size object)
      (fits : vm.gc.alloc_ptr + object_size object ≤ vm.gc.to_space + vm.gc.size / 2) where
    -- the bound on the new block, in the terms of the first machine
    pub room : vm.gc.alloc_ptr + object_size object ≤ vm₀.gc.to_space + vm₀.gc.size / 2
    room = rw (c.to_space, c.size) at fits

    pub new_dead : s.live (vm.gc.alloc_ptr + 1) → ⊥
    new_dead = not_live (vm.gc.alloc_ptr + 1) (omega (arith, c.above)) (omega (arith, room))

    block_other :
        (p : ℕ) → p ≢ vm.gc.alloc_ptr + 1 → (with_block object vm).objects p ≡ vm.objects p
    block_other p other = update_other vm.objects (vm.gc.alloc_ptr + 1) _ p other

    live_other : (p : ℕ) → s.live p → p ≢ vm.gc.alloc_ptr + 1
    live_other p l e = new_dead (subst s.live e l)

    pub with_block-IsCopying : IsCopying vm₀ s (with_block object vm)
    with_block-IsCopying = record {
      to_space = c.to_space;
      from_space = c.from_space;
      size = c.size;
      above = omega (arith, c.above);
      each = λ p l. elim (c.each p l) [
        | inl waiting ↦ inl (record {
          unmarked = waiting.unmarked;
          holds = block_other p (live_other p l) ∙ waiting.holds;
        })
        | inr m ↦ inr (record {
          marked = m.marked;
          placed = omega (arith, m.placed);
          inside = m.inside;
          holds = block_other (vm.forwards p) (λ e. omega (arith, m.placed)) ∙ m.holds;
          settled = m.settled;
        })
      ];
      injective = c.injective;
    }

    pub with_block-Extends : (n : ℕ) → Extends vm₀ s n vm (with_block object vm)
    with_block-Extends n = record {
      grows = omega arith;
      stays = λ p _ _. refl;
      later = λ p l _. (refl, block_other p (live_other p l));
      beyond = λ p _ e. inl e;
      kept = λ q dead at.
          block_other q (λ e. elim at [ inl low ↦ omega arith | inr high ↦ omega (arith, room) ]);
    }
