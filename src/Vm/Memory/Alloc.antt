-- ===== src/Vm/Memory/Alloc.antt =====
-- What `owl_alloc` of vm/src/alloc.c promises.
use owlang.Base.{
  ℕ, ◌+◌, ◌/◌, ◌%◌, ◌^◌, ◌≤◌, ◌<◌, ◌≡◌, ◌⊎◌, inl, inr, refl, arith, Bool, true, false, ltb,
}
use owlang.Base.Outcome.{done, exited}
use owlang.World.{World}
use owlang.Vm.{Vm, update}
use owlang.Vm.Memory.{align, owl_alloc}

-- `align` gives the next multiple of 8.
align_lem : (n : ℕ) → n + 8 ≤ 2 ^ 32 → (align n % 8 ≡ 0) × (n ≤ align n) × (align n < n + 8)
unfolding align
align_lem n h = ground arith

module _ {w : World} (n : ℕ) (vm : Vm w) where
  -- A block of `n` bytes between the old and the new `alloc_ptr`, in the half of the heap in use.
  abbrev pub BlockAt : ℕ → Vm w → Type 0
  BlockAt ptr vm' =
      (vm.gc.alloc_ptr < ptr)
      × (ptr + n ≤ vm'.gc.alloc_ptr)
      × (vm'.gc.alloc_ptr ≤ vm'.gc.to_space + vm'.gc.size / 2)
      × (vm'.forwards ptr ≡ 0)
      × (vm'.objects ≡ vm.objects)

  abbrev allocated : Vm w
  allocated =
      let block_size = (align n + 1) % 2 ^ 32 in
      record vm {
        gc = record (vm.gc) { alloc_ptr = vm.gc.alloc_ptr + block_size };
        forwards = update vm.forwards (vm.gc.alloc_ptr + 1) 0;
        bytes_allocated = (vm.bytes_allocated + block_size) % 2 ^ 64;
      }

  -- A request of `n` bytes ends the process only where less than `n` + 8 bytes are left. Else it gives a
  -- block of at least `n` bytes behind everything allocated before and inside the half of the heap
  -- that is in use, with its forward flag clear, and no object is changed.
  pub owl_alloc_lem :
      n + 8 < 2 ^ 32
      → ((owl_alloc n vm ≡ exited 1) × (vm.gc.to_space + vm.gc.size / 2 < vm.gc.alloc_ptr + n + 8))
        ⊎ ((ptr : ℕ) × (vm' : Vm w) × (owl_alloc n vm ≡ done (ptr, vm')) × BlockAt ptr vm')
  unfolding owl_alloc
  owl_alloc_lem small = by_room _ refl
    where
      room : vm.gc.alloc_ptr + (align n + 1) % 2 ^ 32 ≤ vm.gc.alloc_ptr + n + 8
      room = omega (arith, align_lem n)

      by_room :
          (full : Bool)
          → ltb (vm.gc.to_space + vm.gc.size / 2) (vm.gc.alloc_ptr + (align n + 1) % 2 ^ 32) ≡ full
          → ((owl_alloc n vm ≡ exited 1)
              × (vm.gc.to_space + vm.gc.size / 2 < vm.gc.alloc_ptr + n + 8))
            ⊎ ((ptr : ℕ) × (vm' : Vm w) × (owl_alloc n vm ≡ done (ptr, vm')) × BlockAt ptr vm')
      by_room true full = inl (rw full refl, ground (arith, room))
      by_room false fits = inr (
        vm.gc.alloc_ptr + 1,
        allocated,
        rw fits refl,
        (omega arith, omega (arith, align_lem n), ground arith, ground arith, refl),
      )
