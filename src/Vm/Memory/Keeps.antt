-- ===== src/Vm/Memory/Keeps.antt =====
-- What the allocation of vm/src/alloc.c keeps, for the other operations.
use owlang.Base.{ℕ, ◌+◌, ◌/◌, ◌%◌, ◌^◌, ◌≡◌, refl, arith, List, [], ◌∷◌, Bool, true, false, ltb}
use owlang.World.{World}
use owlang.Vm.{Vm, Object}
use owlang.Vm.Memory.{align, owl_alloc, owl_alloc_all, store, alloc_object}
use owlang.Vm.Keeps.{Leaves, Keeps, bind-Keeps, pure-Keeps}
use owlang.Vm.Stable.{Stable}

module _ {w : World} {P : Vm w → Type 0} (s : Stable P) where
  owl_alloc-Leaves : (n : ℕ) (vm : Vm w) → P vm → Leaves P (owl_alloc n vm)
  unfolding owl_alloc
  owl_alloc-Leaves n vm h = by_room _ refl
    where
      by_room :
          (full : Bool)
          → ltb (vm.gc.to_space + vm.gc.size / 2) (vm.gc.alloc_ptr + (align n + 1) % 2 ^ 32) ≡ full
          → Leaves P (owl_alloc n vm)
      by_room true full = rw full tt
      by_room false fits = rw fits (s.allocate vm ((align n + 1) % 2 ^ 32) (ground arith) h)

  pub owl_alloc-Keeps : (n : ℕ) → Keeps P (owl_alloc n)
  owl_alloc-Keeps n = record { at = owl_alloc-Leaves n }

  pub owl_alloc_all-Keeps : (ns : List ℕ) → Keeps P (owl_alloc_all ns)
  unfolding owl_alloc_all
  owl_alloc_all-Keeps [] = pure-Keeps tt
  owl_alloc_all-Keeps (n ∷ ns) = bind-Keeps (owl_alloc-Keeps n) λ _. owl_alloc_all-Keeps ns

  pub store-Keeps : (ptr : ℕ) (object : Object) → Keeps P (store ptr object)
  unfolding store
  store-Keeps ptr object = record { at = λ vm h. s.store vm ptr object h }

  pub alloc_object-Keeps : (n : ℕ) (object : Object) → Keeps P (alloc_object n object)
  unfolding alloc_object
  alloc_object-Keeps n object =
      bind-Keeps (owl_alloc-Keeps n) λ ptr. bind-Keeps (store-Keeps ptr object) λ _. pure-Keeps ptr
