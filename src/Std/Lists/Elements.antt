-- ===== src/Std/Lists/Elements.antt =====
-- The lists of the language, as operations on terms in vm/src/std/owl_list.c: what they hold.
use owlang.Base.{
  ℕ, ◌+◌, ◌/◌, ◌%◌, ◌^◌, ◌≤◌, ◌<◌, ◌≡◌, ◌≢◌, ◌⊎◌, inl, inr, refl, sym, ◌∙◌, arith, false,
  Bool-cases, some, List, [], ◌∷◌, ◌++◌, ltb, length, get_elem?,
}
use owlang.Base.Outcome.{done, exited}
use owlang.World.{World}
use owlang.Term.{owl_extract_ptr, owl_tag_as, owl_int_from, int_from_owl_int}
use owlang.Rrb.{Rrb, rrb_count}
use owlang.Rrb.View.{rrb_list}
use owlang.Rrb.Built.{IsBuilt}
use owlang.Rrb.Built.Append.{push_limit, rrb_push-append, rrb_count-IsBuilt}
use owlang.Rrb.Built.Nth.{rrb_nth-get_elem?}
use owlang.Vm.{Vm, Object, update}
use owlang.Vm.Memory.{load_rrb, store, align, owl_alloc, owl_alloc_all}
use owlang.Rrb.Push.{rrb_push}
use owlang.Rrb.Memory.{push_bytes}
use owlang.Rrb.Built.Memory.{push_bytes-Few, total_bytes}
use owlang.Std.Lists.{rrb_to_list, owl_list_push, or_nil, owl_list_nth, owl_list_count}

module _ {w : World} where
  -- A term is a list with these elements, built by pushing.
  pub record HoldsList (vm : Vm w) (list : ℕ) (xs : List ℕ) : Type 0 where
    pub rrb : Rrb
    pub loaded : load_rrb (owl_extract_ptr list) vm ≡ done rrb
    pub is_built : IsBuilt rrb
    pub elements : rrb_list rrb ≡ xs

  -- On such a list `owl_list_nth` at an index below 2 ^ 32 is the element there, nil past the end and
  -- for a word 0, and `owl_list_count` the number of elements; neither changes the machine.
  pub owl_list_nth-HoldsList :
      (vm : Vm w) (list index : ℕ) (xs : List ℕ)
      → HoldsList vm list xs
      → int_from_owl_int index < 2 ^ 32
      → (owl_list_nth list index vm ≡ done (or_nil (get_elem? xs (int_from_owl_int index)), vm))
        × (owl_list_count list vm ≡ done (owl_int_from (length xs), vm))
  unfolding owl_list_nth owl_list_count
  owl_list_nth-HoldsList vm list index xs h small =
      let whole : int_from_owl_int index % 2 ^ 32 ≡ int_from_owl_int index = omega arith in
      (
        rw (h.loaded, whole, rrb_nth-get_elem? h.is_built (int_from_owl_int index), h.elements),
        rw (h.loaded, rrb_count-IsBuilt h.is_built, h.elements),
      )

  -- The next block is at an address that a term can hold, and not that of the static empty list.
  pub record HasAddress (vm : Vm w) : Type 0 where
    pub address : vm.gc.alloc_ptr + 1 < 2 ^ 61
    pub not_empty : vm.gc.alloc_ptr + 1 ≢ w.empty_rrb_at

  -- The machine after a call of `owl_alloc` that fits.
  abbrev allocated : ℕ → Vm w → Vm w
  allocated n vm = record vm {
    gc = record (vm.gc) { alloc_ptr = vm.gc.alloc_ptr + (align n + 1) % 2 ^ 32 };
    forwards = update vm.forwards (vm.gc.alloc_ptr + 1) 0;
    bytes_allocated = (vm.bytes_allocated + (align n + 1) % 2 ^ 32) % 2 ^ 64;
  }

  -- Calls of `owl_alloc` that do not fit end the process.
  owl_alloc_all-exits :
      (sizes : List ℕ) (vm : Vm w)
      → vm.gc.alloc_ptr ≤ vm.gc.to_space + vm.gc.size / 2
      → vm.gc.to_space + vm.gc.size / 2 < vm.gc.alloc_ptr + total_bytes sizes
      → owl_alloc_all sizes vm ≡ exited 1
  unfolding owl_alloc_all total_bytes
  owl_alloc_all-exits [] vm low tight = absurd (omega arith)
  owl_alloc_all-exits (n ∷ ns) vm low tight =
      elim (Bool-cases
        (ltb (vm.gc.to_space + vm.gc.size / 2) (vm.gc.alloc_ptr + (align n + 1) % 2 ^ 32))) [
          | inl full ↦ rw full refl
          | inr fits ↦
              rw fits
                (owl_alloc_all-exits ns (allocated n vm) (ground arith) (omega (arith, tight)))
        ]

  -- Calls of `owl_alloc` that fit return, and leave the objects alone.
  owl_alloc_all-fits :
      (sizes : List ℕ) (vm : Vm w)
      → vm.gc.alloc_ptr + total_bytes sizes ≤ vm.gc.to_space + vm.gc.size / 2
      → (vm' : Vm w) × (owl_alloc_all sizes vm ≡ done (tt, vm')) × (vm'.objects ≡ vm.objects)
  unfolding owl_alloc_all total_bytes
  owl_alloc_all-fits [] vm fits = (vm, refl, refl)
  owl_alloc_all-fits (n ∷ ns) vm fits =
      let here : ltb (vm.gc.to_space + vm.gc.size / 2) (vm.gc.alloc_ptr + (align n + 1) % 2 ^ 32)
          ≡ false =
        ground (arith, fits) in
      let (vm', e, same) = owl_alloc_all-fits ns (allocated n vm) (omega (arith, fits)) in
      (vm', rw here e, same)

  -- The machine with the head of a list allocated.
  abbrev with_head : Vm w → Vm w
  with_head vm = record vm {
    gc = record (vm.gc) { alloc_ptr = vm.gc.alloc_ptr + 33 };
    forwards = update vm.forwards (vm.gc.alloc_ptr + 1) 0;
    bytes_allocated = (vm.bytes_allocated + 33) % 2 ^ 64;
  }

  -- The machine with a list at the new head.
  abbrev with_list : Vm w → ℕ → Rrb → Vm w
  with_list vm ptr rrb = record vm { objects = update vm.objects ptr (some (Object.list rrb)) }

  load-with_list :
      (vm : Vm w) (ptr : ℕ) (rrb : Rrb)
      → ptr ≢ 0
      → ptr ≢ w.empty_rrb_at
      → load_rrb ptr (with_list vm ptr rrb) ≡ done rrb
  unfolding load_rrb
  load-with_list vm ptr rrb some_ptr ne = ground arith

  load-with_list_other :
      (vm vm' : Vm w) (ptr other : ℕ) (rrb : Rrb)
      → vm'.objects ≡ vm.objects
      → other ≢ ptr
      → load_rrb other (with_list vm' ptr rrb) ≡ load_rrb other vm
  unfolding load_rrb
  load-with_list_other vm vm' ptr other rrb same ne = rw same (ground arith)

  push-with_list :
      (vm vm' : Vm w) (list elem : ℕ) (rrb pushed : Rrb) (sizes : List ℕ)
      → vm.gc.alloc_ptr + 33 ≤ vm.gc.to_space + vm.gc.size / 2
      → load_rrb (owl_extract_ptr list) vm ≡ done rrb
      → rrb_push rrb elem ≡ done pushed
      → push_bytes rrb ≡ done sizes
      → owl_alloc_all sizes (with_head vm) ≡ done (tt, vm')
      → owl_list_push list elem vm
        ≡ done (rrb_to_list (vm.gc.alloc_ptr + 1), with_list vm' (vm.gc.alloc_ptr + 1) pushed)
  unfolding owl_list_push owl_alloc align store
  push-with_list vm vm' list elem rrb pushed sizes room loaded push bytes allocs =
      let fits : ltb (vm.gc.to_space + vm.gc.size / 2) (vm.gc.alloc_ptr + 33) ≡ false =
        ground (arith, room) in
      rw (loaded, fits, push, bytes, allocs) refl

  push-exits :
      (vm : Vm w) (list elem : ℕ) (rrb pushed : Rrb) (sizes : List ℕ)
      → vm.gc.to_space + vm.gc.size / 2 < vm.gc.alloc_ptr + 33 + total_bytes sizes
      → load_rrb (owl_extract_ptr list) vm ≡ done rrb
      → rrb_push rrb elem ≡ done pushed
      → push_bytes rrb ≡ done sizes
      → owl_list_push list elem vm ≡ exited 1
  unfolding owl_list_push owl_alloc align
  push-exits vm list elem rrb pushed sizes tight loaded push bytes =
      elim (Bool-cases (ltb (vm.gc.to_space + vm.gc.size / 2) (vm.gc.alloc_ptr + 33))) [
        | inl full ↦ rw (loaded, full) refl
        | inr fits ↦
            rw
              (
                loaded,
                fits,
                push,
                bytes,
                owl_alloc_all-exits sizes (with_head vm) (ground arith) tight,
              )
              refl
      ]

  new_ptr :
      (vm : Vm w)
      → HasAddress vm
      → owl_extract_ptr (rrb_to_list (vm.gc.alloc_ptr + 1)) ≡ vm.gc.alloc_ptr + 1
  unfolding rrb_to_list owl_extract_ptr owl_tag_as
  new_ptr vm h = omega (arith, h.address)

  -- What a push gives: a list with the element behind the others, every list whose head was allocated
  -- before, or is the static empty one, holding what it held.
  pub record Pushed (vm : Vm w) (list elem : ℕ) (xs : List ℕ) : Type 0 where
    pub list' : ℕ
    pub vm' : Vm w
    pub returns : owl_list_push list elem vm ≡ done (list', vm')
    pub holds : HoldsList vm' list' (xs ++ elem ∷ [])
    pub kept :
        (other : ℕ) (ys : List ℕ)
        → (owl_extract_ptr other ≤ vm.gc.alloc_ptr) ⊎ (owl_extract_ptr other ≡ w.empty_rrb_at)
        → HoldsList vm other ys
        → HoldsList vm' other ys

  push-Pushed :
      (vm vm' : Vm w) (list elem : ℕ) (xs : List ℕ) (h : HoldsList vm list xs) (pushed : Rrb)
      (sizes : List ℕ)
      → HasAddress vm
      → vm.gc.alloc_ptr + 33 ≤ vm.gc.to_space + vm.gc.size / 2
      → rrb_push h.rrb elem ≡ done pushed
      → push_bytes h.rrb ≡ done sizes
      → IsBuilt pushed
      → rrb_list pushed ≡ xs ++ elem ∷ []
      → owl_alloc_all sizes (with_head vm) ≡ done (tt, vm')
      → vm'.objects ≡ vm.objects
      → Pushed vm list elem xs
  push-Pushed vm vm' list elem xs h pushed sizes at room e bytes built elements allocs same =
      record {
        list' = rrb_to_list (vm.gc.alloc_ptr + 1);
        vm' = with_list vm' (vm.gc.alloc_ptr + 1) pushed;
        returns = push-with_list vm vm' list elem h.rrb pushed sizes room h.loaded e bytes allocs;
        holds = record {
          rrb = pushed;
          loaded =
              rw (new_ptr vm at)
                (load-with_list vm' (vm.gc.alloc_ptr + 1) pushed (λ z. omega arith) at.not_empty);
          is_built = built;
          elements = elements;
        };
        kept = λ other ys before held. record {
          rrb = held.rrb;
          loaded =
              load-with_list_other vm vm' (vm.gc.alloc_ptr + 1) (owl_extract_ptr other) pushed same
                (old_head other before)
              ∙ held.loaded;
          is_built = held.is_built;
          elements = held.elements;
        };
      }
    where
      old_head :
          (other : ℕ)
          → (owl_extract_ptr other ≤ vm.gc.alloc_ptr) ⊎ (owl_extract_ptr other ≡ w.empty_rrb_at)
          → owl_extract_ptr other ≢ vm.gc.alloc_ptr + 1
      old_head other (inl low) = λ z. omega (arith, low, z)
      old_head other (inr static) = λ z. at.not_empty (sym z ∙ static)

  -- `owl_list_push` onto a list of less than 2080 elements that pushing built, where the next block is
  -- at an address that a term can hold, ends the process for lack of memory, and this only with less
  -- than 384 bytes left, or gives such a list with the element behind the others, while every list
  -- whose head was allocated before, or is the static empty one, still holds what it held.
  pub owl_list_push-HoldsList :
      (vm : Vm w) (list elem : ℕ) (xs : List ℕ)
      → HoldsList vm list xs
      → length xs < push_limit
      → HasAddress vm
      → ((owl_list_push list elem vm ≡ exited 1)
          × (vm.gc.to_space + vm.gc.size / 2 < vm.gc.alloc_ptr + 384))
        ⊎ Pushed vm list elem xs
  owl_list_push-HoldsList vm list elem xs h small at =
      let count : rrb_count h.rrb < push_limit =
        rw (rrb_count-IsBuilt h.is_built, h.elements) small in
      let (pushed, e, built, elements) = rrb_push-append h.is_built elem count in
      let (sizes, bytes, few) = push_bytes-Few h.is_built count in
      elim (Bool-cases
        (ltb (vm.gc.to_space + vm.gc.size / 2) (vm.gc.alloc_ptr + 33 + total_bytes sizes))) [
          | inl tight ↦ inl (
            push-exits vm list elem h.rrb pushed sizes (ground arith) h.loaded e bytes,
            ground (arith, few),
          )
          | inr fits ↦
              let (vm', allocs, same) = owl_alloc_all-fits sizes (with_head vm) (ground arith) in
              inr (
                push-Pushed vm vm' list elem xs h pushed sizes at (ground arith) e bytes built
                  (elements ∙ (rw h.elements refl)) allocs same)
        ]
