-- ===== src/Gc/Space.antt =====
-- What holds while the collector of vm/src/alloc.c copies objects from one half of the heap to the
-- other, and from one moment of it to a later one.
use owlang.Base.{
  ℕ, ◌+◌, ◌/◌, ◌<◌, ◌≤◌, ◌≡◌, ◌≢◌, ◌⊎◌, inl, inr, refl, ◌∙◌, arith, true, false, ◌&&◌, ltb, ◌==◌,
  if◌then◌else◌, some, List, [], ◌∷◌, All,
}
use owlang.Base.Outcome.{Outcome, done, exited, bind}
use owlang.World.{World}
use owlang.Term.{owl_extract_ptr, owl_tag_of}
use owlang.Vm.{Vm, Object, GcState}
use owlang.Gc.{object_size, copied_object, has_tag}
use owlang.Gc.Relocate.{refs, map_refs, in_heap, moved, IsSettled}

-- What a collection has nothing to do with.
pub record Rest (w : World) : Type 0 where
  pub current_frame : ℕ
  pub ip : ℕ
  pub code : ℕ → ℕ
  pub code_size : ℕ
  pub function_names : w.Strings
  pub intern_pool : w.Strings
  pub functions : ℕ → ℕ
  pub current_function : ℕ
  pub size : ℕ
  pub bytes_allocated : ℕ
  pub mallocs : ℕ
  pub stdout : List ℕ

abbrev pub rest : {w : World} → Vm w → Rest w
rest vm = record {
  current_frame = vm.current_frame;
  ip = vm.ip;
  code = vm.code;
  code_size = vm.code_size;
  function_names = vm.function_names;
  intern_pool = vm.intern_pool;
  functions = vm.functions;
  current_function = vm.current_function;
  size = vm.gc.size;
  bytes_allocated = vm.bytes_allocated;
  mallocs = vm.mallocs;
  stdout = vm.stdout;
}

-- The text of the object, if it is one, has its NUL.
abbrev pub IsWhole : Object → Type 0
IsWhole (Object.unterminated bytes) = ⊥
IsWhole _ = Unit {0}

-- What the old half of the heap holds: the addresses that are in use, how deep the object at each is
-- nested, the objects, and a list of the addresses.
pub record Snapshot : Type 1 where
  pub live : ℕ → Type 0
  pub rank : ℕ → ℕ
  pub content : ℕ → Object
  pub addresses : List ℕ

abbrev pub Member : ℕ → List ℕ → Type 0
Member p [] = ⊥
Member p (q ∷ qs) = (p ≡ q) ⊎ Member p qs

-- What is still to be paid for an object that is nested less than `n` deep: its block and the byte
-- before it, unless it has been moved.
unfoldable pub price : Snapshot → ℕ → (ℕ → ℕ) → ℕ → ℕ
price s n forwards p =
    if forwards p == 0 && ltb (s.rank p) n then object_size (s.content p) + 1 else 0

unfoldable pub prices : Snapshot → ℕ → (ℕ → ℕ) → List ℕ → ℕ
unfolding price
prices s n forwards [] = 0
prices s n forwards (p ∷ ps) = price s n forwards p + prices s n forwards ps

-- The term does not point into the heap, or at an object in use, of its own kind and nested less than
-- `n` deep.
abbrev pub IsGood : GcState → Snapshot → ℕ → ℕ → Type 0
IsGood gc s n term =
    (in_heap gc (owl_extract_ptr term) ≡ false)
    ⊎ (s.live (owl_extract_ptr term)
        × (s.rank (owl_extract_ptr term) < n)
        × (has_tag (owl_tag_of term) (s.content (owl_extract_ptr term)) ≡ true))

-- The half of the heap that is left when the collection begins: no object in use has been moved, and
-- terms in one point at objects that are nested less deep.
pub record IsLiveHeap {w : World} (vm : Vm w) (s : Snapshot) : Type 0 where
  pub apart :
      (vm.gc.from_space + vm.gc.size / 2 ≤ vm.gc.to_space)
      ⊎ (vm.gc.to_space + vm.gc.size / 2 ≤ vm.gc.from_space)
  pub start : vm.gc.alloc_ptr ≡ vm.gc.to_space
  pub within : (p : ℕ) → s.live p → (vm.gc.from_space < p) × (p ≤ vm.gc.from_space + vm.gc.size / 2)
  pub listed : (p : ℕ) → s.live p → Member p s.addresses
  pub alive : All s.live s.addresses
  pub fresh : (p : ℕ) → s.live p → vm.forwards p ≡ 0
  pub holds : (p : ℕ) → s.live p → vm.objects p ≡ some (s.content p)
  pub whole : (p : ℕ) → s.live p → IsWhole (s.content p)
  pub sized : (p : ℕ) → s.live p → 0 < object_size (s.content p)
  pub closed : (p : ℕ) → s.live p → All (IsGood vm.gc s (s.rank p)) (refs (s.content p))

module _ {w : World} (vm₀ : Vm w) (s : Snapshot) where
  -- The object at `p` has not been moved.
  pub record IsWaiting (vm : Vm w) (p : ℕ) : Type 0 where
    pub unmarked : vm.forwards p ≡ 0
    pub holds : vm.objects p ≡ some (s.content p)

  -- The object at `p` has been moved, with all that it refers to.
  pub record IsMoved (vm : Vm w) (p : ℕ) : Type 0 where
    pub marked : vm₀.gc.to_space < vm.forwards p
    pub placed : vm.forwards p ≤ vm.gc.alloc_ptr
    pub inside : vm.forwards p ≤ vm₀.gc.to_space + vm₀.gc.size / 2
    pub holds :
        vm.objects (vm.forwards p)
        ≡ some (map_refs (moved vm₀.gc vm.forwards) (copied_object (s.content p)))
    pub settled : All (IsSettled vm₀.gc vm.forwards) (refs (s.content p))

  pub record IsCopying (vm : Vm w) : Type 0 where
    pub to_space : vm.gc.to_space ≡ vm₀.gc.to_space
    pub from_space : vm.gc.from_space ≡ vm₀.gc.from_space
    pub size : vm.gc.size ≡ vm₀.gc.size
    pub above : vm₀.gc.to_space ≤ vm.gc.alloc_ptr
    pub each : (p : ℕ) → s.live p → IsWaiting vm p ⊎ IsMoved vm p
    pub injective :
        (p q : ℕ) → s.live p → s.live q → vm.forwards p ≢ 0 → vm.forwards p ≡ vm.forwards q → p ≡ q

  -- From one moment to a later one, where nothing nested `n` deep or deeper has been moved.
  pub record Extends (n : ℕ) (vm vm' : Vm w) : Type 0 where
    pub grows : vm.gc.alloc_ptr ≤ vm'.gc.alloc_ptr
    pub stays : (p : ℕ) → s.live p → vm.forwards p ≢ 0 → vm'.forwards p ≡ vm.forwards p
    pub later :
        (p : ℕ)
        → s.live p
        → n ≤ s.rank p
        → (vm'.forwards p ≡ vm.forwards p) × (vm'.objects p ≡ vm.objects p)
    pub beyond :
        (p : ℕ)
        → s.live p
        → vm.forwards p ≡ 0
        → (vm'.forwards p ≡ 0) ⊎ (vm.gc.alloc_ptr < vm'.forwards p)
    pub kept :
        (q : ℕ)
        → (s.live q → ⊥)
        → (q ≤ vm.gc.alloc_ptr) ⊎ (vm₀.gc.to_space + vm₀.gc.size / 2 < q)
        → vm'.objects q ≡ vm.objects q

  -- What is paid for the objects that are nested less than `n` deep has not become more.
  abbrev pub Pays : ℕ → Vm w → Vm w → Type 0
  Pays n vm vm' =
      vm'.gc.alloc_ptr + prices s n vm'.forwards s.addresses
      ≤ vm.gc.alloc_ptr + prices s n vm.forwards s.addresses

  -- There is no room for all objects that are nested less than `n` deep.
  abbrev pub IsTight : ℕ → Vm w → Type 0
  IsTight n vm =
      vm₀.gc.to_space + vm₀.gc.size / 2 + 1 < vm.gc.alloc_ptr + prices s n vm.forwards s.addresses

  -- An operation of the collector ends the process for lack of memory, or returns with some result
  -- in a later moment, the frames and the rest of the machine being as before.
  pub data Copies {A : Type 0} (n : ℕ) (vm : Vm w) (Good : A → Vm w → Type 0)
      : Outcome (A × Vm w) → Type 0 where
    stops : IsTight n vm → Copies n vm Good (exited 1)
    goes :
        {a : A} {vm' : Vm w}
        → IsCopying vm'
        → Extends n vm vm'
        → Pays n vm vm'
        → vm'.frames ≡ vm.frames
        → rest vm' ≡ rest vm
        → Good a vm'
        → Copies n vm Good (done (a, vm'))

  pub Extends-refl : (n : ℕ) (vm : Vm w) → Extends n vm vm
  Extends-refl n vm = record {
    grows = omega arith;
    stays = λ p _ _. refl;
    later = λ p _ _. (refl, refl);
    beyond = λ p _ e. inl e;
    kept = λ q _ _. refl;
  }

  pub Extends-trans :
      {n : ℕ} {vm vm₁ vm₂ : Vm w} → Extends n vm vm₁ → Extends n vm₁ vm₂ → Extends n vm vm₂
  Extends-trans a b = record {
    grows = omega (arith, a.grows, b.grows);
    stays = λ p h e. let first = a.stays p h e in b.stays p h (λ z. e (omega arith)) ∙ first;
    later =
        λ p h le. let (f, o) = a.later p h le in let (f', o') = b.later p h le in (f' ∙ f, o' ∙ o);
    beyond = λ p h e. elim (a.beyond p h e) [
      | inl z ↦ elim (b.beyond p h z) [ inl z' ↦ inl z' | inr far ↦ inr (omega (arith, a.grows)) ]
      | inr far ↦ inr (omega (arith, b.stays p h (omega arith)))
    ];
    kept = λ q dead at.
        b.kept q dead (elim at [ inl low ↦ inl (omega (arith, a.grows)) | inr high ↦ inr high ])
        ∙ a.kept q dead at;
  }

  pub Extends-mono : {n m : ℕ} {vm vm' : Vm w} → n ≤ m → Extends n vm vm' → Extends m vm vm'
  Extends-mono le a = record {
    grows = a.grows;
    stays = a.stays;
    later = λ p h below. a.later p h (omega arith);
    beyond = a.beyond;
    kept = a.kept;
  }

  pub Copies-bind :
      {A B : Type 0} {n : ℕ} {vm : Vm w} {P : A → Vm w → Type 0} {Q : B → Vm w → Type 0}
      {r : Outcome (A × Vm w)} {k : A → Vm w → Outcome (B × Vm w)}
      → Copies n vm P r
      → ((a : A) (vm' : Vm w)
          → IsCopying vm'
          → Extends n vm vm'
          → P a vm'
          → Copies n vm' Q (k a vm'))
      → Copies n vm Q (bind r λ (a, vm'). k a vm')
  Copies-bind (stops tight) next = stops tight
  Copies-bind (goes c e paid f g good) next = go_on e paid f g (next _ _ c e good)
    where
      go_on :
          {B : Type 0} {n : ℕ} {vm vm₁ : Vm w} {Q : B → Vm w → Type 0} {r : Outcome (B × Vm w)}
          → Extends n vm vm₁
          → Pays n vm vm₁
          → vm₁.frames ≡ vm.frames
          → rest vm₁ ≡ rest vm
          → Copies n vm₁ Q r
          → Copies n vm Q r
      go_on e paid f g (stops tight) = stops (omega arith)
      go_on e paid f g (goes c' e' paid' f' g' good) =
          goes c' (Extends-trans e e') (omega arith) (f' ∙ f) (g' ∙ g) good

  -- An operation that changes nothing.
  pub goes_here :
      {A : Type 0} {n : ℕ} {vm : Vm w} {Good : A → Vm w → Type 0} {a : A}
      → IsCopying vm
      → Good a vm
      → Copies n vm Good (done (a, vm))
  goes_here {n = n} {vm = vm} c good = goes c (Extends-refl n vm) (omega arith) refl refl good
