-- ===== src/Load/Module/Growth.antt =====
-- What loading a module does to the code buffer, in vm/src/std/owl_code.c.
use owlang.Base.{ℕ, zero, suc, ◌+◌, ◌%◌, ◌^◌, ◌≤◌, ◌<◌, ◌≡◌, refl, ◌∙◌, subst, arith, List, [], ◌∷◌}
use owlang.Base.Outcome.{Outcome, done, exited, fault}
use owlang.Base.Outcome
use owlang.World.{World}
use owlang.Vm.{Vm, Op, Object, code_capacity, ◌>>=◌, pure, lift}
use owlang.Load.Module.{Loader, emit, scan, copy_byte, copy_bytes, copy_operands, scan_text}
use owlang.Std.Lists.{owl_list_push, rrb_of_list, rrb_size, rrb_to_list}
use owlang.Rrb.{Rrb}
use owlang.Rrb.Push.{rrb_push}
use owlang.Rrb.Memory.{push_bytes}
use owlang.Term.{owl_extract_ptr}
use owlang.Vm.Memory.{load_rrb, store, owl_alloc, owl_alloc_all}
use owlang.Std.Functions.{owl_function_init}
use owlang.Load.Scanner.{scanner_read, c_text}

pub bind-done {ℓ κ} :
    {A : Type ℓ} {B : Type κ} (m : Outcome A) (f : A → Outcome B) {b : B}
    → Outcome.bind m f ≡ done b
    → (a : A) × (m ≡ done a) × (f a ≡ done b)
bind-done (done a) f h = (a, refl, h)
bind-done _ f h = cc

module _ {w : World} where
  -- `code_ptr` is `d` bytes ahead of `code_size`, and inside the buffer or at its end.
  pub record Ahead (d : ℕ) (vm : Vm w) (l : Loader) : Type 0 where
    pub ahead : l.code_ptr ≡ vm.code_size + d
    pub inside : l.code_ptr ≤ code_capacity

  -- From one state of the loader to a later one, which is `d` bytes ahead: the code before `code_ptr`
  -- is kept.
  pub record Wrote (vm : Vm w) (l : Loader) (d : ℕ) (vm' : Vm w) (l' : Loader) : Type 0 where
    pub after : Ahead d vm' l'
    pub forward : l.code_ptr ≤ l'.code_ptr
    pub kept : (i : ℕ) → i < l.code_ptr → vm'.code i ≡ vm.code i

  pub Wrote-trans :
      {vm vm₁ vm₂ : Vm w} {l l₁ l₂ : Loader} {d₁ d₂ : ℕ}
      → Wrote vm l d₁ vm₁ l₁
      → Wrote vm₁ l₁ d₂ vm₂ l₂
      → Wrote vm l d₂ vm₂ l₂
  Wrote-trans a b = record {
    after = b.after;
    forward = omega (arith, a.forward, b.forward);
    kept = λ i h. b.kept i (omega (arith, a.forward)) ∙ a.kept i h;
  }

  pub recast :
      {vm vm' : Vm w} {l l' : Loader} {d d' : ℕ}
      → d ≡ d'
      → Wrote vm l d vm' l'
      → Wrote vm l d' vm' l'
  recast {vm} {vm'} {l} {l'} e wrote = subst (λ d. Wrote vm l d vm' l') e wrote

  -- From `d` bytes ahead, whatever the operation returns is `d'` bytes ahead.
  abbrev pub Writes : ℕ → ℕ → (Loader → Op w Loader) → Type 0
  Writes d d' op =
      (vm vm' : Vm w) (l l' : Loader)
      → Ahead d vm l
      → op l vm ≡ done (l', vm')
      → Wrote vm l d' vm' l'

  -- The operation leaves the code alone.
  abbrev Quiet : {A : Type 0} → Op w A → Type 0
  Quiet m =
      (vm vm' : Vm w) (a : _)
      → m vm ≡ done (a, vm')
      → (vm'.code ≡ vm.code) × (vm'.code_size ≡ vm.code_size)

  pub emit-Wrote :
      (byte d : ℕ) (vm vm' : Vm w) (l l' : Loader)
      → Ahead d vm l
      → emit byte l vm ≡ done (l', vm')
      → Wrote vm l (d + 1) vm' l'
  unfolding emit
  emit-Wrote byte d vm vm' l l' h e = ground (arith, h.ahead, h.inside)

  -- `grow` returns this machine.
  abbrev pub grown : ℕ → Vm w → Vm w
  grown n vm = record vm { code_size = (vm.code_size + n) % 2 ^ 64 }

  pub grown-Wrote :
      (n d : ℕ) (vm : Vm w) (l : Loader) → Ahead (d + n) vm l → Wrote vm l d (grown n vm) l
  grown-Wrote n d vm l h = ground (arith, h.ahead, h.inside)

  pub same-Wrote :
      (d : ℕ) (vm vm' : Vm w) (l l' : Loader)
      → Ahead d vm l
      → pure l vm ≡ done (l', vm')
      → Wrote vm l d vm' l'
  same-Wrote d vm vm' l l' h e = ground (arith, h.ahead, h.inside)

  pub copy_byte-Wrote :
      (d byte : ℕ) (vm vm' : Vm w) (l l' : Loader)
      → Ahead d vm l
      → copy_byte l vm ≡ done ((byte, l'), vm')
      → Wrote vm l (d + 1) vm' l'
  unfolding copy_byte
  copy_byte-Wrote d byte vm vm' l l' h e = ground (arith, h.ahead, h.inside)

  pub copy_bytes-Wrote : (n d : ℕ) → Writes d (d + n) (copy_bytes n)
  unfolding copy_bytes
  copy_bytes-Wrote zero d vm vm' l l' h e = ground (arith, h.ahead, h.inside)
  copy_bytes-Wrote (suc n) d vm vm' l l' h e =
      let (((byte, l₁), vm₁), e₁, e₂) = bind-done (copy_byte l vm) _ e in
      let first = copy_byte-Wrote d byte vm vm₁ l l₁ h e₁ in
      let rest = copy_bytes-Wrote n (d + 1) vm₁ vm' l₁ l' first.after e₂ in
      Wrote-trans first (recast (omega arith) rest)

  pub copy_operands-Writes : (n : ℕ) → Writes 0 0 (copy_operands n)
  unfolding copy_operands
  copy_operands-Writes zero vm vm' l l' h e = ground (arith, h.ahead, h.inside)
  copy_operands-Writes (suc n) vm vm' l l' h e =
      let (((byte, l₁), vm₁), e₁, e₂) = bind-done (copy_byte l vm) _ e in
      let first = copy_byte-Wrote 0 byte vm vm₁ l l₁ h e₁ in
      let counted = grown-Wrote 1 0 vm₁ l₁ first.after in
      Wrote-trans first
        (Wrote-trans counted (copy_operands-Writes n (grown 1 vm₁) vm' l₁ l' counted.after e₂))

  -- An operation that leaves the code and `code_ptr` alone.
  pub quiet-Wrote :
      {d : ℕ} {vm vm' : Vm w} {l l' : Loader}
      → Ahead d vm l
      → vm'.code ≡ vm.code
      → vm'.code_size ≡ vm.code_size
      → l'.code_ptr ≡ l.code_ptr
      → Wrote vm l d vm' l'
  quiet-Wrote h same size ptr = ground (arith, h.ahead, h.inside)

  pub scan-Wrote :
      (d byte : ℕ) (vm vm' : Vm w) (l l' : Loader)
      → Ahead d vm l
      → scan l vm ≡ done ((byte, l'), vm')
      → Wrote vm l d vm' l'
  unfolding scan
  scan-Wrote d byte vm vm' l l' h e = ground (arith, h.ahead, h.inside)

  -- The end of `scan_text`, behind the size.
  read_text-Wrote :
      (d : ℕ) (text : List ℕ) (m : Outcome (List ℕ × List ℕ)) (vm vm' : Vm w) (l l' : Loader)
      → Ahead d vm l
      → (lift m >>= λ (chars, rest).
            lift (c_text chars) >>= λ t. pure {A = List ℕ × Loader} (t, record l { bytes = rest }))
          vm
        ≡ done ((text, l'), vm')
      → Wrote vm l d vm' l'
  read_text-Wrote d text (done (chars, rest)) vm vm' l l' h e = ground (arith, h.ahead, h.inside)
  read_text-Wrote d text _ vm vm' l l' h e = cc

  pub scan_text-Wrote :
      (d : ℕ) (text : List ℕ) (vm vm' : Vm w) (l l' : Loader)
      → Ahead d vm l
      → scan_text l vm ≡ done ((text, l'), vm')
      → Wrote vm l d vm' l'
  unfolding scan_text
  scan_text-Wrote d text vm vm' l l' h e =
      let (((size, l₁), vm₁), e₁, r₁) = bind-done (scan l vm) _ e in
      let head = scan-Wrote d size vm vm₁ l l₁ h e₁ in
      Wrote-trans head
        (read_text-Wrote d text (scanner_read size l₁.bytes) vm₁ vm' l₁ l' head.after r₁)

  abbrev pub IsQuiet : Vm w → Vm w → Type 0
  IsQuiet vm vm' = (vm'.code ≡ vm.code) × (vm'.code_size ≡ vm.code_size)

  IsQuiet-trans : (vm vm₁ vm' : Vm w) → IsQuiet vm vm₁ → IsQuiet vm₁ vm' → IsQuiet vm vm'
  IsQuiet-trans vm vm₁ vm' (a, b) (c, d) = (c ∙ a, d ∙ b)

  owl_alloc-IsQuiet :
      (n ptr : ℕ) (vm vm' : Vm w) → owl_alloc n vm ≡ done (ptr, vm') → IsQuiet vm vm'
  unfolding owl_alloc
  owl_alloc-IsQuiet n ptr vm vm' e = ground arith

  owl_alloc_all-IsQuiet :
      (ns : List ℕ) (vm vm' : Vm w) → owl_alloc_all ns vm ≡ done (tt, vm') → IsQuiet vm vm'
  unfolding owl_alloc_all
  owl_alloc_all-IsQuiet [] vm vm' e = ground arith
  owl_alloc_all-IsQuiet (n ∷ ns) vm vm' e =
      let ((ptr, vm₁), e₁, e₂) = bind-done (owl_alloc n vm) _ e in
      IsQuiet-trans vm vm₁ vm' (owl_alloc-IsQuiet n ptr vm vm₁ e₁)
        (owl_alloc_all-IsQuiet ns vm₁ vm' e₂)

  lift-IsQuiet :
      {A : Type 0} (m : Outcome A) (a : A) (vm vm' : Vm w)
      → lift m vm ≡ done (a, vm')
      → IsQuiet vm vm'
  lift-IsQuiet (done b) a vm vm' e = ground arith
  lift-IsQuiet _ a vm vm' e = cc

  rrb_of_list-IsQuiet :
      (list : ℕ) (rrb : Rrb) (vm vm' : Vm w)
      → rrb_of_list list vm ≡ done (rrb, vm')
      → IsQuiet vm vm'
  unfolding rrb_of_list
  rrb_of_list-IsQuiet list rrb vm vm' e =
      lift-IsQuiet (load_rrb (owl_extract_ptr list) vm) rrb vm vm' e

  store-IsQuiet :
      (ptr : ℕ) (rrb : Rrb) (list' : ℕ) (vm vm' : Vm w)
      → (store ptr (Object.list rrb) >>= λ _. pure (rrb_to_list ptr)) vm ≡ done (list', vm')
      → IsQuiet vm vm'
  unfolding store
  store-IsQuiet ptr rrb list' vm vm' e = ground arith

  pub owl_list_push-IsQuiet :
      (list elem list' : ℕ) (vm vm' : Vm w)
      → owl_list_push list elem vm ≡ done (list', vm')
      → IsQuiet vm vm'
  unfolding owl_list_push
  owl_list_push-IsQuiet list elem list' vm vm' e =
      let ((rrb, vm₀), e₀, r₀) = bind-done (rrb_of_list list vm) _ e in
      let ((ptr, vm₁), e₁, r₁) = bind-done (owl_alloc rrb_size vm₀) _ r₀ in
      let ((pushed, vm₂), e₂, r₂) = bind-done (lift (rrb_push rrb elem) vm₁) _ r₁ in
      let ((sizes, vm₃), e₃, r₃) = bind-done (lift (push_bytes rrb) vm₂) _ r₂ in
      let ((done_all, vm₄), e₄, r₄) = bind-done (owl_alloc_all sizes vm₃) _ r₃ in
      IsQuiet-trans vm vm₀ vm' (rrb_of_list-IsQuiet list rrb vm vm₀ e₀) (
        IsQuiet-trans vm₀ vm₁ vm' (owl_alloc-IsQuiet rrb_size ptr vm₀ vm₁ e₁) (
          IsQuiet-trans vm₁ vm₂ vm' (lift-IsQuiet (rrb_push rrb elem) pushed vm₁ vm₂ e₂) (
            IsQuiet-trans vm₂ vm₃ vm' (lift-IsQuiet (push_bytes rrb) sizes vm₂ vm₃ e₃) (
              IsQuiet-trans vm₃ vm₄ vm' (owl_alloc_all-IsQuiet sizes vm₃ vm₄ e₄)
                (store-IsQuiet ptr pushed list' vm₄ vm' r₄)))))

  pub owl_function_init-quiet :
      (name location fun : ℕ) (vm vm' : Vm w)
      → owl_function_init name location vm ≡ done (fun, vm')
      → (vm'.code ≡ vm.code) × (vm'.code_size ≡ vm.code_size)
  unfolding owl_function_init
  owl_function_init-quiet name location fun vm vm' e = ground arith
