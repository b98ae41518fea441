-- ===== src/Load/Module/Instructions.antt =====
-- The cases of the `switch` of `owl_load_module`, vm/src/std/owl_code.c, on the code buffer.
use owlang.Base.{ℕ, ◌+◌, ◌%◌, ◌≡◌, refl, arith, List}
use owlang.Base.Outcome.{done}
use owlang.World.{World}
use owlang.Vm.{Vm, Op, update, max_functions, ◌>>=◌, ◌>>◌, pure}
use owlang.Std.Lists.{owl_list_push}
use owlang.Std.Functions.{owl_function_init, owl_function_from}
use owlang.Load.Module.{
  Loader, emit, grow, copy_byte, copy_bytes, copy_operands, scan_text, assert_below, load_plain,
  load_sized, load_capture, load_load_string, load_call, set_function, load_pub_fn,
}
use owlang.Load.Module.Growth.{
  bind-done, Ahead, Wrote, Writes, Wrote-trans, recast, grown, emit-Wrote, grown-Wrote, same-Wrote,
  copy_byte-Wrote, copy_bytes-Wrote, copy_operands-Writes, quiet-Wrote, scan_text-Wrote,
  owl_list_push-IsQuiet, owl_function_init-quiet,
}

module _ {w : World} where
  pub load_plain-Writes : (ch n : ℕ) → Writes {w = w} 0 0 (load_plain ch n)
  unfolding load_plain
  load_plain-Writes ch n vm vm' l l' h e =
      let ((l₁, vm₁), e₁, r₁) = bind-done (emit ch l vm) _ e in
      let head = emit-Wrote ch 0 vm vm₁ l l₁ h e₁ in
      let ((l₂, vm₂), e₂, r₂) = bind-done (copy_bytes n l₁ vm₁) _ r₁ in
      let body = recast (omega arith) (copy_bytes-Wrote n 1 vm₁ vm₂ l₁ l₂ head.after e₂) in
      let counted = grown-Wrote (n + 1) 0 vm₂ l₂ body.after in
      Wrote-trans head (
        Wrote-trans body
          (Wrote-trans counted (same-Wrote 0 (grown (n + 1) vm₂) vm' l₂ l' counted.after r₂)))

  pub load_sized-Writes : (ch n : ℕ) → Writes {w = w} 0 0 (load_sized ch n)
  unfolding load_sized
  load_sized-Writes ch n vm vm' l l' h e =
      let ((l₁, vm₁), e₁, r₁) = bind-done (emit ch l vm) _ e in
      let head = emit-Wrote ch 0 vm vm₁ l l₁ h e₁ in
      let ((l₂, vm₂), e₂, r₂) = bind-done (copy_bytes n l₁ vm₁) _ r₁ in
      let body = copy_bytes-Wrote n 1 vm₁ vm₂ l₁ l₂ head.after e₂ in
      let (((size, l₃), vm₃), e₃, r₃) = bind-done (copy_byte l₂ vm₂) _ r₂ in
      let last = recast (omega arith) (copy_byte-Wrote (1 + n) size vm₂ vm₃ l₂ l₃ body.after e₃) in
      let counted = grown-Wrote (n + 2) 0 vm₃ l₃ last.after in
      let operands = copy_operands-Writes size (grown (n + 2) vm₃) vm' l₃ l' counted.after r₃ in
      Wrote-trans head (Wrote-trans body (Wrote-trans last (Wrote-trans counted operands)))

  -- The machine with a name in either pool.
  abbrev named : List ℕ → Vm w → Vm w
  named name vm = record vm { function_names = (w.strings_intern vm.function_names name).1 }

  abbrev pooled : List ℕ → Vm w → Vm w
  pooled text vm = record vm { intern_pool = (w.strings_intern vm.intern_pool text).1 }

  named-Wrote :
      (d : ℕ) (name : List ℕ) (vm : Vm w) (l : Loader)
      → Ahead d vm l
      → Wrote vm l d (named name vm) l
  named-Wrote d name vm l h = quiet-Wrote h refl refl refl

  pooled-Wrote :
      (d : ℕ) (text : List ℕ) (vm : Vm w) (l : Loader)
      → Ahead d vm l
      → Wrote vm l d (pooled text vm) l
  pooled-Wrote d text vm l h = quiet-Wrote h refl refl refl

  -- An operand byte that ends a loaded name, and the count.
  last_byte-Wrote :
      (byte : ℕ) (vm vm' : Vm w) (l l' : Loader)
      → Ahead 2 vm l
      → (emit byte l >>= λ l₁. grow 3 >> pure l₁) vm ≡ done (l', vm')
      → Wrote vm l 0 vm' l'
  unfolding grow
  last_byte-Wrote byte vm vm' l l' h e =
      let ((l₁, vm₁), e₁, r₁) = bind-done (emit byte l vm) _ e in
      let operand = emit-Wrote byte 2 vm vm₁ l l₁ h e₁ in
      let counted = grown-Wrote 3 0 vm₁ l₁ operand.after in
      Wrote-trans operand
        (Wrote-trans counted (same-Wrote 0 (grown 3 vm₁) vm' l₁ l' counted.after r₁))

  pub load_capture-Writes : (ch : ℕ) → Writes {w = w} 0 0 (load_capture ch)
  unfolding load_capture
  load_capture-Writes ch vm vm' l l' h e =
      let ((l₁, vm₁), e₁, r₁) = bind-done (emit ch l vm) _ e in
      let head = emit-Wrote ch 0 vm vm₁ l l₁ h e₁ in
      let (((reg, l₂), vm₂), e₂, r₂) = bind-done (copy_byte l₁ vm₁) _ r₁ in
      let result = copy_byte-Wrote 1 reg vm₁ vm₂ l₁ l₂ head.after e₂ in
      let (((name, l₃), vm₃), e₃, r₃) = bind-done (scan_text l₂ vm₂) _ r₂ in
      let read = scan_text-Wrote 2 name vm₂ vm₃ l₂ l₃ result.after e₃ in
      let known = named-Wrote 2 name vm₃ l₃ read.after in
      let last = last_byte-Wrote _ (named name vm₃) vm' l₃ l' known.after r₃ in
      Wrote-trans head (Wrote-trans result (Wrote-trans read (Wrote-trans known last)))

  assert_below-done :
      {A : Type 0} (limit id : ℕ) (k : Op w A) (vm vm' : Vm w) (a : A)
      → (assert_below limit id >> k) vm ≡ done (a, vm')
      → k vm ≡ done (a, vm')
  unfolding assert_below
  assert_below-done limit id k vm vm' a e = ground arith

  checked_byte-Wrote :
      (limit id : ℕ) (vm vm' : Vm w) (l l' : Loader)
      → Ahead 2 vm l
      → (assert_below limit id >> (emit (id % 256) l >>= λ l₁. grow 3 >> pure l₁)) vm
        ≡ done (l', vm')
      → Wrote vm l 0 vm' l'
  checked_byte-Wrote limit id vm vm' l l' h e =
      last_byte-Wrote (id % 256) vm vm' l l' h
        (assert_below-done limit id (emit (id % 256) l >>= λ l₁. grow 3 >> pure l₁) vm vm' l' e)

  pub load_load_string-Writes : (ch : ℕ) → Writes {w = w} 0 0 (load_load_string ch)
  unfolding load_load_string
  load_load_string-Writes ch vm vm' l l' h e =
      let ((l₁, vm₁), e₁, r₁) = bind-done (emit ch l vm) _ e in
      let head = emit-Wrote ch 0 vm vm₁ l l₁ h e₁ in
      let (((reg, l₂), vm₂), e₂, r₂) = bind-done (copy_byte l₁ vm₁) _ r₁ in
      let result = copy_byte-Wrote 1 reg vm₁ vm₂ l₁ l₂ head.after e₂ in
      let (((text, l₃), vm₃), e₃, r₃) = bind-done (scan_text l₂ vm₂) _ r₂ in
      let read = scan_text-Wrote 2 text vm₂ vm₃ l₂ l₃ result.after e₃ in
      let known = pooled-Wrote 2 text vm₃ l₃ read.after in
      let last =
        checked_byte-Wrote 255 (w.strings_intern vm₃.intern_pool text).0 (pooled text vm₃) vm' l₃ l'
          known.after r₃ in
      Wrote-trans head (Wrote-trans result (Wrote-trans read (Wrote-trans known last)))

  -- The end of a call, behind its name.
  abbrev call_end : ℕ → Loader → Op w Loader
  call_end id l = do
    l₁ ← emit (id % 256) l
    (arity, l₂) ← copy_byte l₁
    grow 4
    copy_operands arity l₂

  call_end-Wrote :
      (id : ℕ) (vm vm' : Vm w) (l l' : Loader)
      → Ahead 2 vm l
      → (assert_below max_functions id >> call_end id l) vm ≡ done (l', vm')
      → Wrote vm l 0 vm' l'
  unfolding grow
  call_end-Wrote id vm vm' l l' h checked =
      let e = assert_below-done max_functions id (call_end id l) vm vm' l' checked in
      let ((l₁, vm₁), e₁, r₁) = bind-done (emit (id % 256) l vm) _ e in
      let name = emit-Wrote (id % 256) 2 vm vm₁ l l₁ h e₁ in
      let (((arity, l₂), vm₂), e₂, r₂) = bind-done (copy_byte l₁ vm₁) _ r₁ in
      let size = copy_byte-Wrote 3 arity vm₁ vm₂ l₁ l₂ name.after e₂ in
      let counted = grown-Wrote 4 0 vm₂ l₂ size.after in
      let operands = copy_operands-Writes arity (grown 4 vm₂) vm' l₂ l' counted.after r₂ in
      Wrote-trans name (Wrote-trans size (Wrote-trans counted operands))

  pub load_call-Writes : (ch : ℕ) → Writes {w = w} 0 0 (load_call ch)
  unfolding load_call
  load_call-Writes ch vm vm' l l' h e =
      let ((l₁, vm₁), e₁, r₁) = bind-done (emit ch l vm) _ e in
      let head = emit-Wrote ch 0 vm vm₁ l l₁ h e₁ in
      let (((reg, l₂), vm₂), e₂, r₂) = bind-done (copy_byte l₁ vm₁) _ r₁ in
      let result = copy_byte-Wrote 1 reg vm₁ vm₂ l₁ l₂ head.after e₂ in
      let (((name, l₃), vm₃), e₃, r₃) = bind-done (scan_text l₂ vm₂) _ r₂ in
      let read = scan_text-Wrote 2 name vm₂ vm₃ l₂ l₃ result.after e₃ in
      let known = named-Wrote 2 name vm₃ l₃ read.after in
      let last =
        call_end-Wrote (w.strings_intern vm₃.function_names name).0 (named name vm₃) vm' l₃ l'
          known.after r₃ in
      Wrote-trans head (Wrote-trans result (Wrote-trans read (Wrote-trans known last)))

  -- The end of `OP_PUB_FN`: a function, its place in the list and in the table.
  abbrev declare : ℕ → Loader → Op w Loader
  declare id l = do
    function_name ← λ vm. done (w.strings_lookup_id vm.function_names id, vm)
    fun ← owl_function_init function_name l.code_ptr
    function_list ← owl_list_push l.function_list (owl_function_from fun)
    set_function id fun
    pure (record l { function_list = function_list })

  declare-Wrote :
      (name id : ℕ) (vm vm' : Vm w) (l l' : Loader)
      → Ahead 0 vm l
      → (owl_function_init name l.code_ptr >>= λ fun.
            owl_list_push l.function_list (owl_function_from fun) >>= λ function_list.
            set_function id fun >> pure (record l { function_list = function_list }))
          vm
        ≡ done (l', vm')
      → Wrote vm l 0 vm' l'
  unfolding set_function
  declare-Wrote name id vm vm' l l' h e =
      let ((fun, vm₁), e₁, r₁) = bind-done (owl_function_init name l.code_ptr vm) _ e in
      let (code₁, size₁) = owl_function_init-quiet name l.code_ptr fun vm vm₁ e₁ in
      let ((list, vm₂), e₂, r₂) =
        bind-done (owl_list_push l.function_list (owl_function_from fun) vm₁) _ r₁ in
      let (code₂, size₂) =
        owl_list_push-IsQuiet l.function_list (owl_function_from fun) list vm₁ vm₂ e₂ in
      let made = quiet-Wrote {vm' = vm₁} {l' = l} h code₁ size₁ refl in
      let pushed = quiet-Wrote {vm' = vm₂} {l' = l} made.after code₂ size₂ refl in
      let set =
        quiet-Wrote {vm' = record vm₂ { functions = update vm₂.functions id fun }}
          {l' = record l { function_list = list }} pushed.after refl refl refl in
      Wrote-trans made (Wrote-trans pushed (Wrote-trans set (same-Wrote 0 _ vm' _ l' set.after r₂)))

  pub load_pub_fn-Writes : Writes {w = w} 0 0 load_pub_fn
  unfolding load_pub_fn
  load_pub_fn-Writes vm vm' l l' h e =
      let (((name, l₁), vm₁), e₁, r₁) = bind-done (scan_text l vm) _ e in
      let read = scan_text-Wrote 0 name vm vm₁ l l₁ h e₁ in
      let known = named-Wrote 0 name vm₁ l₁ read.after in
      let id = (w.strings_intern vm₁.function_names name).0 in
      let declared =
        declare-Wrote (w.strings_lookup_id (named name vm₁).function_names id) id (named name vm₁)
          vm' l₁ l' known.after
          (assert_below-done max_functions id (declare id l₁) (named name vm₁) vm' l' r₁) in
      Wrote-trans read (Wrote-trans known declared)
