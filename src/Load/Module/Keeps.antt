-- ===== src/Load/Module/Keeps.antt =====
-- What the loader of vm/src/std/owl_code.c keeps of the machine.
use owlang.Base.{
  ℕ, zero, suc, ◌+◌, ◌%◌, ◌^◌, ◌≡◌, refl, arith, Bool, true, false, Option, none, some, List,
  length, ltb,
}
use owlang.World.{World}
use owlang.Opcodes.{Opcode, opcode_of}
use owlang.Vm.{Vm, Op, code_capacity, max_functions, ◌>>=◌, pure}
use owlang.Vm.Keeps.{
  Leaves, Keeps, bind-Keeps, then-Keeps, pure-Keeps, reads-Keeps, gets-Keeps, writes-Keeps,
  stops-Keeps, starves-Keeps,
}
use owlang.Vm.Stable.{Stable}
use owlang.Std.Functions.{owl_function_from}
use owlang.Std.Functions.Keeps.{owl_function_init-Keeps}
use owlang.Std.Lists.Keeps.{owl_list_init-Keeps, owl_list_push-Keeps}
use owlang.Std.Strings.Keeps.{text_of-Keeps}
use owlang.Load.Files.{find_file_for_module, read_module_file}
use owlang.Load.Scanner.{scanner_has_next, scanner_next, scanner_read, c_text}
use owlang.Load.Module.{
  Loader, Layout, layout, emit, grow, scan, copy_byte, copy_bytes, copy_operands, scan_text,
  intern_name, intern_string, assert_below, load_plain, load_sized, load_capture, set_function,
  load_pub_fn, load_load_string, load_call, load_layout, load_opcode, load_instruction, load_loop,
  owl_load_module, owl_code_load, vm_load_module_from_file, load_found, vm_load_module,
}

module _ {w : World} {P : Vm w → Type 0} where
  scan-Keeps : (l : Loader) → Keeps P (scan l)
  unfolding scan
  scan-Keeps l = bind-Keeps (reads-Keeps (λ vm. scanner_next l.bytes)) λ read. pure-Keeps _

  scan_text-Keeps : (l : Loader) → Keeps P (scan_text l)
  unfolding scan_text
  scan_text-Keeps l = bind-Keeps (scan-Keeps l) λ head.
      bind-Keeps (reads-Keeps (λ vm. scanner_read head.0 head.1.bytes))
        λ chars. bind-Keeps (reads-Keeps (λ vm. c_text chars.0)) λ text. pure-Keeps _

  assert_below-Keeps : (limit id : ℕ) → Keeps P (assert_below limit id)
  unfolding assert_below
  assert_below-Keeps limit id = record { at = λ vm h. ground arith }

module _ {w : World} {P : Vm w → Type 0} (s : Stable P) where
  emit-Leaves : (byte : ℕ) (l : Loader) (vm : Vm w) → P vm → Leaves P (emit byte l vm)
  unfolding emit
  emit-Leaves byte l vm h = by_room _ refl
    where
      by_room : (below : Bool) → ltb l.code_ptr code_capacity ≡ below → Leaves P (emit byte l vm)
      by_room true below = rw below (s.emit vm l.code_ptr byte (ground arith) h)
      by_room false past = rw past tt

  emit-Keeps : (byte : ℕ) (l : Loader) → Keeps P (emit byte l)
  emit-Keeps byte l = record { at = emit-Leaves byte l }

  grow-Keeps : (n : ℕ) → Keeps P (grow n)
  unfolding grow
  grow-Keeps n = writes-Keeps _ _ λ vm h. s.resize vm ((vm.code_size + n) % 2 ^ 64) h

  copy_byte-Keeps : (l : Loader) → Keeps P (copy_byte l)
  unfolding copy_byte
  copy_byte-Keeps l =
      bind-Keeps (scan-Keeps l) λ head. bind-Keeps (emit-Keeps head.0 head.1) λ l₂. pure-Keeps _

  copy_bytes-Keeps : (n : ℕ) (l : Loader) → Keeps P (copy_bytes n l)
  unfolding copy_bytes
  copy_bytes-Keeps zero l = pure-Keeps l
  copy_bytes-Keeps (suc n) l = bind-Keeps (copy_byte-Keeps l) λ head. copy_bytes-Keeps n head.1

  copy_operands-Keeps : (n : ℕ) (l : Loader) → Keeps P (copy_operands n l)
  unfolding copy_operands
  copy_operands-Keeps zero l = pure-Keeps l
  copy_operands-Keeps (suc n) l =
      bind-Keeps (copy_byte-Keeps l)
        λ head. then-Keeps (grow-Keeps 1) (copy_operands-Keeps n head.1)

  intern_name-Keeps : (text : List ℕ) → Keeps P (intern_name text)
  unfolding intern_name
  intern_name-Keeps text = record {
    at = λ vm h. s.name vm (w.strings_intern vm.function_names text).1 h;
  }

  intern_string-Keeps : (text : List ℕ) → Keeps P (intern_string text)
  unfolding intern_string
  intern_string-Keeps text = record {
    at = λ vm h. s.intern vm (w.strings_intern vm.intern_pool text).1 h;
  }

  set_function-Keeps : (id fun : ℕ) → Keeps P (set_function id fun)
  unfolding set_function
  set_function-Keeps id fun = record { at = λ vm h. s.declare vm id fun h }

  load_plain-Keeps : (ch operands : ℕ) (l : Loader) → Keeps P (load_plain ch operands l)
  unfolding load_plain
  load_plain-Keeps ch operands l = bind-Keeps (emit-Keeps ch l) λ l₁.
      bind-Keeps (copy_bytes-Keeps operands l₁)
        λ l₂. then-Keeps (grow-Keeps (operands + 1)) (pure-Keeps l₂)

  load_sized-Keeps : (ch operands : ℕ) (l : Loader) → Keeps P (load_sized ch operands l)
  unfolding load_sized
  load_sized-Keeps ch operands l = bind-Keeps (emit-Keeps ch l) λ l₁.
      bind-Keeps (copy_bytes-Keeps operands l₁) λ l₂.
        bind-Keeps (copy_byte-Keeps l₂)
          λ size. then-Keeps (grow-Keeps (operands + 2)) (copy_operands-Keeps size.0 size.1)

  load_capture-Keeps : (ch : ℕ) (l : Loader) → Keeps P (load_capture ch l)
  unfolding load_capture
  load_capture-Keeps ch l = bind-Keeps (emit-Keeps ch l) λ l₁.
      bind-Keeps (copy_byte-Keeps l₁) λ reg. bind-Keeps (scan_text-Keeps reg.1) λ name.
        bind-Keeps (intern_name-Keeps name.0) λ id.
          bind-Keeps (emit-Keeps (id % 256) name.1) λ l₄. then-Keeps (grow-Keeps 3) (pure-Keeps l₄)

  load_pub_fn-Keeps : (l : Loader) → Keeps P (load_pub_fn l)
  unfolding load_pub_fn
  load_pub_fn-Keeps l = bind-Keeps (scan_text-Keeps l) λ name.
      bind-Keeps (intern_name-Keeps name.0) λ id. then-Keeps (assert_below-Keeps max_functions id) (
        bind-Keeps (gets-Keeps (λ vm. w.strings_lookup_id vm.function_names id)) λ text.
          bind-Keeps (owl_function_init-Keeps s text name.1.code_ptr) λ fun.
            bind-Keeps (owl_list_push-Keeps s name.1.function_list (owl_function_from fun))
              λ function_list.
                then-Keeps (set_function-Keeps id fun)
                  (pure-Keeps (record (name.1) { function_list = function_list })))

  load_load_string-Keeps : (ch : ℕ) (l : Loader) → Keeps P (load_load_string ch l)
  unfolding load_load_string
  load_load_string-Keeps ch l = bind-Keeps (emit-Keeps ch l) λ l₁.
      bind-Keeps (copy_byte-Keeps l₁) λ reg. bind-Keeps (scan_text-Keeps reg.1) λ text.
        bind-Keeps (intern_string-Keeps text.0) λ id. then-Keeps (assert_below-Keeps 255 id) (
          bind-Keeps (emit-Keeps (id % 256) text.1) λ l₄. then-Keeps (grow-Keeps 3) (pure-Keeps l₄))

  load_call-Keeps : (ch : ℕ) (l : Loader) → Keeps P (load_call ch l)
  unfolding load_call
  load_call-Keeps ch l = bind-Keeps (emit-Keeps ch l) λ l₁. bind-Keeps (copy_byte-Keeps l₁) λ reg.
      bind-Keeps (scan_text-Keeps reg.1) λ name. bind-Keeps (intern_name-Keeps name.0) λ id.
        then-Keeps (assert_below-Keeps max_functions id) (
          bind-Keeps (emit-Keeps (id % 256) name.1) λ l₄.
            bind-Keeps (copy_byte-Keeps l₄)
              λ arity. then-Keeps (grow-Keeps 4) (copy_operands-Keeps arity.0 arity.1))

  load_layout-Keeps : (layout : Layout) (ch : ℕ) (l : Loader) → Keeps P (load_layout layout ch l)
  unfolding load_layout
  load_layout-Keeps (Layout.plain operands) ch l = load_plain-Keeps ch operands l
  load_layout-Keeps (Layout.sized operands) ch l = load_sized-Keeps ch operands l
  load_layout-Keeps Layout.capture ch l = load_capture-Keeps ch l
  load_layout-Keeps Layout.pub_fn ch l = load_pub_fn-Keeps l
  load_layout-Keeps Layout.load_string ch l = load_load_string-Keeps ch l
  load_layout-Keeps Layout.call_local ch l = load_sized-Keeps ch 2 l
  load_layout-Keeps Layout.call ch l = load_call-Keeps ch l

  load_opcode-Keeps :
      (opcode : Option Opcode) (ch : ℕ) (l : Loader) → Keeps P (load_opcode opcode ch l)
  unfolding load_opcode
  load_opcode-Keeps none ch l = stops-Keeps
  load_opcode-Keeps (some opcode) ch l = load_layout-Keeps (layout opcode) ch l

  load_instruction-Keeps : (l : Loader) → Keeps P (load_instruction l)
  unfolding load_instruction
  load_instruction-Keeps l =
      bind-Keeps (scan-Keeps l) λ ch. load_opcode-Keeps (opcode_of ch.0) ch.0 ch.1

  round-Keeps :
      (more : Bool) (l : Loader) (rest : Loader → Op w Loader)
      → ((l : Loader) → Keeps P (rest l))
      → Keeps P
          (elim more as (λ _. Op w Loader) [ true ↦ load_instruction l >>= rest | false ↦ pure l ])
  round-Keeps true l rest keeps = bind-Keeps (load_instruction-Keeps l) keeps
  round-Keeps false l rest keeps = pure-Keeps l

  load_loop-Keeps : (fuel : ℕ) (l : Loader) → Keeps P (load_loop fuel l)
  unfolding load_loop
  load_loop-Keeps zero l = starves-Keeps
  load_loop-Keeps (suc fuel) l =
      round-Keeps (scanner_has_next l.bytes) l (load_loop fuel) (load_loop-Keeps fuel)

  pub owl_load_module-Keeps : (bytecode : List ℕ) → Keeps P (owl_load_module bytecode)
  unfolding owl_load_module
  owl_load_module-Keeps bytecode = bind-Keeps owl_list_init-Keeps λ functions.
      bind-Keeps (gets-Keeps (λ vm. vm.code_size)) λ code_ptr.
        bind-Keeps
          (load_loop-Keeps (suc (length bytecode))
            (record { code_ptr = code_ptr; bytes = bytecode; function_list = functions }))
          λ l. pure-Keeps l.function_list

  pub owl_code_load-Keeps : (owl_filename : ℕ) → Keeps P (owl_code_load owl_filename)
  unfolding owl_code_load
  owl_code_load-Keeps owl_filename =
      bind-Keeps (text_of-Keeps owl_filename)
        λ filename. owl_load_module-Keeps (w.compile_file_to_memory filename)

  pub vm_load_module_from_file-Keeps :
      (filename : List ℕ) → Keeps P (vm_load_module_from_file filename)
  unfolding vm_load_module_from_file
  vm_load_module_from_file-Keeps filename =
      bind-Keeps (reads-Keeps (λ vm. read_module_file w filename))
        λ bytecode. bind-Keeps (owl_load_module-Keeps bytecode) λ list. pure-Keeps tt

  load_found-Keeps : (found : Option (List ℕ)) → Keeps P (load_found found)
  unfolding load_found
  load_found-Keeps none = pure-Keeps tt
  load_found-Keeps (some module_file) = vm_load_module_from_file-Keeps module_file

  pub vm_load_module-Keeps : (module_name : List ℕ) → Keeps P (vm_load_module module_name)
  unfolding vm_load_module
  vm_load_module-Keeps module_name =
      bind-Keeps (reads-Keeps (λ vm. find_file_for_module w module_name))
        λ found. load_found-Keeps found
