-- ===== src/Load/Module.antt =====
-- `owl_load_module` and `owl_code_load` of vm/src/std/owl_code.c, `vm_load_module` and
-- `vm_load_module_from_file` of vm/src/vm.c.
pub mod Growth
pub mod Instructions
pub mod Rounds
pub mod Kept
pub mod Keeps
use owlang.Base.{
  ℕ, zero, suc, ◌+◌, ◌%◌, ◌^◌, true, false, Option, none, some, List, length, ltb, if◌then◌else◌,
}
use owlang.Base.Outcome.{done, aborted, fault, out_of_fuel}
use owlang.World.{World}
use owlang.Opcodes.{Opcode, opcode_of}
use owlang.Vm.{Op, update, code_capacity, max_functions, ◌>>=◌, ◌>>◌, pure, lift, die}
use owlang.Std.Functions.{owl_function_init, owl_function_from}
use owlang.Std.Lists.{owl_list_init, owl_list_push}
use owlang.Std.Strings.{text_of}
use owlang.Load.Files.{find_file_for_module, read_module_file}
use owlang.Load.Scanner.{scanner_has_next, scanner_next, scanner_read, c_text}

-- The variables of `owl_load_module`: `code_ptr - vm->code`, what the scanner has left, and the
-- list of functions.
record Loader : Type 0 where
  pub code_ptr : ℕ
  pub bytes : List ℕ
  pub function_list : ℕ

-- How an instruction is laid out: operands of one byte; operands, a size byte and as many operands;
-- or a name in it.
pub data Layout : Type 0 where
  plain : ℕ → Layout
  sized : ℕ → Layout
  capture pub_fn load_string call_local call : Layout

-- The `switch` of `owl_load_module`.
unfoldable layout : Opcode → Layout
layout Opcode.op_return = Layout.plain 0
layout Opcode.op_exit = Layout.plain 1
layout Opcode.op_print = Layout.plain 1
layout Opcode.op_file_pwd = Layout.plain 1
layout Opcode.op_store_true = Layout.plain 1
layout Opcode.op_store_false = Layout.plain 1
layout Opcode.op_store_nil = Layout.plain 1
layout Opcode.op_jmp = Layout.plain 1
layout Opcode.op_gc_collect = Layout.plain 1
layout Opcode.op_mov = Layout.plain 2
layout Opcode.op_file_ls = Layout.plain 2
layout Opcode.op_not = Layout.plain 2
layout Opcode.op_list_count = Layout.plain 2
layout Opcode.op_string_count = Layout.plain 2
layout Opcode.op_code_load = Layout.plain 2
layout Opcode.op_test = Layout.plain 2
layout Opcode.op_function_name = Layout.plain 2
layout Opcode.op_to_string = Layout.plain 2
layout Opcode.op_tuple_nth = Layout.plain 3
layout Opcode.op_store_int = Layout.plain 3
layout Opcode.op_add = Layout.plain 3
layout Opcode.op_sub = Layout.plain 3
layout Opcode.op_eq = Layout.plain 3
layout Opcode.op_not_eq = Layout.plain 3
layout Opcode.op_greater_than = Layout.plain 3
layout Opcode.op_list_nth = Layout.plain 3
layout Opcode.op_concat = Layout.plain 3
layout Opcode.op_string_contains = Layout.plain 3
layout Opcode.op_list_slice = Layout.plain 4
layout Opcode.op_string_slice = Layout.plain 4
layout Opcode.op_tuple = Layout.sized 1
layout Opcode.op_list = Layout.sized 1
layout Opcode.op_anon_fn = Layout.sized 3
layout Opcode.op_capture = Layout.capture
layout Opcode.op_pub_fn = Layout.pub_fn
layout Opcode.op_load_string = Layout.load_string
layout Opcode.op_call_local = Layout.call_local
layout Opcode.op_call = Layout.call

module _ {w : World} where
  -- `*code_ptr++ = byte`
  unfoldable emit : ℕ → Loader → Op w Loader
  emit byte l vm =
      if ltb l.code_ptr code_capacity
      then done (
        record l { code_ptr = l.code_ptr + 1 },
        record vm { code = update vm.code l.code_ptr byte },
      )
      else fault

  -- `vm->code_size += n`
  unfoldable grow : ℕ → Op w (Unit {0})
  grow n vm = done (tt, record vm { code_size = (vm.code_size + n) % 2 ^ 64 })

  -- `scanner_next(scanner)`
  unfoldable scan : Loader → Op w (ℕ × Loader)
  unfolding scanner_next
  scan l = do (byte, rest) ← lift (scanner_next l.bytes); pure (byte, record l { bytes = rest })

  -- `*code_ptr++ = scanner_next(scanner)`, and the byte
  unfoldable copy_byte : Loader → Op w (ℕ × Loader)
  unfolding scan emit
  copy_byte l = do (byte, l₁) ← scan l; l₂ ← emit byte l₁; pure (byte, l₂)

  unfoldable copy_bytes : ℕ → Loader → Op w Loader
  unfolding copy_byte
  copy_bytes zero l = pure l
  copy_bytes (suc n) l = do (_, l₁) ← copy_byte l; copy_bytes n l₁

  -- The loop over the operands, `code_size` growing with each.
  unfoldable copy_operands : ℕ → Loader → Op w Loader
  unfolding copy_byte grow
  copy_operands zero l = pure l
  copy_operands (suc n) l = do (_, l₁) ← copy_byte l; grow 1; copy_operands n l₁

  -- A size byte and a `char` array of that size, as a text.
  unfoldable scan_text : Loader → Op w (List ℕ × Loader)
  unfolding scan scanner_read c_text
  scan_text l = do
    (size, l₁) ← scan l
    (chars, rest) ← lift (scanner_read size l₁.bytes)
    text ← lift (c_text chars)
    pure (text, record l₁ { bytes = rest })

  -- `strings_intern` on either pool
  unfoldable intern_name : List ℕ → Op w ℕ
  intern_name text vm =
      let (id, names) = w.strings_intern vm.function_names text in
      done (id, record vm { function_names = names })

  unfoldable intern_string : List ℕ → Op w ℕ
  intern_string text vm =
      let (id, pool) = w.strings_intern vm.intern_pool text in
      done (id, record vm { intern_pool = pool })

  -- `assert(id < limit)`
  unfoldable assert_below : ℕ → ℕ → Op w (Unit {0})
  assert_below limit id vm = if ltb id limit then done (tt, vm) else aborted

  -- The cases of the `switch`, `ch` being the opcode's byte.
  unfoldable load_plain : ℕ → ℕ → Loader → Op w Loader
  unfolding emit copy_bytes grow
  load_plain ch operands l = do
    l₁ ← emit ch l
    l₂ ← copy_bytes operands l₁
    grow (operands + 1)
    pure l₂

  unfoldable load_sized : ℕ → ℕ → Loader → Op w Loader
  unfolding emit copy_bytes copy_byte copy_operands grow
  load_sized ch operands l = do
    l₁ ← emit ch l
    l₂ ← copy_bytes operands l₁
    (size, l₃) ← copy_byte l₂
    grow (operands + 2)
    copy_operands size l₃

  unfoldable load_capture : ℕ → Loader → Op w Loader
  unfolding emit copy_byte scan_text intern_name grow
  load_capture ch l = do
    l₁ ← emit ch l
    (_, l₂) ← copy_byte l₁
    (name, l₃) ← scan_text l₂
    id ← intern_name name
    l₄ ← emit (id % 256) l₃
    grow 3
    pure l₄

  -- `vm->functions[id] = fun`
  unfoldable set_function : ℕ → ℕ → Op w (Unit {0})
  set_function id fun vm = done (tt, record vm { functions = update vm.functions id fun })

  unfoldable load_pub_fn : Loader → Op w Loader
  unfolding scan_text intern_name assert_below owl_function_init owl_list_push set_function
  load_pub_fn l = do
    (name, l₁) ← scan_text l
    id ← intern_name name
    assert_below max_functions id
    function_name ← λ vm. done (w.strings_lookup_id vm.function_names id, vm)
    fun ← owl_function_init function_name l₁.code_ptr
    function_list ← owl_list_push l₁.function_list (owl_function_from fun)
    set_function id fun
    pure (record l₁ { function_list = function_list })

  unfoldable load_load_string : ℕ → Loader → Op w Loader
  unfolding emit copy_byte scan_text intern_string assert_below grow
  load_load_string ch l = do
    l₁ ← emit ch l
    (_, l₂) ← copy_byte l₁
    (text, l₃) ← scan_text l₂
    id ← intern_string text
    assert_below 255 id
    l₄ ← emit (id % 256) l₃
    grow 3
    pure l₄

  unfoldable load_call : ℕ → Loader → Op w Loader
  unfolding emit copy_byte scan_text intern_name assert_below copy_operands grow
  load_call ch l = do
    l₁ ← emit ch l
    (_, l₂) ← copy_byte l₁
    (name, l₃) ← scan_text l₂
    id ← intern_name name
    assert_below max_functions id
    l₄ ← emit (id % 256) l₃
    (arity, l₅) ← copy_byte l₄
    grow 4
    copy_operands arity l₅

  unfoldable load_layout : Layout → ℕ → Loader → Op w Loader
  unfolding load_plain load_sized load_capture load_pub_fn load_load_string load_call
  load_layout (Layout.plain operands) ch l = load_plain ch operands l
  load_layout (Layout.sized operands) ch l = load_sized ch operands l
  load_layout Layout.capture ch l = load_capture ch l
  load_layout Layout.pub_fn ch l = load_pub_fn l
  load_layout Layout.load_string ch l = load_load_string ch l
  load_layout Layout.call_local ch l = load_sized ch 2 l
  load_layout Layout.call ch l = load_call ch l

  -- One instruction; a byte that is no opcode ends the process.
  unfoldable load_opcode : Option Opcode → ℕ → Loader → Op w Loader
  unfolding layout load_layout
  load_opcode none ch l = die
  load_opcode (some opcode) ch l = load_layout (layout opcode) ch l

  unfoldable load_instruction : Loader → Op w Loader
  unfolding scan load_opcode opcode_of
  load_instruction l = do (ch, l₁) ← scan l; load_opcode (opcode_of ch) ch l₁

  -- The `while` loop, on fuel; every round reads a byte at least.
  unfoldable load_loop : ℕ → Loader → Op w Loader
  unfolding scanner_has_next load_instruction
  load_loop zero l = lift out_of_fuel
  load_loop (suc fuel) l = elim (scanner_has_next l.bytes) [
    | true ↦ load_instruction l >>= load_loop fuel
    | false ↦ pure l
  ]

  -- The list of the functions that the module declares.
  unfoldable pub owl_load_module : List ℕ → Op w ℕ
  unfolding load_loop owl_list_init
  owl_load_module bytecode = do
    functions ← owl_list_init
    code_ptr ← λ vm. done (vm.code_size, vm)
    l ←
        load_loop (suc (length bytecode))
          (record { code_ptr = code_ptr; bytes = bytecode; function_list = functions })
    pure l.function_list

  unfoldable pub owl_code_load : ℕ → Op w ℕ
  unfolding owl_load_module text_of
  owl_code_load owl_filename = do
    filename ← text_of owl_filename
    owl_load_module (w.compile_file_to_memory filename)

  unfoldable pub vm_load_module_from_file : List ℕ → Op w (Unit {0})
  unfolding read_module_file owl_load_module
  vm_load_module_from_file filename = do
    bytecode ← lift (read_module_file w filename)
    _ ← owl_load_module bytecode
    pure tt

  -- Where no file is found, nothing is done.
  unfoldable load_found : Option (List ℕ) → Op w (Unit {0})
  unfolding vm_load_module_from_file
  load_found none = pure tt
  load_found (some module_file) = vm_load_module_from_file module_file

  unfoldable pub vm_load_module : List ℕ → Op w (Unit {0})
  unfolding find_file_for_module load_found
  vm_load_module module_name = do
    found ← lift (find_file_for_module w module_name)
    load_found found
