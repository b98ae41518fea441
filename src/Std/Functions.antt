-- ===== src/Std/Functions.antt =====
-- vm/src/std/owl_function.c.
use owlang.Base.{ℕ, ◌+◌, ◌*◌, List, [], ◌∷◌, ltb, length, set, replicate, if◌then◌else◌}
pub mod Keeps
use owlang.Base.Outcome.{done, fault}
use owlang.World.{World}
use owlang.Term.{OwlTag, owl_extract_ptr, owl_tag_as}
use owlang.Rrb.{read}
use owlang.Vm.{Op, Object, ◌>>=◌, ◌>>◌, pure, lift}
use owlang.Vm.Memory.{alloc_object, store, load_function_at}
use owlang.Std.Strings.{owl_string_from}

-- `owl_function_from(val)`
unfoldable pub owl_function_from : ℕ → ℕ
owl_function_from val = owl_tag_as val OwlTag.function

-- `sizeof(Function)`
abbrev pub function_size : ℕ
function_size = 24

-- "Anonymous"
abbrev anonymous : List ℕ
anonymous = b'A' ∷ b'n' ∷ b'o' ∷ b'n' ∷ b'y' ∷ b'm' ∷ b'o' ∷ b'u' ∷ b's' ∷ []

module _ {w : World} where
  -- The block comes from `malloc`, not from the collected heap.
  unfoldable pub owl_function_init : ℕ → ℕ → Op w ℕ
  unfolding store
  owl_function_init name location = do
    ptr ← λ vm. done (w.malloc vm.mallocs, record vm { mallocs = vm.mallocs + 1 })
    store ptr (
        Object.function
          (record { location = location; name = name; n_upvalues = 0; upvalues = [] }))
    pure ptr

  unfoldable pub owl_anon_function_init : ℕ → ℕ → Op w ℕ
  owl_anon_function_init location n_upvalues = alloc_object (function_size + n_upvalues * 8) (
      Object.function (record {
        location = location;
        name = w.literal anonymous;
        n_upvalues = n_upvalues;
        upvalues = replicate n_upvalues 0;
      }))

  unfoldable pub owl_function_set_upvalue : ℕ → ℕ → ℕ → Op w (Unit {0})
  unfolding store load_function_at
  owl_function_set_upvalue fun index value = do
    function ← λ vm. lift (load_function_at fun vm) vm
    if ltb index (length function.upvalues)
        then store fun
            (Object.function (record function { upvalues = set function.upvalues index value }))
        else λ vm. fault

  unfoldable owl_function_get_upvalue : ℕ → ℕ → Op w ℕ
  unfolding load_function_at read
  owl_function_get_upvalue fun index = do
    function ← λ vm. lift (load_function_at fun vm) vm
    lift (read function.upvalues index)

  unfoldable pub owl_function_name : ℕ → Op w ℕ
  unfolding load_function_at
  owl_function_name function = do
    fun ← λ vm. lift (load_function_at (owl_extract_ptr function) vm) vm
    pure (owl_string_from fun.name)
