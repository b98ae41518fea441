-- ===== src/Std/Strings.antt =====
-- vm/src/std/owl_string.c.
pub mod Keeps
use owlang.Base.{
  ℕ, ◌+◌, ◌-◌, ◌%◌, ◌^◌, Bool, true, false, ◌&&◌, ◌||◌, List, [], ◌∷◌, ◌++◌, length, take, drop,
  min, leb, ◌==◌, if◌then◌else◌,
}
use owlang.World.{World}
use owlang.Term.{OwlTag, owl_extract_ptr, owl_tag_as, owl_int_from, int_from_owl_int, owl_bool}
use owlang.Vm.{Op, Object, ◌>>=◌, pure, lift, die, undefined}
use owlang.Vm.Memory.{alloc_object, load_string}

-- `owl_string_from(str)`
unfoldable pub owl_string_from : ℕ → ℕ
owl_string_from str = owl_tag_as str OwlTag.string

-- `strstr(str, subs) != NULL`
unfoldable starts_with : List ℕ → List ℕ → Bool
starts_with xs [] = true
starts_with [] (y ∷ ys) = false
starts_with (x ∷ xs) (y ∷ ys) = x == y && starts_with xs ys

unfoldable has_substring : List ℕ → List ℕ → Bool
unfolding starts_with
has_substring [] ys = starts_with [] ys
has_substring (x ∷ xs) ys = starts_with (x ∷ xs) ys || has_substring xs ys

module _ {w : World} where
  -- the text behind a term, `owl_extract_ptr(string)`
  unfoldable pub text_of : ℕ → Op w (List ℕ)
  text_of string vm = lift (load_string (owl_extract_ptr string) vm) vm

  -- A fresh text of the heap, `n` bytes with its NUL.
  unfoldable pub new_string : List ℕ → Op w ℕ
  new_string bytes = do
    ptr ← alloc_object (length bytes + 1) (Object.string bytes)
    pure (owl_string_from ptr)

  -- The bounds are made an `int`: one from 2 ^ 31 on is negative, and the copy then starts before
  -- the text.
  unfoldable pub owl_string_slice : ℕ → ℕ → ℕ → Op w ℕ
  unfolding text_of new_string
  owl_string_slice string from to = do
    the_string ← text_of string
    let from_int = int_from_owl_int from % 2 ^ 32
    let to_int = min (int_from_owl_int to) (length the_string)
    if leb (2 ^ 31) from_int
        then undefined
        else if leb to_int from_int
        then die
        else new_string (take (to_int - from_int) (drop from_int the_string))

  unfoldable pub owl_string_concat : ℕ → ℕ → Op w ℕ
  unfolding text_of new_string
  owl_string_concat left right = do
    left_str ← text_of left
    right_str ← text_of right
    new_string (left_str ++ right_str)

  unfoldable pub owl_string_count : ℕ → Op w ℕ
  unfolding text_of
  owl_string_count string = do str ← text_of string; pure (owl_int_from (length str))

  unfoldable pub owl_string_contains : ℕ → ℕ → Op w ℕ
  unfolding text_of has_substring
  owl_string_contains string substr = do
    str ← text_of string
    subs ← text_of substr
    pure (owl_bool (has_substring str subs))
