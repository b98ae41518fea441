-- ===== src/Std/Strings/Keeps.antt =====
-- What the operations on texts in vm/src/std/owl_string.c keep of the machine.
use owlang.Base.{ℕ, ◌+◌, ◌%◌, ◌^◌, List, length, leb, min}
use owlang.World.{World}
use owlang.Term.{owl_extract_ptr, int_from_owl_int}
use owlang.Vm.{Vm, Object}
use owlang.Vm.Memory.{load_string}
use owlang.Vm.Memory.Keeps.{alloc_object-Keeps}
use owlang.Vm.Keeps.{
  Keeps, bind-Keeps, pure-Keeps, reads-Keeps, if-Keeps, stops-Keeps, faults-Keeps,
}
use owlang.Vm.Stable.{Stable}
use owlang.Std.Strings.{
  text_of, new_string, owl_string_slice, owl_string_concat, owl_string_count, owl_string_contains,
}

module _ {w : World} {P : Vm w → Type 0} where
  pub text_of-Keeps : (string : ℕ) → Keeps P (text_of string)
  unfolding text_of
  text_of-Keeps string = reads-Keeps (load_string (owl_extract_ptr string))

  pub owl_string_count-Keeps : (string : ℕ) → Keeps P (owl_string_count string)
  unfolding owl_string_count
  owl_string_count-Keeps string = bind-Keeps (text_of-Keeps string) λ str. pure-Keeps _

  pub owl_string_contains-Keeps : (string substr : ℕ) → Keeps P (owl_string_contains string substr)
  unfolding owl_string_contains
  owl_string_contains-Keeps string substr =
      bind-Keeps (text_of-Keeps string)
        λ str. bind-Keeps (text_of-Keeps substr) λ subs. pure-Keeps _

module _ {w : World} {P : Vm w → Type 0} (s : Stable P) where
  pub new_string-Keeps : (bytes : List ℕ) → Keeps P (new_string bytes)
  unfolding new_string
  new_string-Keeps bytes =
      bind-Keeps (alloc_object-Keeps s (length bytes + 1) (Object.string bytes)) λ ptr. pure-Keeps _

  pub owl_string_slice-Keeps : (string from to : ℕ) → Keeps P (owl_string_slice string from to)
  unfolding owl_string_slice
  owl_string_slice-Keeps string from to = bind-Keeps (text_of-Keeps string) λ the_string.
      if-Keeps (leb (2 ^ 31) (int_from_owl_int from % 2 ^ 32)) faults-Keeps (
        if-Keeps
          (leb (min (int_from_owl_int to) (length the_string)) (int_from_owl_int from % 2 ^ 32))
          stops-Keeps (new_string-Keeps _))

  pub owl_string_concat-Keeps : (left right : ℕ) → Keeps P (owl_string_concat left right)
  unfolding owl_string_concat
  owl_string_concat-Keeps left right =
      bind-Keeps (text_of-Keeps left)
        λ left_str. bind-Keeps (text_of-Keeps right) λ right_str. new_string-Keeps _
