-- ===== src/Std/Terms/Print.antt =====
-- `owl_term_print` of vm/src/term.c, and `owl_list_print` of vm/src/std/owl_list.c.
pub mod Keeps
use owlang.Base.{
  ℕ, zero, suc, ◌+◌, ◌%◌, Option, none, some, List, [], ◌∷◌, ◌++◌, ◌==◌, if◌then◌else◌,
}
use owlang.Base.Outcome.{done, out_of_fuel}
use owlang.World.{World}
use owlang.Term.{
  OwlTag, tag_value, owl_tag_of, owl_int_from, int_from_owl_int, owl_true, owl_false, owl_nil,
}
use owlang.Rrb.{read, sub32, rrb_count}
use owlang.Rrb.Nth.{rrb_nth}
use owlang.Vm.{Op, ◌>>=◌, ◌>>◌, pure, lift}
use owlang.Std.Strings.{text_of}
use owlang.Std.Functions.{owl_function_name}
use owlang.Std.Lists.{owl_list_count, owl_list_nth, rrb_of_list}
use owlang.Std.Equality.{u8_rounds}
use owlang.Std.Terms.{
  words_of, each_u8, each_below, separator, bracket_open, bracket_close, signed_digits, text_true,
  text_false, text_nil,
}

-- `(owl_term) p` for a pointer that may be NULL
unfoldable word_or_null : Option ℕ → ℕ
word_or_null none = 0
word_or_null (some word) = word

module _ {w : World} where
  -- `fputs(t, stdout)`
  unfoldable print : List ℕ → Op w (Unit {0})
  print text vm = done (tt, record vm { stdout = vm.stdout ++ text })

  unfoldable tuple_print : (ℕ → Op w (Unit {0})) → ℕ → Op w (Unit {0})
  unfolding words_of each_u8 read print
  tuple_print show term = do
    ary ← words_of term
    size ← lift (read ary 0)
    _ ←
        each_u8 u8_rounds 1 (size % 256)
          (λ i acc. do
            elem ← lift (read ary i)
            show elem
            (if i == size % 256 then pure tt else print separator)
            pure acc)
          0
    pure tt

  unfoldable list_print : (ℕ → Op w (Unit {0})) → ℕ → Op w (Unit {0})
  unfolding each_below print
  list_print show term = do
    count ← owl_list_count term
    print bracket_open
    _ ←
        each_below (int_from_owl_int count) 0
          (λ i acc. do
            elem ← owl_list_nth term (owl_int_from i)
            show elem
            (if i + 1 == int_from_owl_int count then pure tt else print separator)
            pure acc)
          0
    print bracket_close

  -- `print(owl_extract_ptr(term))`
  unfoldable string_print : ℕ → Op w (Unit {0})
  unfolding print
  string_print term = do text ← text_of term; print text

  unfoldable tagged_print : (ℕ → Op w (Unit {0})) → ℕ → Op w (Unit {0})
  unfolding tag_value tuple_print list_print string_print signed_digits
  tagged_print show term =
      let tag = owl_tag_of term in
      if tag == tag_value OwlTag.int
      then print (signed_digits (int_from_owl_int term))
      else if tag == tag_value OwlTag.tuple
      then tuple_print show term
      else if tag == tag_value OwlTag.list
      then list_print show term
      else if tag == tag_value OwlTag.string
      then string_print term
      else if tag == tag_value OwlTag.function
      then (do name ← owl_function_name term; string_print name)
      else print (b'?' ∷ b'?' ∷ b'?' ∷ [])

  unfoldable pub owl_term_print : ℕ → ℕ → Op w (Unit {0})
  unfolding tagged_print
  owl_term_print zero term = lift out_of_fuel
  owl_term_print (suc fuel) term =
      let rest = tagged_print (owl_term_print fuel) term in
      if term == owl_true
      then print text_true
      else if term == owl_false
      then print text_false
      else if term == owl_nil
      then print text_nil
      else rest

  -- `owl_list_print` of vm/src/std/owl_list.c; NULL is printed as the word 0.
  unfoldable owl_list_print : ℕ → ℕ → Op w (Unit {0})
  unfolding rrb_of_list each_below print owl_term_print word_or_null
  owl_list_print fuel list = do
    rrb ← rrb_of_list list
    print (b'[' ∷ [])
    _ ←
        each_below (rrb_count rrb) 0
          (λ i acc. do
            elem ← lift (rrb_nth rrb i)
            owl_term_print fuel (word_or_null elem)
            (if i == sub32 (rrb_count rrb) 1 then pure tt else print (b',' ∷ []))
            pure acc)
          0
    print (b']' ∷ 10 ∷ [])
