-- ===== src/Std/Terms/Print/Keeps.antt =====
-- What printing in vm/src/term.c keeps of the machine.
use owlang.Base.{ℕ, zero, suc, ◌+◌, ◌%◌, List, ◌++◌, ◌==◌}
use owlang.World.{World}
use owlang.Term.{
  OwlTag, tag_value, owl_tag_of, owl_int_from, int_from_owl_int, owl_true, owl_false, owl_nil,
}
use owlang.Rrb.{read}
use owlang.Vm.{Vm, Op}
use owlang.Vm.Keeps.{Keeps, bind-Keeps, pure-Keeps, reads-Keeps, if-Keeps, starves-Keeps}
use owlang.Vm.Stable.{Stable}
use owlang.Std.Strings.Keeps.{text_of-Keeps}
use owlang.Std.Functions.Keeps.{owl_function_name-Keeps}
use owlang.Std.Lists.Keeps.{owl_list_count-Keeps, owl_list_nth-Keeps}
use owlang.Std.Equality.{u8_rounds}
use owlang.Std.Terms.{separator, bracket_close}
use owlang.Std.Terms.Keeps.{each_u8-Keeps, each_below-Keeps, words_of-Keeps}
use owlang.Std.Terms.Print.{
  print, tuple_print, list_print, string_print, tagged_print, owl_term_print,
}

module _ {w : World} {P : Vm w → Type 0} (s : Stable P) where
  print-Keeps : (text : List ℕ) → Keeps P (print text)
  unfolding print
  print-Keeps text = record { at = λ vm h. s.output vm (vm.stdout ++ text) h }

  string_print-Keeps : (term : ℕ) → Keeps P (string_print term)
  unfolding string_print
  string_print-Keeps term = bind-Keeps (text_of-Keeps term) λ text. print-Keeps text

  module _ (show : ℕ → Op w (Unit {0})) (keeps : (term : ℕ) → Keeps P (show term)) where
    tuple_print-Keeps : (term : ℕ) → Keeps P (tuple_print show term)
    unfolding tuple_print
    tuple_print-Keeps term = bind-Keeps (words_of-Keeps term) λ ary.
        bind-Keeps (reads-Keeps (λ vm. read ary 0)) λ size.
          bind-Keeps
            (each_u8-Keeps _
              (λ i acc. bind-Keeps (reads-Keeps (λ vm. read ary i)) λ elem.
                bind-Keeps (keeps elem) λ _.
                  bind-Keeps (if-Keeps (i == size % 256) (pure-Keeps tt) (print-Keeps separator))
                    λ _. pure-Keeps acc)
              u8_rounds 1 (size % 256) 0)
            λ _. pure-Keeps tt

    list_print-Keeps : (term : ℕ) → Keeps P (list_print show term)
    unfolding list_print
    list_print-Keeps term = bind-Keeps (owl_list_count-Keeps term) λ count.
        bind-Keeps (print-Keeps _) λ _.
          bind-Keeps
            (each_below-Keeps _
              (λ i acc. bind-Keeps (owl_list_nth-Keeps term (owl_int_from i)) λ elem.
                bind-Keeps (keeps elem) λ _.
                  bind-Keeps
                    (if-Keeps (i + 1 == int_from_owl_int count) (pure-Keeps tt)
                      (print-Keeps separator))
                    λ _. pure-Keeps acc)
              (int_from_owl_int count) 0 0)
            λ _. print-Keeps bracket_close

    tagged_print-Keeps : (term : ℕ) → Keeps P (tagged_print show term)
    unfolding tagged_print
    tagged_print-Keeps term = if-Keeps (owl_tag_of term == tag_value OwlTag.int) (print-Keeps _) (
        if-Keeps (owl_tag_of term == tag_value OwlTag.tuple) (tuple_print-Keeps term) (
          if-Keeps (owl_tag_of term == tag_value OwlTag.list) (list_print-Keeps term) (
            if-Keeps (owl_tag_of term == tag_value OwlTag.string) (string_print-Keeps term) (
              if-Keeps (owl_tag_of term == tag_value OwlTag.function)
                (bind-Keeps (owl_function_name-Keeps term) λ name. string_print-Keeps name)
                (print-Keeps _)))))

  pub owl_term_print-Keeps : (fuel term : ℕ) → Keeps P (owl_term_print fuel term)
  unfolding owl_term_print
  owl_term_print-Keeps zero term = starves-Keeps
  owl_term_print-Keeps (suc fuel) term = if-Keeps (term == owl_true) (print-Keeps _) (
      if-Keeps (term == owl_false) (print-Keeps _) (
        if-Keeps (term == owl_nil) (print-Keeps _)
          (tagged_print-Keeps (owl_term_print fuel) (owl_term_print-Keeps fuel) term)))
