-- ===== src/Std/Terms/Keeps.antt =====
-- What the conversion and the joining of terms in vm/src/term.c keep of the machine.
use owlang.Base.{ℕ, zero, suc, ◌+◌, ◌%◌, Bool, true, false, length, leb, ltb, ◌==◌}
use owlang.Base.Outcome
use owlang.Base.Outcome.{done}
use owlang.World.{World}
use owlang.Term.{
  OwlTag, tag_value, owl_extract_ptr, owl_tag_of, owl_int_from, int_from_owl_int, owl_true,
  owl_false, owl_nil,
}
use owlang.Rrb.{read}
use owlang.Vm.{Vm, Op, ◌>>=◌, pure}
use owlang.Vm.Memory.{load_tuple}
use owlang.Vm.Memory.Keeps.{alloc_object-Keeps}
use owlang.Vm.Keeps.{
  Keeps, bind-Keeps, pure-Keeps, reads-Keeps, if-Keeps, stops-Keeps, starves-Keeps,
}
use owlang.Vm.Stable.{Stable}
use owlang.Std.Strings.Keeps.{owl_string_concat-Keeps}
use owlang.Std.Functions.Keeps.{owl_function_name-Keeps}
use owlang.Std.Lists.Keeps.{owl_list_concat-Keeps, owl_list_count-Keeps, owl_list_nth-Keeps}
use owlang.Std.Equality.{words, u8_rounds}
use owlang.Std.Terms.{
  each_u8, each_below, owl_concat, owl_tuple_nth, words_of, tuple_to_string, list_to_string,
  int_to_string, tagged_to_string, owl_term_to_string, int_max_digits, literal_term, bracket_open,
}

module _ {w : World} {P : Vm w → Type 0} where
  pub owl_tuple_nth-Keeps : (tuple index : ℕ) → Keeps P (owl_tuple_nth tuple index)
  unfolding owl_tuple_nth
  owl_tuple_nth-Keeps tuple index =
      bind-Keeps (reads-Keeps (load_tuple (owl_extract_ptr tuple))) λ ary.
        if-Keeps (ltb index (length ary)) (reads-Keeps (λ vm. read (words ary) (index + 1)))
          (pure-Keeps owl_nil)

  pub words_of-Keeps : (term : ℕ) → Keeps P (words_of term)
  unfolding words_of
  words_of-Keeps term =
      reads-Keeps (λ vm. Outcome.bind (load_tuple (owl_extract_ptr term) vm) λ xs. done (words xs))

  -- A loop keeps what its body keeps.
  module _ (body : ℕ → ℕ → Op w ℕ) (keeps : (i acc : ℕ) → Keeps P (body i acc)) where
    u8_round-Keeps :
        (more : Bool) (i acc : ℕ) (rest : ℕ → Op w ℕ)
        → ((acc : ℕ) → Keeps P (rest acc))
        → Keeps P (elim more as (λ _. Op w ℕ) [ true ↦ body i acc >>= rest | false ↦ pure acc ])
    u8_round-Keeps true i acc rest more = bind-Keeps (keeps i acc) more
    u8_round-Keeps false i acc rest more = pure-Keeps acc

    pub each_u8-Keeps : (fuel i size acc : ℕ) → Keeps P (each_u8 fuel i size body acc)
    unfolding each_u8
    each_u8-Keeps zero i size acc = starves-Keeps
    each_u8-Keeps (suc fuel) i size acc =
        u8_round-Keeps (leb i size) i acc (each_u8 fuel ((i + 1) % 256) size body)
          (each_u8-Keeps fuel ((i + 1) % 256) size)

    pub each_below-Keeps : (rest i acc : ℕ) → Keeps P (each_below rest i body acc)
    unfolding each_below
    each_below-Keeps zero i acc = pure-Keeps acc
    each_below-Keeps (suc rest) i acc =
        bind-Keeps (keeps i acc) λ acc'. each_below-Keeps rest (i + 1) acc'

module _ {w : World} {P : Vm w → Type 0} (s : Stable P) where
  pub owl_concat-Keeps : (left right : ℕ) → Keeps P (owl_concat left right)
  unfolding owl_concat
  owl_concat-Keeps left right =
      if-Keeps (owl_tag_of left == owl_tag_of right)
        (if-Keeps (owl_tag_of left == tag_value OwlTag.string)
          (owl_string_concat-Keeps s left right)
          (if-Keeps (owl_tag_of left == tag_value OwlTag.list) (owl_list_concat-Keeps s left right)
            stops-Keeps))
        stops-Keeps

  module _ (render : ℕ → Op w ℕ) (keeps : (term : ℕ) → Keeps P (render term)) where
    tuple_to_string-Keeps : (term : ℕ) → Keeps P (tuple_to_string render term)
    unfolding tuple_to_string
    tuple_to_string-Keeps term = bind-Keeps (words_of-Keeps term) λ ary.
        bind-Keeps (reads-Keeps (λ vm. read ary 0)) λ size.
          each_u8-Keeps _
            (λ i buffer.
              bind-Keeps (reads-Keeps (λ vm. read ary i))
                λ elem. bind-Keeps (keeps elem) λ text. owl_concat-Keeps buffer text)
            u8_rounds 1 (size % 256) _

    list_to_string-Keeps : (term : ℕ) → Keeps P (list_to_string render term)
    unfolding list_to_string
    list_to_string-Keeps term = bind-Keeps (owl_list_count-Keeps term) λ count.
        bind-Keeps
          (each_below-Keeps _
            (λ i buffer. bind-Keeps (owl_list_nth-Keeps term (owl_int_from i)) λ elem.
              bind-Keeps (keeps elem) λ text.
                bind-Keeps (owl_string_concat-Keeps s buffer text) λ joined.
                  if-Keeps (i + 1 == int_from_owl_int count) (pure-Keeps joined)
                    (owl_string_concat-Keeps s joined _))
            (int_from_owl_int count) 0 (literal_term w bracket_open))
          λ buffer. owl_string_concat-Keeps s buffer _

    int_to_string-Keeps : (term : ℕ) → Keeps P (int_to_string {w = w} term)
    unfolding int_to_string
    int_to_string-Keeps term =
        bind-Keeps (alloc_object-Keeps s (int_max_digits + 1) _) λ ptr. pure-Keeps _

    tagged_to_string-Keeps : (term : ℕ) → Keeps P (tagged_to_string render term)
    unfolding tagged_to_string
    tagged_to_string-Keeps term =
        if-Keeps (owl_tag_of term == tag_value OwlTag.int) (int_to_string-Keeps term) (
          if-Keeps (owl_tag_of term == tag_value OwlTag.tuple) (tuple_to_string-Keeps term) (
            if-Keeps (owl_tag_of term == tag_value OwlTag.list) (list_to_string-Keeps term) (
              if-Keeps (owl_tag_of term == tag_value OwlTag.string) (pure-Keeps term) (
                if-Keeps (owl_tag_of term == tag_value OwlTag.function)
                  (owl_function_name-Keeps term) stops-Keeps))))

  pub owl_term_to_string-Keeps : (fuel term : ℕ) → Keeps P (owl_term_to_string fuel term)
  unfolding owl_term_to_string
  owl_term_to_string-Keeps zero term = starves-Keeps
  owl_term_to_string-Keeps (suc fuel) term = if-Keeps (term == owl_true) (pure-Keeps _) (
      if-Keeps (term == owl_false) (pure-Keeps _) (
        if-Keeps (term == owl_nil) (pure-Keeps _)
          (tagged_to_string-Keeps (owl_term_to_string fuel) (owl_term_to_string-Keeps fuel) term)))
