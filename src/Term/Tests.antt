-- ===== src/Term/Tests.antt =====
-- Words at concrete values.
use owlang.Base.{◌≡◌, arith, ◌<◌, ◌+◌, ◌^◌}
use owlang.Term.{
  OwlTag, tag_value, word, owl_extract_ptr, owl_tag_of, owl_tag_as, owl_int_from, int_from_owl_int,
}
use owlang.Term.Words.{owl_tag_as_fields, int_from_owl_int_from}

owl_tag_as_fields_example :
    (owl_extract_ptr (owl_tag_as 4096 OwlTag.list) ≡ 4096)
    × (owl_tag_of (owl_tag_as 4096 OwlTag.list) ≡ tag_value OwlTag.list)
    × (owl_tag_as 4096 OwlTag.list < word)
owl_tag_as_fields_example = owl_tag_as_fields 4096 OwlTag.list (omega arith)

int_from_owl_int_from_example : int_from_owl_int (owl_int_from (2 ^ 61 + 5)) ≡ 5
int_from_owl_int_from_example = int_from_owl_int_from (2 ^ 61 + 5)
