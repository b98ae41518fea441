-- ===== src/Term/Words.antt =====
-- The words of term.h: tags, integers and truth values.
use owlang.Base.{ℕ, ◌%◌, ◌^◌, ◌<◌, ◌≡◌, arith}
use owlang.Term.{
  OwlTag, tag_value, word, owl_extract_ptr, owl_tag_of, owl_tag_as, owl_int_from, int_from_owl_int,
}

tag_value-lt : (tag : OwlTag) → tag_value tag < 6
unfolding tag_value
tag_value-lt OwlTag.pointer = omega arith
tag_value-lt _ = omega arith

-- An address below 2 ^ 61 and its tag are both read back from the tagged word, which fits 64 bits.
pub owl_tag_as_fields :
    (ptr : ℕ) (tag : OwlTag)
    → ptr < 2 ^ 61
    → (owl_extract_ptr (owl_tag_as ptr tag) ≡ ptr)
      × (owl_tag_of (owl_tag_as ptr tag) ≡ tag_value tag)
      × (owl_tag_as ptr tag < word)
unfolding owl_extract_ptr owl_tag_of owl_tag_as
owl_tag_as_fields ptr tag h = (
  omega (arith, tag_value-lt tag),
  omega (arith, tag_value-lt tag),
  omega (arith, tag_value-lt tag),
)

-- Integers are kept modulo 2 ^ 61, whatever 64-bit value is stored.
pub int_from_owl_int_from : (n : ℕ) → int_from_owl_int (owl_int_from n) ≡ n % 2 ^ 61
unfolding int_from_owl_int owl_int_from
int_from_owl_int_from n = omega arith
