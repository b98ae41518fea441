-- ===== src/Term.antt =====
-- vm/src/term.h: the macros on `owl_term`, a 64-bit word with a tag in its low three bits.
pub mod Words
mod Tests
use owlang.Base.{ℕ, ◌+◌, ◌-◌, ◌*◌, ◌/◌, ◌%◌, ◌^◌, Bool, ◌||◌, not, ◌==◌, if◌then◌else◌}

-- `owl_tag`: the enumerators with their values.
pub data OwlTag : Type 0 where
  pointer int tuple list string function : OwlTag

unfoldable pub tag_value : OwlTag → ℕ
tag_value OwlTag.pointer = 0
tag_value OwlTag.int = 1
tag_value OwlTag.tuple = 2
tag_value OwlTag.list = 3
tag_value OwlTag.string = 4
tag_value OwlTag.function = 5

-- `UINT64_MAX + 1`
abbrev pub word : ℕ
word = 2 ^ 64

-- `owl_extract_ptr(term)`: `term >> 3`
unfoldable pub owl_extract_ptr : ℕ → ℕ
owl_extract_ptr term = term / 8

-- `owl_tag_of(term)`: `term & 0x7`, as the number that the enum's values are compared with
unfoldable pub owl_tag_of : ℕ → ℕ
owl_tag_of term = term % 8

-- `owl_tag_as(term, tag)`: `(term << 3) | tag` on 64 bits; the three low bits of the shifted word
-- are zero, so that the `|` is a sum. Here the tag is a number, as `owl_tag_of` gives it.
unfoldable pub owl_tag_with : ℕ → ℕ → ℕ
owl_tag_with term tag = term * 8 % word + tag

unfoldable pub owl_tag_as : ℕ → OwlTag → ℕ
unfolding owl_tag_with tag_value
owl_tag_as term tag = owl_tag_with term (tag_value tag)

unfoldable pub owl_int_from : ℕ → ℕ
unfolding owl_tag_as
owl_int_from val = owl_tag_as val OwlTag.int

unfoldable pub int_from_owl_int : ℕ → ℕ
int_from_owl_int term = term / 8

abbrev pub owl_false : ℕ
owl_false = 2

abbrev pub owl_true : ℕ
owl_true = 4

abbrev pub owl_nil : ℕ
owl_nil = 6

unfoldable owl_term_falsey : ℕ → Bool
owl_term_falsey term = term == owl_false || term == owl_nil

unfoldable pub owl_term_truthy : ℕ → Bool
unfolding owl_term_falsey
owl_term_truthy term = not (owl_term_falsey term)

unfoldable pub owl_negate : ℕ → ℕ
unfolding owl_term_truthy
owl_negate term = if owl_term_truthy term then owl_false else owl_true

unfoldable pub owl_bool : Bool → ℕ
owl_bool val = if val then owl_true else owl_false
