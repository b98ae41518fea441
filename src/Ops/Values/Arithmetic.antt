-- ===== src/Ops/Values/Arithmetic.antt =====
-- What `op_add`, `op_sub` and `op_greater_than` of vm/src/opcodes.c compute on words.
use owlang.Base.{ℕ, ◌+◌, ◌-◌, ◌%◌, ◌^◌, ◌<◌, ◌≡◌, ◌↔◌, arith, true}
use owlang.Term.{word, owl_tag_of, owl_int_from, int_from_owl_int, owl_bool, owl_term_truthy}
use owlang.Ops.Values.{add_terms, sub_terms, greater_than}

-- Sums and differences of integers are taken modulo 2 ^ 61, and are integers again.
pub add_sub_terms_lem :
    (a b : ℕ)
    → a < word
    → b < word
    → (int_from_owl_int (add_terms a b) ≡ (int_from_owl_int a + int_from_owl_int b) % 2 ^ 61)
      × (int_from_owl_int (sub_terms a b)
          ≡ (int_from_owl_int a + 2 ^ 61 - int_from_owl_int b) % 2 ^ 61)
      × (owl_tag_of (add_terms a b) ≡ 1)
      × (owl_tag_of (sub_terms a b) ≡ 1)
unfolding add_terms sub_terms owl_int_from int_from_owl_int owl_tag_of
add_sub_terms_lem a b ha hb = (omega arith, omega arith, omega arith, omega arith)

-- Subtracting what was added gives an integer term back, also where the sum has wrapped.
pub sub-add : (a b : ℕ) → a < word → b < word → owl_tag_of a ≡ 1 → sub_terms (add_terms a b) b ≡ a
unfolding add_terms sub_terms owl_int_from int_from_owl_int owl_tag_of
sub-add a b ha hb t = omega arith

-- The comparison of two terms is that of their numbers without sign, and a test reads its result so.
pub greater_than_iff :
    (a b : ℕ)
    → (owl_term_truthy (greater_than a b) ≡ true) ↔ (int_from_owl_int b < int_from_owl_int a)
unfolding greater_than owl_bool owl_term_truthy
greater_than_iff a b = ground arith

-- A smaller integer minus a greater one, their sum being below 2 ^ 61, is greater than the smaller
-- one: there are no negative integers.
pub sub-wraps :
    (a b : ℕ)
    → a < word
    → b < word
    → int_from_owl_int a < int_from_owl_int b
    → int_from_owl_int a + int_from_owl_int b < 2 ^ 61
    → owl_term_truthy (greater_than (sub_terms a b) a) ≡ true
unfolding greater_than owl_bool owl_term_truthy sub_terms owl_int_from int_from_owl_int
sub-wraps a b ha hb h k = ground arith
