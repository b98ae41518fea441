-- ===== src/Std/Terms.antt =====
-- The operations of vm/src/term.c but `owl_terms_eq` and `owl_term_print`.
pub mod Print
pub mod Keeps
use owlang.Base.{
  ℕ, zero, suc, ◌+◌, ◌-◌, ◌/◌, ◌%◌, ◌^◌, true, false, List, [], ◌∷◌, ◌++◌, length, ltb, leb, ◌==◌,
  if◌then◌else◌,
}
use owlang.Base.Outcome
use owlang.Base.Outcome.{Outcome, done, out_of_fuel}
use owlang.World.{World}
use owlang.Term.{
  OwlTag, tag_value, owl_extract_ptr, owl_tag_of, owl_int_from, int_from_owl_int, owl_true,
  owl_false, owl_nil,
}
use owlang.Rrb.{read}
use owlang.Vm.{Op, Object, ◌>>=◌, ◌>>◌, pure, lift, die}
use owlang.Vm.Memory.{load_tuple, alloc_object}
use owlang.Std.Strings.{owl_string_from, owl_string_concat, text_of}
use owlang.Std.Functions.{owl_function_name}
use owlang.Std.Lists.{owl_list_concat, owl_list_count, owl_list_nth}
use owlang.Std.Equality.{words, u8_rounds}

-- `%llu` and `%d` of a number that is not negative
unfoldable digits : ℕ → ℕ → List ℕ
digits zero n = []
digits (suc fuel) n =
    let rest = digits fuel (n / 10) in
    if ltb n 10 then (b'0' + n) ∷ [] else rest ++ (b'0' + n % 10) ∷ []

-- `INT_MAX_DIGITS`
abbrev int_max_digits : ℕ
int_max_digits = 20

-- `printf("%d", (int) val)`
unfoldable signed_digits : ℕ → List ℕ
unfolding digits
signed_digits val =
    let low = val % 2 ^ 32 in
    if ltb low (2 ^ 31)
    then digits int_max_digits low
    else b'-' ∷ digits int_max_digits (2 ^ 32 - low)

abbrev text_true : List ℕ
text_true = b't' ∷ b'r' ∷ b'u' ∷ b'e' ∷ []

abbrev text_false : List ℕ
text_false = b'f' ∷ b'a' ∷ b'l' ∷ b's' ∷ b'e' ∷ []

abbrev text_nil : List ℕ
text_nil = b'n' ∷ b'i' ∷ b'l' ∷ []

abbrev separator : List ℕ
separator = b',' ∷ b' ' ∷ []

abbrev bracket_open : List ℕ
bracket_open = b'[' ∷ []

abbrev bracket_close : List ℕ
bracket_close = b']' ∷ []

-- A literal of the source as a term.
abbrev literal_term : World → List ℕ → ℕ
literal_term w text = owl_string_from (w.literal text)

unfoldable type_name : ℕ → List ℕ
unfolding tag_value
type_name tag =
    if tag == 0
    then b'P' ∷ b'o' ∷ b'i' ∷ b'n' ∷ b't' ∷ b'e' ∷ b'r' ∷ []
    else if tag == 1
    then b'I' ∷ b'n' ∷ b't' ∷ []
    else if tag == 2
    then b'T' ∷ b'u' ∷ b'p' ∷ b'l' ∷ b'e' ∷ []
    else if tag == 3
    then b'L' ∷ b'i' ∷ b's' ∷ b't' ∷ []
    else if tag == 4
    then b'S' ∷ b't' ∷ b'r' ∷ b'i' ∷ b'n' ∷ b'g' ∷ []
    else if tag == 5
    then b'F' ∷ b'u' ∷ b'n' ∷ b'c' ∷ b't' ∷ b'i' ∷ b'o' ∷ b'n' ∷ []
    else b'U' ∷ b'n' ∷ b'k' ∷ b'n' ∷ b'o' ∷ b'w' ∷ b'n' ∷ []

unfoldable owl_type_of : World → ℕ → ℕ
unfolding type_name
owl_type_of w term = literal_term w (type_name (owl_tag_of term))

module _ {w : World} where
  -- `for(uint8_t i = …; i <= size; i++)` on fuel, `acc` being what the rounds change
  unfoldable each_u8 : ℕ → ℕ → ℕ → (ℕ → ℕ → Op w ℕ) → ℕ → Op w ℕ
  each_u8 zero i size body acc = lift out_of_fuel
  each_u8 (suc fuel) i size body acc = elim (leb i size) [
    | true ↦ body i acc >>= each_u8 fuel ((i + 1) % 256) size body
    | false ↦ pure acc
  ]

  -- `for (uint64_t i = …; i < count; i++)` with `rest` rounds left
  unfoldable each_below : ℕ → ℕ → (ℕ → ℕ → Op w ℕ) → ℕ → Op w ℕ
  each_below zero i body acc = pure acc
  each_below (suc rest) i body acc = body i acc >>= each_below rest (i + 1) body

  unfoldable pub owl_concat : ℕ → ℕ → Op w ℕ
  unfolding tag_value
  owl_concat left right =
      if owl_tag_of left == owl_tag_of right
      then if owl_tag_of left == tag_value OwlTag.string
        then owl_string_concat left right
        else if owl_tag_of left == tag_value OwlTag.list
        then owl_list_concat left right
        else die
      else die

  -- The index has been cut to 8 bits.
  unfoldable pub owl_tuple_nth : ℕ → ℕ → Op w ℕ
  unfolding load_tuple read
  owl_tuple_nth tuple index = do
    ary ← λ vm. lift (load_tuple (owl_extract_ptr tuple) vm) vm
    if ltb index (length ary) then lift (read (words ary) (index + 1)) else pure owl_nil

  -- `(owl_term*) owl_extract_ptr(term)`
  unfoldable words_of : ℕ → Op w (List ℕ)
  unfolding load_tuple
  words_of term vm =
      lift (Outcome.bind (load_tuple (owl_extract_ptr term) vm) λ xs. done (words xs)) vm

  -- The texts of the elements of a tuple, joined.
  unfoldable tuple_to_string : (ℕ → Op w ℕ) → ℕ → Op w ℕ
  unfolding words_of each_u8 read
  tuple_to_string render term = do
    ary ← words_of term
    size ← lift (read ary 0)
    each_u8 u8_rounds 1 (size % 256)
        (λ i buffer. do elem ← lift (read ary i); text ← render elem; owl_concat buffer text)
        (literal_term w [])

  unfoldable list_to_string : (ℕ → Op w ℕ) → ℕ → Op w ℕ
  unfolding each_below
  list_to_string render term = do
    count ← owl_list_count term
    buffer ←
        each_below (int_from_owl_int count) 0
          (λ i buffer. do
            elem ← owl_list_nth term (owl_int_from i)
            text ← render elem
            joined ← owl_string_concat buffer text
            if i + 1 == int_from_owl_int count
                then pure joined
                else owl_string_concat joined (literal_term w separator))
          (literal_term w bracket_open)
    owl_string_concat buffer (literal_term w bracket_close)

  -- `sprintf` into a block of `INT_MAX_DIGITS + 1` bytes
  unfoldable int_to_string : ℕ → Op w ℕ
  unfolding digits
  int_to_string term = do
    ptr ←
        alloc_object (int_max_digits + 1)
          (Object.string (digits int_max_digits (int_from_owl_int term)))
    pure (owl_string_from ptr)

  -- The `switch` over the tag, `render` being the recursive call.
  unfoldable tagged_to_string : (ℕ → Op w ℕ) → ℕ → Op w ℕ
  unfolding tag_value int_to_string tuple_to_string list_to_string
  tagged_to_string render term =
      let tag = owl_tag_of term in
      if tag == tag_value OwlTag.int
      then int_to_string term
      else if tag == tag_value OwlTag.tuple
      then tuple_to_string render term
      else if tag == tag_value OwlTag.list
      then list_to_string render term
      else if tag == tag_value OwlTag.string
      then pure term
      else if tag == tag_value OwlTag.function
      then owl_function_name term
      else die

  -- `fuel` bounds how deep the term is nested.
  unfoldable pub owl_term_to_string : ℕ → ℕ → Op w ℕ
  unfolding tagged_to_string
  owl_term_to_string zero term = lift out_of_fuel
  owl_term_to_string (suc fuel) term =
      let rest = tagged_to_string (owl_term_to_string fuel) term in
      if term == owl_true
      then pure (literal_term w text_true)
      else if term == owl_false
      then pure (literal_term w text_false)
      else if term == owl_nil
      then pure (literal_term w text_nil)
      else rest
