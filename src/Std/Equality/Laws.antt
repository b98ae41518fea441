-- ===== src/Std/Equality/Laws.antt =====
-- Laws of `owl_terms_eq` of vm/src/term.c.
use owlang.Base.{
  ℕ, zero, suc, ◌+◌, ◌%◌, ◌^◌, ◌*◌, ◌≤◌, ◌<◌, ◌≡◌, refl, sym, arith, Bool, true, false, List, [],
  ◌∷◌, length, leb, ◌==◌, if◌then◌else◌, Bool-cases, inl, inr,
}
use owlang.Base.Outcome.{Outcome, done, fault, ◌>>=◌}
use owlang.World.{World}
use owlang.Term.{OwlTag, tag_value, owl_extract_ptr, owl_tag_of, owl_tag_as, owl_true, owl_false}
use owlang.Rrb.{Rrb, rrb_count, read}
use owlang.Vm.{Vm}
use owlang.Vm.Memory.{load_tuple, load_rrb, load_string}
use owlang.Std.Equality.{
  same_bytes, all_u8, u8_rounds, all_below, nth_word, words, tuples_eq, owl_list_eq, same_tag_eq,
  owl_terms_eq,
}

same_bytes_sym : (xs ys : List ℕ) → same_bytes xs ys ≡ same_bytes ys xs
unfolding same_bytes
same_bytes_sym [] [] = refl
same_bytes_sym [] (y ∷ ys) = refl
same_bytes_sym (x ∷ xs) [] = refl
same_bytes_sym (x ∷ xs) (y ∷ ys) = ground (arith, same_bytes_sym xs ys)

-- The answer of `test'` wherever `test` gives one.
abbrev Agrees : (ℕ → Outcome Bool) → (ℕ → Outcome Bool) → Type 0
Agrees test test' = (i : ℕ) (b : Bool) → test i ≡ done b → test' i ≡ done b

bind-eq-done {ℓ κ} :
    {A : Type ℓ} {B : Type κ} (m : Outcome A) (f : A → Outcome B) {b : B}
    → (m >>= f) ≡ done b
    → (a : A) × (m ≡ done a) × (f a ≡ done b)
bind-eq-done (done a) f h = (a, refl, h)
bind-eq-done _ f h = cc

-- The test of a loop's round may be replaced too.
round-agrees :
    (m m' rest rest' : Outcome Bool) (b : Bool)
    → ((r : Bool) → m ≡ done r → m' ≡ done r)
    → (rest ≡ done b → rest' ≡ done b)
    → (m >>= λ r. if r then rest else done false) ≡ done b
    → (m' >>= λ r. if r then rest' else done false) ≡ done b
round-agrees m m' rest rest' b same more h =
    let (r, e, k) = bind-eq-done m _ h in rw (same r e) (if_agrees r rest rest' b more k)
  where
    if_agrees :
        (r : Bool) (rest rest' : Outcome Bool) (b : Bool)
        → (rest ≡ done b → rest' ≡ done b)
        → (if r then rest else done false) ≡ done b
        → (if r then rest' else done false) ≡ done b
    if_agrees true rest rest' b more k = more k
    if_agrees false rest rest' b more k = k

all_below-Agrees :
    (n i : ℕ) (test test' : ℕ → Outcome Bool) (b : Bool)
    → Agrees test test'
    → all_below n i test ≡ done b
    → all_below n i test' ≡ done b
unfolding all_below
all_below-Agrees zero i test test' b same h = h
all_below-Agrees (suc n) i test test' b same h =
    round-agrees (test i) (test' i) _ _ b (same i) (all_below-Agrees n (i + 1) test test' b same) h

all_u8-Agrees :
    (n i size : ℕ) (test test' : ℕ → Outcome Bool) (b : Bool)
    → Agrees test test'
    → all_u8 n i size test ≡ done b
    → all_u8 n i size test' ≡ done b
unfolding all_u8
all_u8-Agrees zero i size test test' b same = λ h. h
all_u8-Agrees (suc n) i size test test' b same = elim (Bool-cases (leb i size)) [
  | inl more ↦ rw more (
      round-agrees (test i) (test' i) _ _ b (same i)
        (all_u8-Agrees n ((i + 1) % 256) size test test' b same))
  | inr stop ↦ rw stop (λ h. h)
]

-- Two reads and a comparison, the other way round.
swap-reads {ℓ} :
    {A : Type ℓ} (l r : Outcome A) (eq : A → A → Outcome Bool) (b : Bool)
    → ((x y : A) (b : Bool) → eq x y ≡ done b → eq y x ≡ done b)
    → (l >>= λ x. r >>= λ y. eq x y) ≡ done b
    → (r >>= λ y. l >>= λ x. eq y x) ≡ done b
swap-reads l r eq b sym_eq h =
    let (x, ex, h₁) = bind-eq-done l _ h in
    let (y, ey, h₂) = bind-eq-done r _ h₁ in rw (ey, ex) (sym_eq x y b h₂)

abbrev IsSymmetric : (ℕ → ℕ → Outcome Bool) → Type 0
IsSymmetric eq = (x y : ℕ) (b : Bool) → eq x y ≡ done b → eq y x ≡ done b

loop-swap :
    (eq : ℕ → ℕ → Outcome Bool)
    → IsSymmetric eq
    → (xs ys : List ℕ)
    → Agrees
        (λ i. read xs i >>= λ l. read ys i >>= λ r. eq l r)
        (λ i. read ys i >>= λ l. read xs i >>= λ r. eq l r)
loop-swap eq s xs ys i b = swap-reads (read xs i) (read ys i) eq b s

tuples_eq_sym :
    (eq : ℕ → ℕ → Outcome Bool)
    → IsSymmetric eq
    → (xs ys : List ℕ) (b : Bool) → tuples_eq eq xs ys ≡ done b
    → tuples_eq eq ys xs ≡ done b
unfolding tuples_eq
tuples_eq_sym eq s xs ys b = elim (Bool-cases (length xs % 256 == length ys % 256)) [
  | inl same ↦
      let same' : (length ys % 256 == length xs % 256) ≡ true = ground arith in
      let sizes : length xs % 256 ≡ length ys % 256 = ground arith in
      rw (same, same')
        (λ h. rw (sym sizes) (
          all_u8-Agrees u8_rounds 1 (length xs % 256) _ _ b (loop-swap eq s (words xs) (words ys))
            h))
  | inr other ↦
      let other' : (length ys % 256 == length xs % 256) ≡ false = ground arith in
      rw (other, other') (λ h. h)
]

all_below-Agrees_at :
    (n m : ℕ) (test test' : ℕ → Outcome Bool) (b : Bool)
    → m ≡ n
    → Agrees test test'
    → all_below n 0 test ≡ done b
    → all_below m 0 test' ≡ done b
all_below-Agrees_at n m test test' b e same h = rw e (all_below-Agrees n 0 test test' b same h)

list_loop-swap :
    (eq : ℕ → ℕ → Outcome Bool)
    → IsSymmetric eq
    → (l r : Rrb)
    → Agrees
        (λ i. nth_word l i >>= λ x. nth_word r i >>= λ y. eq x y)
        (λ i. nth_word r i >>= λ x. nth_word l i >>= λ y. eq x y)
list_loop-swap eq s l r i b = swap-reads (nth_word l i) (nth_word r i) eq b s

owl_list_eq_sym :
    (eq : ℕ → ℕ → Outcome Bool)
    → IsSymmetric eq
    → (l r : Rrb) (b : Bool) → owl_list_eq eq l r ≡ done b
    → owl_list_eq eq r l ≡ done b
unfolding owl_list_eq
owl_list_eq_sym eq s l r b = elim (Bool-cases (rrb_count l == rrb_count r)) [
  | inl same ↦
      let same' : (rrb_count r == rrb_count l) ≡ true = ground arith in
      let sizes : rrb_count r ≡ rrb_count l = ground arith in
      rw (same, same')
        (all_below-Agrees_at (rrb_count l) (rrb_count r) _ _ b sizes (list_loop-swap eq s l r))
  | inr other ↦
      let other' : (rrb_count r == rrb_count l) ≡ false = ground arith in
      rw (other, other') (λ h. h)
]

if-agrees :
    (t : Bool) (x x' y y' : Outcome Bool) (b : Bool)
    → (x ≡ done b → x' ≡ done b)
    → (y ≡ done b → y' ≡ done b)
    → (if t then x else y) ≡ done b
    → (if t then x' else y') ≡ done b
if-agrees true x x' y y' b f g = f
if-agrees false x x' y y' b f g = g

module _ {w : World} (vm : Vm w) where
  same_tag_eq_sym :
      (eq : ℕ → ℕ → Outcome Bool)
      → IsSymmetric eq
      → (l r : ℕ) (b : Bool) → owl_tag_of r ≡ owl_tag_of l
      → same_tag_eq eq l r vm ≡ done b
      → same_tag_eq eq r l vm ≡ done b
  unfolding same_tag_eq
  same_tag_eq_sym eq s l r b tags = rw (tags) (
      if-agrees (owl_tag_of l == tag_value OwlTag.tuple) _ _ _ _ b
        (swap-reads (load_tuple (owl_extract_ptr l) vm) (load_tuple (owl_extract_ptr r) vm) _ b
          (tuples_eq_sym eq s))
        (if-agrees (owl_tag_of l == tag_value OwlTag.list) _ _ _ _ b
          (swap-reads (load_rrb (owl_extract_ptr l) vm) (load_rrb (owl_extract_ptr r) vm) _ b
            (owl_list_eq_sym eq s))
          (if-agrees (owl_tag_of l == tag_value OwlTag.string) _ _ _ _ b
            (swap-reads (load_string (owl_extract_ptr l) vm) (load_string (owl_extract_ptr r) vm)
              (λ x y. done (same_bytes x y)) b (λ x y c h. rw (same_bytes_sym y x) h))
            (λ h. h))))

  -- The order of the two terms does not matter to `owl_terms_eq`: where it gives an answer, it gives
  -- the same answer with the terms the other way round.
  pub owl_terms_eq_sym :
      (fuel l r : ℕ) (b : Bool)
      → owl_terms_eq fuel l r vm ≡ done b
      → owl_terms_eq fuel r l vm ≡ done b
  unfolding owl_terms_eq
  owl_terms_eq_sym zero l r b = λ h. h
  owl_terms_eq_sym (suc fuel) l r b = elim (Bool-cases (l == r)) [
    | inl same ↦ let same' : (r == l) ≡ true = ground arith in rw (same, same') (λ h. h)
    | inr other ↦
        let other' : (r == l) ≡ false = ground arith in
        rw (other, other')
          (elim (Bool-cases (owl_tag_of l == owl_tag_of r)) [
            | inl tags ↦
                let tags' : (owl_tag_of r == owl_tag_of l) ≡ true = ground arith in
                rw (tags, tags')
                  (same_tag_eq_sym (λ x y. owl_terms_eq fuel x y vm) (owl_terms_eq_sym fuel) l r b
                    (ground arith))
            | inr tags ↦
                let tags' : (owl_tag_of r == owl_tag_of l) ≡ false = ground arith in
                rw (tags, tags') (λ h. h)
          ])
  ]

  -- Comparing `false` with a tuple, or `true` with a text, reads through NULL: `false` has the tag of
  -- tuples and `true` the tag of texts, and the address in either is 0.
  pub owl_terms_eq-bool_fault :
      (fuel p : ℕ)
      → 1 ≤ p
      → p < 2 ^ 61
      → (owl_terms_eq (suc fuel) owl_false (owl_tag_as p OwlTag.tuple) vm ≡ fault)
        × (owl_terms_eq (suc fuel) owl_true (owl_tag_as p OwlTag.string) vm ≡ fault)
  unfolding owl_terms_eq same_tag_eq owl_tag_as owl_tag_of owl_extract_ptr load_tuple load_string
  owl_terms_eq-bool_fault fuel p low high =
      let not_false : (2 == p * 8 % 2 ^ 64 + 2) ≡ false = ground arith in
      let not_true : (4 == p * 8 % 2 ^ 64 + 4) ≡ false = ground arith in
      let tuple_tag : (p * 8 % 2 ^ 64 + 2) % 8 ≡ 2 = omega arith in
      let string_tag : (p * 8 % 2 ^ 64 + 4) % 8 ≡ 4 = omega arith in
      (rw (not_false, tuple_tag) refl, rw (not_true, string_tag) refl)
