-- ===== src/Std/Lists/Trees.antt =====
-- The lists of the language with trees of any form, as operations on terms in
-- vm/src/std/owl_list.c.
use owlang.Base.{
  ℕ, ◌%◌, ◌^◌, ◌≤◌, ◌<◌, ◌≡◌, refl, sym, arith, ◌∙◌, List, length, get_elem?, length-append,
}
use owlang.Base.Outcome.{done}
use owlang.World.{World}
use owlang.Term.{owl_extract_ptr, owl_int_from, int_from_owl_int}
use owlang.Rrb.{Rrb}
use owlang.Rrb.View.{node_list, rrb_list}
use owlang.Rrb.Tree.Invariant.{IsTree}
use owlang.Rrb.Tree.Nth.{rrb_nth-elements}
use owlang.Vm.{Vm}
use owlang.Vm.Memory.{load_rrb}
use owlang.Std.Lists.{or_nil, owl_list_nth, owl_list_count}

count-elements : (r : Rrb) → IsTree r → r.cnt ≡ length (rrb_list r)
unfolding rrb_list
count-elements r t = t.cnt ∙ sym (length-append (node_list r.root) r.tail)

module _ {w : World} where
  -- A term is a list with these elements, whatever its tree.
  pub record HoldsTree (vm : Vm w) (list : ℕ) (xs : List ℕ) : Type 0 where
    pub rrb : Rrb
    pub loaded : load_rrb (owl_extract_ptr list) vm ≡ done rrb
    pub tree : IsTree rrb
    pub elements : rrb_list rrb ≡ xs

  -- On a list with a tree of any form, of height up to six, `owl_list_nth` at an index below 2 ^ 32 is the element there,
  -- nil past the end and for a word 0, and `owl_list_count` the number of elements; neither changes
  -- the machine.
  pub owl_list_nth-HoldsTree :
      (vm : Vm w) (list index : ℕ) (xs : List ℕ) (h : HoldsTree vm list xs)
      → h.tree.height ≤ 6
      → int_from_owl_int index < 2 ^ 32
      → (owl_list_nth list index vm ≡ done (or_nil (get_elem? xs (int_from_owl_int index)), vm))
        × (owl_list_count list vm ≡ done (owl_int_from (length xs), vm))
  unfolding owl_list_nth owl_list_count
  owl_list_nth-HoldsTree vm list index xs h top small =
      let whole : int_from_owl_int index % 2 ^ 32 ≡ int_from_owl_int index = omega arith in
      (
        rw (h.loaded, whole, rrb_nth-elements h.tree top (int_from_owl_int index), h.elements) refl,
        rw (h.loaded, count-elements h.rrb h.tree, h.elements) refl,
      )
