-- ===== src/Std/Tests.antt =====
-- Comparisons at concrete machines.
use owlang.Base.{
  ◌+◌, ◌/◌, ◌<◌, ◌⊎◌, ◌≡◌, refl, arith, ◌==◌, if◌then◌else◌, true, some, none, [], ◌∷◌,
}
use owlang.Base.Outcome.{done, fault, exited}
use owlang.World.Tests.{test_world}
use owlang.Vm.Memory.{load_tuple}
use owlang.Term.{owl_tag_of, owl_extract_ptr, OwlTag, owl_tag_as, owl_true, owl_false}
use owlang.Vm.{Vm, Object}
use owlang.Vm.Tests.{machine_with}
use owlang.Rrb.{Rrb}
use owlang.Rrb.View.{rrb_list, node_list}
use owlang.Rrb.Built.{Shape, rrb_of}
use owlang.Vm.Memory.{load_rrb}
use owlang.Std.Lists.{owl_list_push}
use owlang.Std.Lists.Elements.{HoldsList, Pushed, owl_list_push-HoldsList}
use owlang.Std.Equality.{owl_terms_eq, all_u8}
use owlang.Std.Equality.Laws.{owl_terms_eq_sym, owl_terms_eq-bool_fault}

-- Two tuples, at the addresses 1000 and 2000, that hold the same text and integer.
abbrev two_tuples : Vm test_world
two_tuples = record (machine_with []) {
  objects = λ p.
      if p == 1000
      then some (Object.tuple (12004 ∷ 17 ∷ []))
      else if p == 2000
      then some (Object.tuple (12004 ∷ 17 ∷ []))
      else if p == 1500
      then some (Object.string (b'a' ∷ b'b' ∷ []))
      else none;
}

owl_terms_eq_sym_example : owl_terms_eq 3 16002 8002 two_tuples ≡ done true
unfolding owl_terms_eq all_u8 owl_tag_of load_tuple owl_extract_ptr
owl_terms_eq_sym_example = owl_terms_eq_sym two_tuples 3 8002 16002 true refl

owl_terms_eq-bool_fault_example :
    (owl_terms_eq 3 owl_false (owl_tag_as 1000 OwlTag.tuple) two_tuples ≡ fault)
    × (owl_terms_eq 3 owl_true (owl_tag_as 1000 OwlTag.string) two_tuples ≡ fault)
owl_terms_eq-bool_fault_example =
    owl_terms_eq-bool_fault two_tuples 2 1000 (omega arith) (omega arith)

-- The list of 2 and 3, at the address 1000, and its term.
abbrev pair : Rrb
pair = rrb_of Shape.no_root (17 ∷ 25 ∷ [])

abbrev with_pair : Vm test_world
with_pair = record (machine_with []) {
  objects = λ p. if p == 1000 then some (Object.list pair) else none;
}

pair-HoldsList : HoldsList with_pair 8003 (17 ∷ 25 ∷ [])
unfolding rrb_of load_rrb owl_extract_ptr rrb_list node_list
pair-HoldsList = record {
  rrb = pair;
  loaded = refl;
  is_built = record {
    shape = Shape.no_root;
    tail = 17 ∷ 25 ∷ [];
    is_of = refl;
    fits = tt;
    tail_fits = omega arith;
  };
  elements = refl;
}

owl_list_push-HoldsList_example :
    ((owl_list_push 8003 33 with_pair ≡ exited 1)
      × (with_pair.gc.to_space + with_pair.gc.size / 2 < with_pair.gc.alloc_ptr + 384))
    ⊎ Pushed with_pair 8003 33 (17 ∷ 25 ∷ [])
unfolding machine_with
owl_list_push-HoldsList_example =
    owl_list_push-HoldsList with_pair 8003 33 (17 ∷ 25 ∷ []) pair-HoldsList (omega arith)
      (record { address = omega arith; not_empty = λ e. omega arith })
