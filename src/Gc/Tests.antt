-- ===== src/Gc/Tests.antt =====
-- A collection of a heap with a text and a tuple that refers to it twice.
use owlang.Base.{ℕ, none, some, [], ◌∷◌, ◌==◌, if◌then◌else◌}
use owlang.World.Tests.{test_world}
use owlang.Vm.{Vm, Object, no_frame, vm_new}
use owlang.Gc.Space.{Snapshot, Member}

abbrev text_at : ℕ
text_at = 1000001

abbrev tuple_at : ℕ
tuple_at = 1000040

-- `("abc", "abc", 7)`, the text being one and the same
abbrev a_text : Object
a_text = Object.string (b'a' ∷ b'b' ∷ b'c' ∷ [])

abbrev a_tuple : Object
a_tuple = Object.tuple (8000012 ∷ 8000012 ∷ 57 ∷ [])

-- The first register shows the tuple.
abbrev full_machine : Vm test_world
full_machine = record (vm_new test_world) {
  frames = λ _. record no_frame { registers = λ j. if j == 0 then 8000322 else 0 };
  current_frame = 0;
  gc = record { to_space = 1000000; from_space = 1065535; alloc_ptr = 1000100; size = 0x1fffe };
  objects = λ p. if p == text_at then some a_text else if p == tuple_at then some a_tuple else none;
  forwards = λ _. 0;
}

abbrev in_use : Snapshot
in_use = record {
  live = λ p. Member p (text_at ∷ tuple_at ∷ []);
  rank = λ p. if p == text_at then 0 else 1;
  content = λ p. if p == text_at then a_text else a_tuple;
  addresses = text_at ∷ tuple_at ∷ [];
}
