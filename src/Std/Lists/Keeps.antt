-- ===== src/Std/Lists/Keeps.antt =====
-- What the operations on lists in vm/src/std/owl_list.c keep of the machine.
use owlang.Base.{ℕ, ◌%◌, ◌^◌}
use owlang.World.{World}
use owlang.Term.{owl_extract_ptr, int_from_owl_int}
use owlang.Rrb.{Rrb, Ref}
use owlang.Rrb.Concat.{rrb_concat}
use owlang.Rrb.Slice.Left.{rrb_slice}
use owlang.Rrb.Nth.{rrb_nth}
use owlang.Rrb.Push.{rrb_push}
use owlang.Rrb.Memory.{push_bytes}
use owlang.Vm.{Vm, Object}
use owlang.Vm.Memory.{load_rrb}
use owlang.Vm.Memory.Keeps.{owl_alloc-Keeps, owl_alloc_all-Keeps, alloc_object-Keeps, store-Keeps}
use owlang.Vm.Keeps.{Keeps, bind-Keeps, pure-Keeps, reads-Keeps}
use owlang.Vm.Stable.{Stable}
use owlang.Std.Lists.{
  rrb_of_list, new_rrb, owl_list_init, owl_list_push, owl_list_nth, owl_list_count, ref_of_list,
  list_of_ref, owl_list_slice, owl_list_concat, rrb_size, rrb_to_list,
}

module _ {w : World} {P : Vm w → Type 0} where
  pub rrb_of_list-Keeps : (list : ℕ) → Keeps P (rrb_of_list list)
  unfolding rrb_of_list
  rrb_of_list-Keeps list = reads-Keeps (load_rrb (owl_extract_ptr list))

  pub owl_list_init-Keeps : Keeps P owl_list_init
  unfolding owl_list_init
  owl_list_init-Keeps = pure-Keeps _

  pub owl_list_nth-Keeps : (list owl_index : ℕ) → Keeps P (owl_list_nth list owl_index)
  unfolding owl_list_nth
  owl_list_nth-Keeps list owl_index = bind-Keeps (rrb_of_list-Keeps list) λ rrb.
      bind-Keeps (reads-Keeps (λ vm. rrb_nth rrb (int_from_owl_int owl_index % 2 ^ 32)))
        λ found. pure-Keeps _

  pub owl_list_count-Keeps : (list : ℕ) → Keeps P (owl_list_count list)
  unfolding owl_list_count
  owl_list_count-Keeps list = bind-Keeps (rrb_of_list-Keeps list) λ rrb. pure-Keeps _

  ref_of_list-Keeps : (list : ℕ) → Keeps P (ref_of_list list)
  unfolding ref_of_list
  ref_of_list-Keeps list = bind-Keeps (rrb_of_list-Keeps list) λ rrb. pure-Keeps _

module _ {w : World} {P : Vm w → Type 0} (s : Stable P) where
  pub new_rrb-Keeps : (rrb : Rrb) → Keeps P (new_rrb rrb)
  unfolding new_rrb
  new_rrb-Keeps rrb =
      bind-Keeps (alloc_object-Keeps s rrb_size (Object.list rrb)) λ ptr. pure-Keeps _

  pub owl_list_push-Keeps : (list elem : ℕ) → Keeps P (owl_list_push list elem)
  unfolding owl_list_push
  owl_list_push-Keeps list elem = bind-Keeps (rrb_of_list-Keeps list) λ rrb.
      bind-Keeps (owl_alloc-Keeps s rrb_size) λ ptr.
        bind-Keeps (reads-Keeps (λ vm. rrb_push rrb elem)) λ pushed.
          bind-Keeps (reads-Keeps (λ vm. push_bytes rrb)) λ sizes.
            bind-Keeps (owl_alloc_all-Keeps s sizes) λ _.
              bind-Keeps (store-Keeps s ptr (Object.list pushed)) λ _. pure-Keeps (rrb_to_list ptr)

  list_of_ref-Keeps : (ref : Ref) → Keeps P (list_of_ref ref)
  unfolding list_of_ref
  list_of_ref-Keeps Ref.empty = pure-Keeps _
  list_of_ref-Keeps (Ref.given ptr rrb) =
      bind-Keeps (store-Keeps s ptr (Object.list rrb)) λ _. pure-Keeps (rrb_to_list ptr)
  list_of_ref-Keeps (Ref.fresh rrb) = new_rrb-Keeps rrb

  pub owl_list_slice-Keeps : (list from to : ℕ) → Keeps P (owl_list_slice list from to)
  unfolding owl_list_slice
  owl_list_slice-Keeps list from to = bind-Keeps (ref_of_list-Keeps list) λ ref.
      bind-Keeps
        (reads-Keeps
          (λ vm. rrb_slice ref (int_from_owl_int from % 2 ^ 32) (int_from_owl_int to % 2 ^ 32)))
        λ sliced. list_of_ref-Keeps sliced

  pub owl_list_concat-Keeps :
      (left_list right_list : ℕ) → Keeps P (owl_list_concat left_list right_list)
  unfolding owl_list_concat
  owl_list_concat-Keeps left_list right_list = bind-Keeps (ref_of_list-Keeps left_list) λ left.
      bind-Keeps (ref_of_list-Keeps right_list) λ right.
        bind-Keeps (reads-Keeps (λ vm. rrb_concat left right)) λ result. list_of_ref-Keeps result
