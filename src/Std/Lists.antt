-- ===== src/Std/Lists.antt =====
-- The public operations at the end of vm/src/std/owl_list.c. Of the memory that a tree takes only
-- its head is counted as allocated; that its nodes may use the heap up is left out.
pub mod Elements
pub mod Trees
pub mod Keeps
mod Tests
use owlang.Base.{ℕ, ◌%◌, ◌^◌, Option, none, some, ◌==◌, if◌then◌else◌}
use owlang.World.{World}
use owlang.Term.{OwlTag, owl_extract_ptr, owl_tag_as, owl_int_from, int_from_owl_int, owl_nil}
use owlang.Rrb.{Rrb, Ref, rrb_count}
use owlang.Rrb.Concat.{rrb_concat}
use owlang.Rrb.Slice.Left.{rrb_slice}
use owlang.Rrb.Nth.{rrb_nth}
use owlang.Rrb.Push.{rrb_push}
use owlang.Vm.{Op, Object, ◌>>=◌, ◌>>◌, pure, lift}
use owlang.Rrb.Memory.{push_bytes}
use owlang.Vm.Memory.{owl_alloc, owl_alloc_all, alloc_object, store, load_rrb}

-- `rrb_to_list(rrb)`
unfoldable pub rrb_to_list : ℕ → ℕ
rrb_to_list rrb = owl_tag_as rrb OwlTag.list

-- `sizeof(RRB)`
abbrev pub rrb_size : ℕ
rrb_size = 32

-- `found == NULL ? OWL_NIL : (owl_term) found`; an element 0 is NULL too
unfoldable pub or_nil : Option ℕ → ℕ
or_nil none = owl_nil
or_nil (some found) = if found == 0 then owl_nil else found

module _ {w : World} where
  -- `*list_to_rrb(list)`
  unfoldable pub rrb_of_list : ℕ → Op w Rrb
  rrb_of_list list vm = lift (load_rrb (owl_extract_ptr list) vm) vm

  -- The head of a new list that a concatenation or a slice returns. The nodes below it and those on
  -- the way to it are values and take no memory here.
  unfoldable pub new_rrb : Rrb → Op w ℕ
  new_rrb rrb = do ptr ← alloc_object rrb_size (Object.list rrb); pure (rrb_to_list ptr)

  unfoldable pub owl_list_init : Op w ℕ
  owl_list_init = pure (rrb_to_list w.empty_rrb_at)

  -- The head is allocated first, then the nodes that are new.
  unfoldable pub owl_list_push : ℕ → ℕ → Op w ℕ
  unfolding rrb_of_list
  owl_list_push list elem = do
    rrb ← rrb_of_list list
    ptr ← owl_alloc rrb_size
    pushed ← lift (rrb_push rrb elem)
    sizes ← lift (push_bytes rrb)
    owl_alloc_all sizes
    store ptr (Object.list pushed)
    pure (rrb_to_list ptr)

  -- The index is cut to 32 bits on its way into `rrb_nth`.
  unfoldable pub owl_list_nth : ℕ → ℕ → Op w ℕ
  unfolding rrb_of_list or_nil
  owl_list_nth list owl_index = do
    rrb ← rrb_of_list list
    found ← lift (rrb_nth rrb (int_from_owl_int owl_index % 2 ^ 32))
    pure (or_nil found)

  unfoldable pub owl_list_count : ℕ → Op w ℕ
  unfolding rrb_of_list
  owl_list_count list = do rrb ← rrb_of_list list; pure (owl_int_from (rrb_count rrb))

  -- the list behind a term, at its address
  unfoldable pub ref_of_list : ℕ → Op w Ref
  unfolding rrb_of_list
  ref_of_list list = do
    rrb ← rrb_of_list list
    pure (
        if owl_extract_ptr list == w.empty_rrb_at
        then Ref.empty
        else Ref.given (owl_extract_ptr list) rrb)

  -- The term of a result. A list that was an argument keeps its address; its head may have been
  -- changed in place.
  unfoldable pub list_of_ref : Ref → Op w ℕ
  unfolding new_rrb store
  list_of_ref Ref.empty = pure (rrb_to_list w.empty_rrb_at)
  list_of_ref (Ref.given ptr rrb) = do store ptr (Object.list rrb); pure (rrb_to_list ptr)
  list_of_ref (Ref.fresh rrb) = new_rrb rrb

  unfoldable pub owl_list_slice : ℕ → ℕ → ℕ → Op w ℕ
  unfolding ref_of_list list_of_ref
  owl_list_slice list from to = do
    ref ← ref_of_list list
    sliced ← lift (rrb_slice ref (int_from_owl_int from % 2 ^ 32) (int_from_owl_int to % 2 ^ 32))
    list_of_ref sliced

  unfoldable pub owl_list_concat : ℕ → ℕ → Op w ℕ
  unfolding ref_of_list list_of_ref
  owl_list_concat left_list right_list = do
    left ← ref_of_list left_list
    right ← ref_of_list right_list
    result ← lift (rrb_concat left right)
    list_of_ref result
