-- ===== src/Lib.antt =====
-- A model of the virtual machine of owlang (vm/src, in C) and theorems on it.
--
-- Base holds the shared names, lists over native numbers and `Outcome`, what a piece of C code can
-- do: return, exit, fail an assertion, or leave what C defines (`fault`). Term is vm/src/term.h,
-- the tagged 64-bit words. World names what the machine calls and does not implement: the interning
-- library, the C library, the system and the compiler; every definition that uses them takes a
-- `World`. Vm is the state of the machine (`struct vm` of vm/src/owl.h with the heap, the statics
-- and stdout), Vm.Memory the allocation of vm/src/alloc.c and reads through pointers, Vm.Registers
-- the operands and registers of vm/src/opcodes.c. An operation on the machine is a function from
-- the state to an outcome with the new state; its name is the one of the C function.
--
-- Rrb is the tree behind lists, vm/src/std/owl_list.c: Rrb.Nth lookup, Rrb.Push push, Rrb.Memory
-- what a push allocates, Rrb.Sizes, Rrb.Plan and Rrb.Concat concatenation, Rrb.Slice slices, with
-- their proofs below it (Cut, Right, Promote, Root and Take of the cut at the end, After, Rest,
-- Descend, Refill and Drop of the one at the start), Rrb.Update update, pop and peek, Rrb.View the
-- list of a tree's elements, Rrb.Built the trees that pushing builds, and Rrb.Tree trees of any
-- height with and without size tables: what they are, lookup (Slot, Level, Nth), update (Replace,
-- Update), pop (Pop), sizes (Sizes), the plan of a merge (Plan), its new nodes (Fill, Rebuild,
-- Execute), the way up (Rebalance, Above, Concat) and whole lists (Invariant, Lists, Built, Tail,
-- Join). Std is vm/src/std and vm/src/term.c: texts, functions, lists, equality, conversion and
-- directories. Load is vm/src/std/owl_code.c with the search for files in vm/src/vm.c and
-- vm/src/util/file.c. Gc is the collector of vm/src/alloc.c, with its proof in Gc.Relocate
-- (references), Space (what holds while objects are copied), Prices (the room they take), Block,
-- Forward and Copy (an object), Refs (its references), Roots and Collect (registers and frames).
-- Ops has one function for each opcode of vm/src/opcodes.c; Ops.Step is the table of opcodes and
-- the loop of vm/src/vm.c, Ops.Reach the machines of a run, and Main is vm/src/main.c.
--
-- Vm.Stable names the writes that the source makes to the machine, Vm.Keeps has a rule for each way
-- to build an operation from them, and the modules called Keeps apply these to every operation.
--
-- Memory is a function from addresses to objects, and a block is the object that it holds; trees
-- are values, since their nodes are not changed after they are built. The one operation that
-- changes a list's head in place, `slice_left`, returns it at its address (`Ref`). Reads and writes
-- outside an array are `fault`, but for one read whose value is not used, in the last round of
-- `copy_first_k`; so are lookups, updates, pushes, sizes and slices that shift an index of 32 bits
-- by 32 or more places, as those in a tree above `RRB_MAX_HEIGHT` do. Numbers are natural numbers
-- with the wrap-around of their C type.
--
-- Fuel stands where a loop or a recursion is not structural. `max_levels` is more than the
-- `RRB_MAX_HEIGHT` levels of the source and the leaves; where a tree has size tables its height is
-- bounded by a hypothesis. `u8_rounds` is the number of values of a counter of 8 bits: a loop over
-- one that ends takes no more rounds. The loader's fuel is the number of bytes left, of which each
-- round takes one. `max_depth` bounds the nesting of terms: each level takes 17 bytes of a heap
-- half of 65535. The fuel of `vm_run` is a parameter, as the loop of the machine has no end of its
-- own.
--
-- Not modelled: the memory that the nodes of trees take but for those of a push (Rrb.Memory), so
-- that a concatenation, a slice or a collection does not end the process where its nodes alone do
-- not fit; the nodes' own forward flags in the collector; what the process prints as it exits;
-- failing calls of `malloc`; the compiler in Rust; the programs in stdlib and test_cases.
pub mod Base
pub mod Term
pub mod Rrb
pub mod World
pub mod Vm
pub mod Std
pub mod Opcodes
pub mod Gc
pub mod Load
pub mod Ops
pub mod Main
