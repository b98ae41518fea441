-- ===== src/Vm.antt =====
-- vm/src/owl.h: the state of the machine, and vm_new of vm/src/vm.c. An operation on the machine is
-- a function from the state to its outcome with the new state.
pub mod Memory
pub mod Tests
pub mod Registers
pub mod Keeps
pub mod Stable
use owlang.Base.{ℕ, ◌+◌, ◌-◌, ◌/◌, ◌^◌, Bool, Option, none, some, List, [], ◌==◌, if◌then◌else◌}
use owlang.Base.Outcome.{Outcome, done, exited, aborted, fault, out_of_fuel}
use owlang.Base.Outcome
use owlang.World.{World}
use owlang.Rrb.{Rrb}

abbrev pub register_count : ℕ
register_count = 100

abbrev pub stack_depth : ℕ
stack_depth = 300

abbrev pub max_functions : ℕ
max_functions = 255

-- `UINT64_MAX`
abbrev pub no_function : ℕ
no_function = 2 ^ 64 - 1

-- the bytes that `vm_new` allocates for `code`
abbrev pub code_capacity : ℕ
code_capacity = 0xffff

-- `struct Function`. `name` is a pointer.
pub record Function : Type 0 where
  pub location : ℕ
  pub name : ℕ
  pub n_upvalues : ℕ
  pub upvalues : List ℕ

-- What a block of memory holds: the elements of a tuple (its first word is their number), the bytes
-- of a text before its NUL, a function, or the head of a list.
pub data Object : Type 0 where
  tuple : List ℕ → Object
  string : List ℕ → Object
  function : Function → Object
  list : Rrb → Object
  -- the bytes of a text that were copied without their NUL: a read of them runs on behind the block
  unterminated : List ℕ → Object

-- `struct frame_t`
pub record Frame : Type 0 where
  pub ret_address : ℕ
  pub ret_register : ℕ
  pub function : ℕ
  pub registers : ℕ → ℕ

-- `struct GCState`
pub record GcState : Type 0 where
  pub to_space : ℕ
  pub from_space : ℕ
  pub alloc_ptr : ℕ
  pub size : ℕ

-- `struct vm`, with what the source keeps outside it: the static `bytes_allocated`, the memory
-- behind pointers (`objects`), the forward flag and address of each block (`forwards`, 0 where the
-- flag is not set), the calls of `malloc` so far, and what was written to stdout.
pub record Vm (w : World) : Type 0 where
  pub frames : ℕ → Frame
  pub current_frame : ℕ
  pub ip : ℕ
  pub code : ℕ → ℕ
  pub code_size : ℕ
  pub function_names : w.Strings
  pub intern_pool : w.Strings
  pub functions : ℕ → ℕ
  pub current_function : ℕ
  pub gc : GcState
  pub bytes_allocated : ℕ
  pub objects : ℕ → Option Object
  pub forwards : ℕ → ℕ
  pub mallocs : ℕ
  pub stdout : List ℕ

abbrev pub update {ℓ} : {A : Type ℓ} → (ℕ → A) → ℕ → A → ℕ → A
update f i v j = if j == i then v else f j

abbrev pub Op : World → Type 0 → Type 0
Op w A = Vm w → Outcome (A × Vm w)

module _ {w : World} where
  abbrev pub pure : {A : Type 0} → A → Op w A
  pure a vm = done (a, vm)

  infixl 5 ◌>>=◌ ◌>>◌
  abbrev pub ◌>>=◌ : {A B : Type 0} → Op w A → (A → Op w B) → Op w B
  ◌>>=◌ m f vm = Outcome.bind (m vm) λ (a, vm'). f a vm'

  abbrev pub ◌>>◌ : {B : Type 0} → Op w (Unit {0}) → Op w B → Op w B
  m >> k = m >>= λ _. k

  -- a computation that does not change the machine
  abbrev pub lift : {A : Type 0} → Outcome A → Op w A
  lift m vm = Outcome.bind m λ a. done (a, vm)

  -- `exit(1)` after a message
  abbrev pub die : {A : Type 0} → Op w A
  die vm = exited 1

  -- undefined behaviour
  abbrev pub undefined : {A : Type 0} → Op w A
  undefined vm = fault

abbrev pub no_frame : Frame
no_frame = record { ret_address = 0; ret_register = 0; function = 0; registers = λ _. 0 }

-- `gc_init`, `mem` being what its `malloc` returns
unfoldable gc_init : ℕ → ℕ → GcState
gc_init mem size = record {
  to_space = mem;
  from_space = mem + size / 2;
  alloc_ptr = mem;
  size = size;
}

-- `vm_new`, where no `malloc` fails. `opcode_init` is the table in `Ops.Step`.
unfoldable pub vm_new : (w : World) → Vm w
unfolding gc_init
vm_new w = record {
  frames = λ _. no_frame;
  current_frame = 0;
  ip = 0;
  code = λ _. 0;
  code_size = 0;
  function_names = w.strings_new;
  intern_pool = w.strings_new;
  functions = λ _. no_function;
  current_function = 0;
  gc = gc_init (w.malloc 0) 0x1fffe;
  bytes_allocated = 0;
  objects = λ _. none;
  forwards = λ _. 0;
  mallocs = 1;
  stdout = [];
}

-- The fuel of the functions that walk nested terms. A level of nesting takes a block of at least 17
-- bytes of a heap of 65535, so that no term is nested deeper.
unfoldable pub max_depth : ℕ
max_depth = 4096
