-- ===== src/Load/Module/Rounds.antt =====
-- The `while` loop of `owl_load_module`, vm/src/std/owl_code.c, on the code buffer.
use owlang.Base.{ℕ, zero, suc, Bool, true, false, Option, none, some}
use owlang.World.{World}
use owlang.Opcodes.{Opcode, opcode_of}
use owlang.Vm.{Op, ◌>>=◌, pure}
use owlang.Load.Scanner.{scanner_has_next}
use owlang.Load.Module.{
  Loader, Layout, scan, load_layout, load_opcode, load_instruction, load_loop, layout,
}
use owlang.Load.Module.Growth.{bind-done, Writes, Wrote-trans, same-Wrote, scan-Wrote}
use owlang.Load.Module.Instructions.{
  load_plain-Writes, load_sized-Writes, load_capture-Writes, load_load_string-Writes,
  load_call-Writes, load_pub_fn-Writes,
}

module _ {w : World} where
  load_layout-Writes : (layout : Layout) (ch : ℕ) → Writes {w = w} 0 0 (load_layout layout ch)
  unfolding load_layout
  load_layout-Writes (Layout.plain n) ch = load_plain-Writes ch n
  load_layout-Writes (Layout.sized n) ch = load_sized-Writes ch n
  load_layout-Writes Layout.capture ch = load_capture-Writes ch
  load_layout-Writes Layout.pub_fn ch = load_pub_fn-Writes
  load_layout-Writes Layout.load_string ch = load_load_string-Writes ch
  load_layout-Writes Layout.call_local ch = load_sized-Writes ch 2
  load_layout-Writes Layout.call ch = load_call-Writes ch

  load_opcode-Writes :
      (opcode : Option Opcode) (ch : ℕ) → Writes {w = w} 0 0 (load_opcode opcode ch)
  unfolding load_opcode
  load_opcode-Writes none ch vm vm' l l' h e = cc
  load_opcode-Writes (some opcode) ch vm vm' l l' h e =
      load_layout-Writes (layout opcode) ch vm vm' l l' h e

  load_instruction-Writes : Writes {w = w} 0 0 load_instruction
  unfolding load_instruction
  load_instruction-Writes vm vm' l l' h e =
      let (((ch, l₁), vm₁), e₁, r₁) = bind-done (scan l vm) _ e in
      let head = scan-Wrote 0 ch vm vm₁ l l₁ h e₁ in
      Wrote-trans head (load_opcode-Writes (opcode_of ch) ch vm₁ vm' l₁ l' head.after r₁)

  -- One round of the loop, `rest` being the rounds behind it.
  round-Writes :
      (rest : Loader → Op w Loader)
      → Writes 0 0 rest
      → (more : Bool)
      → Writes {w = w} 0 0 (λ l. elim more [ true ↦ load_instruction l >>= rest | false ↦ pure l ])
  round-Writes rest writes true vm vm' l l' h e =
      let ((l₁, vm₁), e₁, r₁) = bind-done (load_instruction l vm) _ e in
      let head = load_instruction-Writes vm vm₁ l l₁ h e₁ in
      Wrote-trans head (writes vm₁ vm' l₁ l' head.after r₁)
  round-Writes rest writes false vm vm' l l' h e = same-Wrote 0 vm vm' l l' h e

  pub load_loop-Writes : (fuel : ℕ) → Writes {w = w} 0 0 (load_loop fuel)
  unfolding load_loop
  load_loop-Writes zero vm vm' l l' h e = cc
  load_loop-Writes (suc fuel) vm vm' l l' h e =
      round-Writes (load_loop fuel) (load_loop-Writes fuel) (scanner_has_next l.bytes) vm vm' l l' h
        e
