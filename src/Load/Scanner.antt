-- ===== src/Load/Scanner.antt =====
-- The scanner of vm/src/std/owl_code.c: what is left of the bytecode. The source does not test for
-- its end inside an instruction; it reads on behind the buffer.
use owlang.Base.{ℕ, zero, suc, Bool, true, false, List, [], ◌∷◌, ◌==◌, if◌then◌else◌}
use owlang.Base.Outcome.{Outcome, done, fault, ◌>>=◌}

unfoldable pub scanner_has_next : List ℕ → Bool
scanner_has_next [] = false
scanner_has_next (b ∷ bs) = true

unfoldable pub scanner_next : List ℕ → Outcome (ℕ × List ℕ)
scanner_next [] = fault
scanner_next (b ∷ bs) = done (b, bs)

-- the bytes read, and what is left
unfoldable pub scanner_read : ℕ → List ℕ → Outcome (List ℕ × List ℕ)
scanner_read zero bs = done ([], bs)
scanner_read (suc n) [] = fault
scanner_read (suc n) (b ∷ bs) = scanner_read n bs >>= λ (read, rest). done (b ∷ read, rest)

-- The text in a `char` array: the bytes before its NUL.
unfoldable pub c_text : List ℕ → Outcome (List ℕ)
c_text [] = fault
c_text (b ∷ bs) =
    let rest = c_text bs in if b == 0 then done [] else (rest >>= λ text. done (b ∷ text))
