-- ===== src/Main/Tests.antt =====
-- The program's start, at a concrete world.
use owlang.Base.{◌≡◌, refl, [], ◌∷◌, some}
use owlang.Base.Outcome.{fault}
use owlang.World.{World}
use owlang.World.Tests.{test_world}
use owlang.Main.{main, main-load_path}

-- OWL_LOAD_PATH is `l`.
abbrev with_load_path : World
with_load_path = record test_world { owl_load_path = some (b'l' ∷ []) }

main-load_path_example :
    main 100 with_load_path (b'd' ∷ []) ((b'o' ∷ []) ∷ (b'm' ∷ b'.' ∷ b'x' ∷ []) ∷ []) ≡ fault
main-load_path_example =
    main-load_path 100 with_load_path (b'd' ∷ []) (b'o' ∷ []) (b'm' ∷ b'.' ∷ b'x' ∷ []) (b'l' ∷ [])
      [] refl
