-- ===== src/Std/Dirs.antt =====
-- vm/src/std/owl_file.c.
pub mod Keeps
use owlang.Base.{ℕ, Bool, ◌||◌, none, some, List, [], ◌∷◌, if◌then◌else◌}
use owlang.World.{World, DirEntry}
use owlang.Vm.{Op, Object, ◌>>=◌, pure}
use owlang.Vm.Memory.{alloc_object}
use owlang.Std.Strings.{owl_string_from, new_string, text_of}
use owlang.Std.Lists.{owl_list_init, owl_list_push}
use owlang.Std.Equality.{same_bytes}

-- `.` and `..`
unfoldable is_dots : List ℕ → Bool
unfolding same_bytes
is_dots name = same_bytes name (b'.' ∷ []) || same_bytes name (b'.' ∷ b'.' ∷ [])

module _ {w : World} where
  unfoldable pub owl_file_pwd : Op w ℕ
  owl_file_pwd = do
    cwd ← alloc_object w.path_max (Object.string w.getcwd)
    pure (owl_string_from cwd)

  unfoldable list_entries : List DirEntry → ℕ → Op w ℕ
  unfolding is_dots new_string owl_list_push
  list_entries [] result = pure result
  list_entries (dir ∷ rest) result =
      (if is_dots dir.d_name
        then pure result
        else (do entry ← new_string dir.d_name; owl_list_push result entry))
      >>= list_entries rest

  unfoldable pub owl_file_ls : ℕ → Op w ℕ
  unfolding text_of owl_list_init list_entries
  owl_file_ls path = do
    dirname ← text_of path
    result ← owl_list_init
    elim (w.opendir dirname) [ none ↦ pure result | some entries ↦ list_entries entries result ]
