-- ===== src/Std/Dirs/Keeps.antt =====
-- What the operations on directories in vm/src/std/owl_file.c keep of the machine.
use owlang.Base.{ℕ, Option, none, some, List, [], ◌∷◌}
use owlang.World.{World, DirEntry}
use owlang.Vm.{Vm, Op, pure}
use owlang.Vm.Memory.Keeps.{alloc_object-Keeps}
use owlang.Vm.Keeps.{Keeps, bind-Keeps, pure-Keeps, if-Keeps}
use owlang.Vm.Stable.{Stable}
use owlang.Std.Strings.Keeps.{text_of-Keeps, new_string-Keeps}
use owlang.Std.Lists.Keeps.{owl_list_init-Keeps, owl_list_push-Keeps}
use owlang.Std.Dirs.{owl_file_pwd, owl_file_ls, list_entries, is_dots}

module _ {w : World} {P : Vm w → Type 0} (s : Stable P) where
  pub owl_file_pwd-Keeps : Keeps P owl_file_pwd
  unfolding owl_file_pwd
  owl_file_pwd-Keeps = bind-Keeps (alloc_object-Keeps s w.path_max _) λ cwd. pure-Keeps _

  list_entries-Keeps :
      (entries : List DirEntry) (result : ℕ) → Keeps P (list_entries entries result)
  unfolding list_entries
  list_entries-Keeps [] result = pure-Keeps result
  list_entries-Keeps (dir ∷ rest) result =
      bind-Keeps
        (if-Keeps (is_dots dir.d_name) (pure-Keeps result)
          (bind-Keeps (new_string-Keeps s dir.d_name) λ entry. owl_list_push-Keeps s result entry))
        λ list. list_entries-Keeps rest list

  opened-Keeps :
      (found : Option (List DirEntry)) (result : ℕ)
      → Keeps P (elim found as (λ _. Op w ℕ) [
        | none ↦ pure result
        | some entries ↦ list_entries entries result
      ])
  opened-Keeps none result = pure-Keeps result
  opened-Keeps (some entries) result = list_entries-Keeps entries result

  pub owl_file_ls-Keeps : (path : ℕ) → Keeps P (owl_file_ls path)
  unfolding owl_file_ls
  owl_file_ls-Keeps path =
      bind-Keeps (text_of-Keeps path)
        λ dirname. bind-Keeps owl_list_init-Keeps λ result. opened-Keeps (w.opendir dirname) result
