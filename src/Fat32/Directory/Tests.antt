-- ===== src/Fat32/Directory/Tests.antt =====
-- The theorem on `find_dirent_with_name` in a directory of one file.
use dfs_pios_ro.Fat32.Examples.{entry_ab, name_ab, valid_ab}
use dfs_pios_ro.Fat32.Directory.{find_dirent_with_name}
use dfs_pios_ro.Fat32.Directory.Find.{WellNamed, Found, find_dirent_with_name-Found}
use dfs_pios_ro.Base.{Option, ℕ, ◌∷◌, [], ◌≡◌, ok, refl}
use dfs_pios_ro.Fat32.Names.{raw_name}

entry_ab-WellNamed : WellNamed (entry_ab ∷ [])
unfolding raw_name
entry_ab-WellNamed = ((λ in_use. (name_ab, (valid_ab, refl))), tt)

find_dirent_with_name-Found_example :
    (r : Option ℕ) × (find_dirent_with_name (entry_ab ∷ []) name_ab ≡ ok r)
    × Found name_ab 0 (entry_ab ∷ []) r
find_dirent_with_name-Found_example =
    find_dirent_with_name-Found name_ab (entry_ab ∷ []) valid_ab entry_ab-WellNamed
