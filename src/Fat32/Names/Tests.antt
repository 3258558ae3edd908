-- ===== src/Fat32/Names/Tests.antt =====
-- The theorems on names at `AB.TXT`.
use dfs_pios_ro.Fat32.Names.Accepts.{is_valid_name_iff}
use dfs_pios_ro.Fat32.Names.RoundTrip.{shown, to_8dot3-raw_name}
use dfs_pios_ro.Base.{List, ℕ, ◌≡◌, ok, true, ◌↔◌}
use dfs_pios_ro.Fat32.Names.{raw_name, to_8dot3, is_valid_name}
use dfs_pios_ro.Fat32.Names.Valid.{ValidName}
use dfs_pios_ro.Fat32.Examples.{name_ab, valid_ab}

is_valid_name_iff_example : (is_valid_name name_ab ≡ true) ↔ ValidName name_ab
is_valid_name_iff_example = is_valid_name_iff name_ab

to_8dot3-raw_name_example :
    (raw : List ℕ) × (raw_name name_ab ≡ ok raw) × (to_8dot3 raw ≡ ok (shown name_ab))
to_8dot3-raw_name_example = to_8dot3-raw_name name_ab valid_ab
