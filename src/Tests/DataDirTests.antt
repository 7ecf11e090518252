-- ===== src/Tests/DataDirTests.antt =====
-- kettlingar/datadir.go on concrete machines.
use kettlingar_go.Prelude.{◌≡◌, refl, [], codes, none, some}
use kettlingar_go.Text.Search.{join, has_prefix}
use kettlingar_go.DataDir.{Machine, default_data_dir}

abbrev linux : Machine
linux = record {
  goos = codes "linux";
  getenv = λ key. [];
  user_home_dir = some (codes "/home/u");
  is_abs = λ path. has_prefix path (codes "/");
  join_path = join b'/';
}

data_dirs :
    (default_data_dir linux (codes "k") ≡ some (codes "/home/u/.local/share/k"))
    × (default_data_dir (record linux { getenv = λ key. codes "/d" }) (codes "k")
        ≡ some (codes "/d/k"))
    × (default_data_dir (record linux { getenv = λ key. codes "d" }) (codes "k")
        ≡ some (codes "/home/u/.local/share/k"))
    × (default_data_dir (record linux { goos = codes "windows" }) (codes "k") ≡ none)
unfolding default_data_dir
data_dirs = (refl, refl, refl, refl)
