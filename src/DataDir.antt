-- ===== src/DataDir.antt =====
-- kettlingar/datadir.go: where a service keeps its data.
use kettlingar_go.Prelude.{
  Bool, ◌||◌, if◌then◌else◌, List, [], ◌∷◌, Bytes, bytes_eq, codes, Option, none, some,
}

-- runtime.GOOS, os.Getenv, os.UserHomeDir (none for an error), filepath.IsAbs and filepath.Join.
pub record Machine : Type 0 where
  pub goos : Bytes
  pub getenv : Bytes → Bytes
  pub user_home_dir : Option Bytes
  pub is_abs : Bytes → Bool
  pub join_path : List Bytes → Bytes

-- A path, none for an error.
abbrev under : Machine → List Bytes → Option Bytes → Option Bytes
under machine parts none = none
under machine parts (some home) = some (machine.join_path (home ∷ parts))

unfoldable pub default_data_dir : Machine → Bytes → Option Bytes
default_data_dir machine name =
    let local = machine.getenv (codes "LocalAppData") in
    let xdg = machine.getenv (codes "XDG_DATA_HOME") in
    if bytes_eq machine.goos (codes "windows")
    then if bytes_eq local [] then none else some (machine.join_path (local ∷ name ∷ []))
    else if bytes_eq machine.goos (codes "darwin") || bytes_eq machine.goos (codes "ios")
    then under machine (codes "Library" ∷ codes "Application Support" ∷ name ∷ [])
        machine.user_home_dir
    else if machine.is_abs xdg
    then some (machine.join_path (xdg ∷ name ∷ []))
    else under machine (codes ".local" ∷ codes "share" ∷ name ∷ []) machine.user_home_dir
