-- ===== src/Cli/Commands/Complete.antt =====
-- What a manifest makes of the command line.
use kettlingar_go.Prelude.{
  ◌≡◌, Bool, true, false, ◌||◌, List, [], ◌∷◌, ◌++◌, Bytes, bytes_eq, Option, none, some,
}
use kettlingar_go.Rpc.Method.{MethodDesc}
use kettlingar_go.Text.Search.{Lacks}
use kettlingar_go.Cli.Commands.{Group, Command, Tools, contains_group, find_sub_command}
use kettlingar_go.Cli.Commands.Define.{made_command}

abbrev is_found : Option Command → Bool
is_found none = false
is_found (some c) = true

-- The group of a command is there, or it has none.
abbrev pub IsGrouped : List Group → Command → Type 0
IsGrouped groups c = bytes_eq c.group_id [] || contains_group c.group_id groups ≡ true

module _ (tools : Tools) where
  -- Whether there is a command of a name.
  abbrev pub has : Bytes → List Command → Bool
  has name commands = is_found (find_sub_command tools name commands)

  -- cobra names a command by the first word of its use line.
  abbrev pub NamesByFirstWord : Type 0
  NamesByFirstWord =
      (name rest : Bytes)
      → Lacks b' ' name
      → (tools.name_of name ≡ name) × (tools.name_of (name ++ b' ' ∷ rest) ≡ name)

  abbrev pub OneWord : MethodDesc → Type 0
  OneWord m = Lacks b' ' m.name

  -- What addRpcCommands adds where no flag is there twice.
  abbrev pub add_made : List Group → MethodDesc → Option Command → List Command → List Command
  add_made groups m none commands = commands ++ made_command tools groups m ∷ []
  add_made groups m (some c) commands = commands

  abbrev pub all_made : List Group → List MethodDesc → List Command → List Command
  all_made groups [] commands = commands
  all_made groups (m ∷ manifest) commands =
      all_made groups manifest (add_made groups m (find_sub_command tools m.name commands) commands)
