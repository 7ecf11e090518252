-- ===== src/Cli/Commands.antt =====
-- addRpcCommands and what it calls, of kettlingar/default_main.go: the commands of the command line
-- that are made from a manifest. Of cobra, a command is its fields and a root its groups and commands.
pub mod Groups
pub mod Define
pub mod Complete
use kettlingar_go.Prelude.{
  Bool, true, false, ◌&&◌, ◌||◌, not, List, [], ◌∷◌, ◌++◌, if◌then◌else◌, Bytes, bytes_eq, codes,
  Option, none, some,
}
use kettlingar_go.Dict.{Dict, lookup_or}
use kettlingar_go.Text.Search.{contains, trim_right}
use kettlingar_go.Text.Dashed.{Unicode, dashed_name}
use kettlingar_go.Rpc.Method.{MethodDesc, GoType}

-- An entry of GetGroups.
pub record Group : Type 0 where
  pub id : Bytes
  pub title : Bytes

-- A flag, with the key under which viper has it.
pub record Flag : Type 0 where
  pub flag_name : Bytes
  pub default_text : Bytes
  pub usage : Bytes
  pub viper_key : Bytes

-- What a command's Run does: doCall with a method, or one of the commands of a server.
pub data Run : Type 0 where
  calls : MethodDesc → Run
  starts stops : Run

-- cobra.Command
pub record Command : Type 0 where
  pub use_line : Bytes
  pub short : Bytes
  pub long : Bytes
  pub group_id : Bytes
  pub flags : List Flag
  pub run : Run

pub record Root : Type 0 where
  pub groups : List Group
  pub commands : List Command

-- `name_of` is cobra's Command.Name of a use line, `renders` is Render("?") of a type that is a
-- DataRenderer.
pub record Tools : Type 0 where
  pub unicode : Unicode
  pub name_of : Bytes → Bytes
  pub renders : GoType → Option Bytes

-- A panic is none.
abbrev pub unless_panic {ℓ k} : {A : Type ℓ} → {B : Type k} → Option A → (A → Option B) → Option B
unless_panic none next = none
unless_panic (some a) next = next a

abbrev pub is_defined : Bytes → List Flag → Bool
is_defined name [] = false
is_defined name (f ∷ flags) = bytes_eq f.flag_name name || is_defined name flags

-- pflag panics at a name that is defined.
abbrev pub define_flag : Flag → List Flag → Option (List Flag)
define_flag f flags = if is_defined f.flag_name flags then none else some (flags ++ f ∷ [])

unfoldable pub is_positional_args : Bytes → Bytes → Bool
is_positional_args name type_name = bytes_eq name (codes "Args") && bytes_eq type_name []

unfoldable pub method_has_positional_args : Dict Bytes → Bool
unfolding is_positional_args
method_has_positional_args [] = false
method_has_positional_args ((name, type_name) ∷ args) =
    is_positional_args name type_name || method_has_positional_args args

abbrev pub contains_group : Bytes → List Group → Bool
contains_group id [] = false
contains_group id (g ∷ groups) = bytes_eq g.id id || contains_group id groups

-- The keys of the map `used`, as a test.
abbrev pub is_used : Bytes → List MethodDesc → Bool
is_used id [] = false
is_used id (m ∷ manifest) = bytes_eq m.group id || is_used id manifest

abbrev pub add_groups : List MethodDesc → List Group → List Group → List Group
add_groups manifest [] have = have
add_groups manifest (g ∷ groups) have =
    add_groups manifest groups
      (if is_used g.id manifest && not (contains_group g.id have) then have ++ g ∷ [] else have)

abbrev pub add_service_groups : List MethodDesc → List (List Group) → List Group → List Group
add_service_groups manifest [] have = have
add_service_groups manifest (groups ∷ services) have =
    add_service_groups manifest services (add_groups manifest groups have)

abbrev listed : Bytes → Bytes
listed formats = if bytes_eq formats [] || contains formats (codes "/") then [] else formats

module _ (tools : Tools) where
  abbrev render_list : Option Bytes → Bytes
  render_list none = []
  render_list (some formats) = listed formats

  unfoldable pub cli_render_formats : Option GoType → Bytes
  cli_render_formats none = []
  cli_render_formats (some rt) = render_list (tools.renders rt)

  abbrev pub find_sub_command : Bytes → List Command → Option Command
  find_sub_command name [] = none
  find_sub_command name (c ∷ commands) =
      let rest = find_sub_command name commands in
      if bytes_eq (tools.name_of c.use_line) name then some c else rest

  abbrev pub arg_flag : MethodDesc → Bytes → Bytes → Flag
  arg_flag m name type_name =
      let flag_name = dashed_name tools.unicode name in
      record {
        flag_name = flag_name;
        default_text = lookup_or name [] m.arg_defaults;
        usage = codes "(" ++ type_name ++ codes ")";
        viper_key = m.name ++ codes "." ++ flag_name;
      }

  abbrev pub add_arg_flag : MethodDesc → Bytes → Bytes → List Flag → Option (List Flag)
  add_arg_flag m name type_name flags =
      if is_positional_args name type_name
      then some flags
      else define_flag (arg_flag m name type_name) flags

  -- The flags of the arguments, behind those that are there.
  unfoldable pub flags_of : MethodDesc → Dict Bytes → List Flag → Option (List Flag)
  unfolding is_positional_args dashed_name
  flags_of m [] flags = some flags
  flags_of m ((name, type_name) ∷ args) flags =
      unless_panic (add_arg_flag m name type_name flags) (flags_of m args)

  abbrev pub use_of : MethodDesc → Bytes
  use_of m = if method_has_positional_args m.args then m.name ++ codes " [args...]" else m.name

  abbrev long_of : MethodDesc → Bytes → Bytes
  long_of m extra =
      if bytes_eq extra []
      then m.docs
      else trim_right b'\n' m.docs ++ codes "\n\nExtra -f formats for this command: " ++ extra

  abbrev pub command_with : List Group → MethodDesc → List Flag → Command
  command_with groups m flags = record {
    use_line = use_of m;
    short = m.help;
    long = long_of m (cli_render_formats m.return_type);
    group_id = if contains_group m.group groups then m.group else [];
    flags = flags;
    run = calls m;
  }

  unfoldable pub create_rpc_command : List Group → MethodDesc → Option Command
  unfolding cli_render_formats flags_of method_has_positional_args
  create_rpc_command groups m =
      unless_panic (flags_of m m.args []) λ flags. some (command_with groups m flags)

  abbrev pub add_found :
      List Group → MethodDesc → Option Command → List Command → Option (List Command)
  add_found groups m none commands =
      unless_panic (create_rpc_command groups m) λ c. some (commands ++ c ∷ [])
  add_found groups m (some c) commands = some commands

  abbrev pub add_commands : List Group → List MethodDesc → List Command → Option (List Command)
  add_commands groups [] commands = some commands
  add_commands groups (m ∷ manifest) commands =
      unless_panic (add_found groups m (find_sub_command m.name commands) commands)
        (add_commands groups manifest)

  -- `services` are the GetGroups of the services that are a GroupedAPI; none for a panic.
  unfoldable pub add_rpc_commands : List (List Group) → Root → List MethodDesc → Option Root
  unfolding create_rpc_command
  add_rpc_commands services root manifest =
      let groups = add_service_groups manifest services root.groups in
      unless_panic (add_commands groups manifest root.commands)
        λ commands. some (record { groups = groups; commands = commands })
