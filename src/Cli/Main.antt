-- ===== src/Cli/Main.antt =====
-- DefaultMain of kettlingar/default_main.go with its help, and fetchManifest: which commands a command
-- line has, and where it logs. Cobra runs the command that the arguments name.
pub mod ServiceFlags
pub mod Discovery
use kettlingar_go.Prelude.{
  ℕ, Bool, true, false, ◌||◌, not, List, [], ◌∷◌, ◌++◌, if◌then◌else◌, Bytes, bytes_eq, codes,
  Option, none, some,
}
use kettlingar_go.Slog.{Level, level_warn, level_error}
use kettlingar_go.Text.Search.{contains, has_prefix}
use kettlingar_go.Rpc.Method.{MethodDesc}
use kettlingar_go.Logging.Destination
use kettlingar_go.LogSetup.Settings.{Env}
use kettlingar_go.LogSetup.Configure.{close_old}
use kettlingar_go.LogSetup.Client.{has_foreground_flag, setup_client_logging}
use kettlingar_go.Cli.StateFile.{World, Processes, auto_discover}
use kettlingar_go.Cli.Commands.{
  Group, Flag, Command, starts, stops, Root, Tools, add_rpc_commands, unless_panic, define_flag,
}

-- `ping` is the content type and the body of the answer to a GET, none for an error; `version_of` is
-- the version that Unmarshal of MessagePack (for true) or JSON finds; `parse_url` is ks.Url behind
-- PersistentFlags().Parse; `config_error` is an error of ReadInConfig, but for a file that is not
-- there; `execute` says whether cobra's Execute gives no error.
pub record Shell : Type 0 where
  pub ping : Bytes → Option (Bytes × Bytes)
  pub version_of : Bool → Bytes → Bytes
  pub parse_url : List Bytes → Bytes
  pub config_error : Option Bytes
  pub execute : Root → List Bytes → Bool

-- The service in the program of the command line, which compiles its methods in. `groups` are those
-- of its services.
pub record Program : Type 0 where
  pub name : Bytes
  pub version : Bytes
  pub registry : List MethodDesc
  pub groups : List (List Group)

abbrev pub Logged : Type 0
Logged = List (Level × Bytes)

abbrev version_checked : Bytes → Bytes → Logged
version_checked own theirs =
    if bytes_eq theirs [] || bytes_eq theirs own
    then []
    else (level_error, codes "CLI/service API version mismatch") ∷ []

abbrev pub fetched : Shell → Program → Option (Bytes × Bytes) → Bool × Logged
fetched sh p none = (false, [])
fetched sh p (some (content_type, body)) =
    (true, version_checked p.version (sh.version_of (contains content_type (codes "msgpack")) body))

-- Whether the service answered, and what is logged. The manifest is the program's own registry.
unfoldable pub fetch_manifest : Shell → Program → Bytes → Bool × Logged
fetch_manifest sh p url = fetched sh p (sh.ping (url ++ codes "/ping"))

-- The own flags of `start`.
abbrev pub start_flags : List Flag
start_flags =
    record {
      flag_name = codes "port";
      default_text = codes "0";
      usage = codes "Port to listen on (0 picks a free one)";
      viper_key = [];
    }
    ∷ record {
      flag_name = codes "host";
      default_text = codes "127.0.0.1";
      usage = codes "Address to listen on (0.0.0.0 for all interfaces)";
      viper_key = [];
    }
    ∷ record {
      flag_name = codes "foreground";
      default_text = codes "false";
      usage = codes "Run in foreground";
      viper_key = [];
    }
    ∷ []

-- addServiceFlags, by the flags that it asks pflag for, which panics at a name that is defined.
unfoldable pub define_all : List Flag → List Flag → Option (List Flag)
define_all [] flags = some flags
define_all (f ∷ fs) flags = unless_panic (define_flag f flags) (define_all fs)

abbrev pub root_with : List Flag → Root
root_with flags = record {
  groups = record { id = codes "service"; title = codes "Service Commands:" } ∷ [];
  commands =
      record {
        use_line = codes "start";
        short = codes "Start server";
        long = [];
        group_id = codes "service";
        flags = flags;
        run = starts;
      }
      ∷ record {
        use_line = codes "stop";
        short = codes "Stop server (via PID in state file)";
        long = [];
        group_id = codes "service";
        flags = [];
        run = stops;
      }
      ∷ [];
}

-- `start` and `stop`, with the flags that the services' fields ask for; none for a panic.
unfoldable pub static_root : List Flag → Option Root
unfolding define_all
static_root extra = unless_panic (define_all extra start_flags) λ flags. some (root_with flags)

-- The arguments that make DefaultMain look for the service.
unfoldable pub looks_up : List Bytes → Bool
looks_up [] = false
looks_up (a ∷ args) = not (
    has_prefix a (codes "-")
    || (bytes_eq a (codes "start") || (bytes_eq a (codes "stop") || bytes_eq a (codes "help"))))

module _ (tools : Tools) (os : Processes) (sh : Shell) (p : Program) where
  abbrev pub discovered_url : List Bytes → World → Bytes
  discovered_url args w = auto_discover os (sh.parse_url args) w

  abbrev pub with_manifest : Bool × Logged → Root → Option (Root × Logged)
  with_manifest (true, logs) root =
      unless_panic (add_rpc_commands tools p.groups root p.registry) λ after. some (after, logs)
  with_manifest (false, logs) root = some (root, logs)

  abbrev pub with_methods : List Bytes → World → Root → Option (Root × Logged)
  with_methods args w root =
      if looks_up args
      then with_manifest (fetch_manifest sh p (discovered_url args w)) root
      else some (root, [])

  -- The commands for the arguments, and what fetchManifest logs; none for a panic.
  unfoldable pub command_line : List Flag → List Bytes → World → Option (Root × Logged)
  unfolding static_root looks_up fetch_manifest
  command_line extra args w = unless_panic (static_root extra) (with_methods args w)

  abbrev pub help_end : List Bytes → Bytes → World → Bytes
  help_end args state_fn w =
      let url = discovered_url args w in
      let which = if bytes_eq state_fn [] then url else state_fn in
      if (fetch_manifest sh p url).0
      then codes "\nService is up!\n - URL: "
        ++ url
        ++ codes "\n - File: "
        ++ state_fn
        ++ codes "\n\n"
      else codes "\nService is down, not reachable via " ++ which ++ codes "\n\n"

  -- The commands that help shows of a root, and its last lines; `state_fn` is ks.StateFn.
  unfoldable pub show_help : List Bytes → Bytes → World → Root → Option (Root × Bytes)
  unfolding fetch_manifest
  show_help args state_fn w root =
      unless_panic (with_manifest (fetch_manifest sh p (discovered_url args w)) root)
        λ shown. some (shown.0, help_end args state_fn w)

  -- An exit through os.Exit does not run the deferred Close.
  abbrev close_if :
      Bool → Option (List Destination.Sink × Option ℕ) → Destination.World → Destination.World
  close_if true (some (sinks, closer)) lw = close_old (some closer) lw
  close_if _ _ lw = lw

  abbrev config_logs : Option Bytes → Logged
  config_logs none = []
  config_logs (some e) = (level_warn, p.name ++ codes ": error reading config file") ∷ []

  pub record Ran : Type 0 where
    pub root : Root
    pub logged : Logged
    pub logs : Destination.World
    pub exit_code : ℕ

  abbrev pub executed : Env → List Bytes → Destination.World → Root × Logged → Ran
  executed env args lw cl =
      let set_up =
        if has_foreground_flag args then (none, lw) else setup_client_logging env p.name lw in
      let ok = sh.execute cl.0 args in
      record {
        root = cl.0;
        logged = config_logs sh.config_error ++ cl.1;
        logs = close_if ok set_up.0 set_up.1;
        exit_code = if ok then 0 else 1;
      }

  unfoldable pub default_main :
      Env → List Flag → List Bytes → World → Destination.World → Option Ran
  unfolding command_line setup_client_logging has_foreground_flag
  default_main env extra args w lw =
      unless_panic (command_line extra args w) λ cl. some (executed env args lw cl)
