-- ===== src/LogSetup/Settings.antt =====
-- LogSettings of kettlingar/logging.go and their resolution.
use kettlingar_go.Prelude.{
  Bool, true, false, ◌||◌, ◌&&◌, List, [], ◌∷◌, ◌++◌, if◌then◌else◌, Bytes, bytes_eq, codes, Option,
  none, some,
}
use kettlingar_go.Slog.{Level}
use kettlingar_go.Text.Decimal.{decimal_ℤ}
use kettlingar_go.Text.Search.{join}
use kettlingar_go.Logging.Rotate.{FileConfig}
use kettlingar_go.Logging.Destination.{Config, SyslogConfig}

-- What the operating system answers: `user_cache_dir` is none on an error, `join_path` is
-- filepath.Join, `opens` says whether a file or a connection can be opened.
pub record Env : Type 0 where
  pub stderr_is_tty : Bool
  pub user_cache_dir : Option Bytes
  pub join_path : List Bytes → Bytes
  pub has_syslog : Bool
  pub opens : Config → Bool

pub record LogSettings : Type 0 where
  pub target : Bytes
  pub level : Level
  pub format : Bytes
  pub source : Bool
  pub path : Bytes
  pub file : FileConfig
  pub syslog : SyslogConfig

unfoldable pub resolve_log_target : Bytes → Bytes
resolve_log_target t =
    if bytes_eq t [] || bytes_eq t (codes "-") || bytes_eq t (codes "auto") then codes "file" else t

unfoldable pub resolve_log_format : Env → Bytes → Bytes → Bytes
resolve_log_format env format target =
    if bytes_eq format (codes "text") || bytes_eq format (codes "json")
    then format
    else if bytes_eq target (codes "file") || bytes_eq target (codes "syslog")
    then codes "json"
    else if env.stderr_is_tty
    then codes "text"
    else codes "json"

unfoldable pub default_log_file : Env → Bytes → Bytes
default_log_file env name = elim env.user_cache_dir [
  | none ↦ []
  | some dir ↦ env.join_path (dir ∷ name ∷ (name ++ codes ".log") ∷ [])
]

unfoldable pub client_log_file : Env → Bytes → Bytes
client_log_file env name = elim env.user_cache_dir [
  | none ↦ []
  | some dir ↦ env.join_path (dir ∷ name ∷ (name ++ codes "-cli.log") ∷ [])
]

abbrev bool_text : Bool → Bytes
bool_text true = codes "true"
bool_text false = codes "false"

unfoldable pub log_config_key : Config → Bytes
log_config_key c = join b'|' (
    c.target
    ∷ c.format
    ∷ decimal_ℤ c.level
    ∷ bool_text c.source
    ∷ c.path
    ∷ decimal_ℤ c.file.max_size_mb
    ∷ decimal_ℤ c.file.max_backups
    ∷ decimal_ℤ c.file.max_age_days
    ∷ bool_text c.file.compress
    ∷ c.syslog.addr
    ∷ c.syslog.facility
    ∷ c.syslog.tag
    ∷ [])

abbrev path_or_default : Env → Bytes → Bytes → Bytes
path_or_default env name path = elim path [ [] ↦ default_log_file env name | c ∷ cs ↦ c ∷ cs ]

-- stderr where the target is a file and there is no path for one.
abbrev final_target : Bytes → Bytes → Bytes
final_target target path =
    if bytes_eq target (codes "file") && bytes_eq path [] then codes "stderr" else target

unfoldable pub resolve_log_config : Env → Bytes → LogSettings → Config × Bytes
unfolding resolve_log_target resolve_log_format default_log_file log_config_key
resolve_log_config env name s =
    let path = path_or_default env name s.path in
    let target = final_target (resolve_log_target s.target) path in
    let cfg : Config = record {
      target = target;
      format = resolve_log_format env s.format target;
      level = s.level;
      source = s.source;
      path = path;
      file = s.file;
      syslog = s.syslog;
    } in
    (cfg, log_config_key cfg)
