-- ===== src/LogSetup/Client.antt =====
-- SetupClientLogging of kettlingar/logging.go, and hasForegroundFlag of kettlingar/default_main.go, by
-- which DefaultMain decides whether to call it.
use kettlingar_go.Prelude.{
  ℕ, Bool, false, ◌||◌, List, [], ◌∷◌, ◌++◌, Bytes, bytes_eq, codes, Option, none, some, pos,
}
use kettlingar_go.Slog.{Attr, level_warn, text_value}
use kettlingar_go.Logtee.Levels.{level_trace}
use kettlingar_go.Logging.Tee
use kettlingar_go.Logging.Destination.{Config, World, Sink, formatted, to_stderr, sinks}
use kettlingar_go.Logging.Choice.{Opened, opened, refused, base_handler}
use kettlingar_go.LogSetup.Settings.{Env, client_log_file}

unfoldable pub has_foreground_flag : List Bytes → Bool
has_foreground_flag [] = false
has_foreground_flag (a ∷ args) =
    bytes_eq a (codes "--foreground") || bytes_eq a (codes "-F") || has_foreground_flag args

-- A zero FileConfig but for its path.
abbrev client_config : Bytes → Config
client_config path = record {
  target = codes "file";
  format = codes "text";
  level = level_trace;
  source = false;
  path = path;
  file = record {
    max_size_mb = pos 0;
    max_backups = pos 0;
    max_age_days = pos 0;
    compress = false;
  };
  syslog = record { addr = []; facility = []; tag = [] };
}

abbrev service_attr : Bytes → List Attr
service_attr name = record { key = codes "service"; value = text_value (name ++ codes "-cli") } ∷ []

-- The handlers of the new default logger with the Closer that is returned; none where the bootstrap
-- logger stays.
abbrev client_logger : Bytes → Opened → World → Option (List Sink × Option ℕ) × World
client_logger name (refused text) w = (none, w)
client_logger name (opened sink closer w') w =
    let stderr =
      formatted to_stderr false (record { level = level_warn; source = false; replaces = false })
        [] in
    (some (Tee.with_attrs sinks (sink ∷ stderr ∷ []) (service_attr name), closer), w')

abbrev setup_at : Env → Bytes → Bytes → World → Option (List Sink × Option ℕ) × World
setup_at env name [] w = (none, w)
setup_at env name (c ∷ path) w =
    client_logger name (base_handler env.has_syslog env.opens (client_config (c ∷ path)) w) w

unfoldable pub setup_client_logging : Env → Bytes → World → Option (List Sink × Option ℕ) × World
unfolding client_log_file base_handler Tee.with_attrs
setup_client_logging env name w = setup_at env name (client_log_file env name) w
