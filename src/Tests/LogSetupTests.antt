-- ===== src/Tests/LogSetupTests.antt =====
-- kettlingar/logging.go and kettlingar/logging/logging.go on concrete inputs.
use kettlingar_go.Prelude.{◌≡◌, refl, true, false, [], ◌∷◌, ◌++◌, codes, none, some, pos, map}
use kettlingar_go.Slog.{
  Value, Attr, group_value, only, also, level_info, level_warn, level_debug, Record, text_value,
  level_value,
}
use kettlingar_go.Logtee.Levels.{level_trace, level_string}
use kettlingar_go.Logging.Tee
use kettlingar_go.Logtee.Fanout.{op_attrs}
use kettlingar_go.Logging.Buffer.{new_buffer_handler}
use kettlingar_go.Logging.Buffer.History.{last}
use kettlingar_go.Logging.Rotate.{FileConfig}
use kettlingar_go.Logging.Destination.{
  Config, World, secret_keys, sink_enabled, sink_op, sink_handle, register_secret_key, replace_attr,
  shown_attr, syslog_facility, log_local, severity, warning, to_stderr,
}
use kettlingar_go.Logging.Choice.{file_sink, options_of, base_handler}
use kettlingar_go.LogSetup.Settings.{Env, LogSettings, resolve_log_config, log_config_key}
use kettlingar_go.LogSetup.Client.{has_foreground_flag, setup_client_logging}
use kettlingar_go.LogSetup.Settings.{client_log_file}
use kettlingar_go.LogSetup.Configure.{Service, install_logging, configure_logging}
use kettlingar_go.LogSetup.Steps.{installs, configures, logs, step, run}
use kettlingar_go.LogSetup.Steps.Tidy.{IsTidy, run-IsTidy}
use kettlingar_go.LogSetup.Steps.Flush.{at_least, lines_of}
use kettlingar_go.LogSetup.Steps.Ordered.{run-lines}
use kettlingar_go.LogSetup.Steps.Written.{tagged}
use kettlingar_go.LogSetup.Steps.Repeat.{configure_logging_again}
use kettlingar_go.LogSetup.Steps.Redacted.{IsRedacted, run-IsRedacted}

abbrev pub env : Env
env = record {
  stderr_is_tty = false;
  user_cache_dir = some (codes "/c");
  join_path = λ parts. codes "/c/k/k.log";
  has_syslog = true;
  opens = λ cfg. true;
}

abbrev broken : Env
broken = record env { opens = λ cfg. false }

abbrev rotation : FileConfig
rotation = record {
  max_size_mb = pos 1;
  max_backups = pos 2;
  max_age_days = pos 0;
  compress = false;
}

abbrev settings : LogSettings
settings = record {
  target = [];
  level = level_info;
  format = [];
  source = false;
  path = [];
  file = rotation;
  syslog = record { addr = []; facility = []; tag = [] };
}

abbrev to_syslogd : LogSettings
to_syslogd = record settings { target = codes "syslog" }

abbrev service : Service
service = record {
  name = codes "k";
  logs = none;
  log_buffer = false;
  log_closer = none;
  log_applied = false;
  log_key = [];
}

abbrev pub world : World
world = record {
  denied = secret_keys;
  buffer = new_buffer_handler (pos 1);
  lines = [];
  opened = 0;
  live = [];
}

abbrev login : Record
login = record {
  level = level_warn;
  message = codes "login";
  attrs = record { key = codes "password"; value = text_value (codes "x") } ∷ [];
}

abbrev quiet : Record
quiet = record { level = level_debug; message = codes "tick"; attrs = [] }

run-IsTidy_example :
    let ops =
      installs
      ∷ logs login
      ∷ configures env settings
      ∷ configures broken to_syslogd
      ∷ configures env (record settings { level = level_warn })
      ∷ [] in
    IsTidy (run ops (service, world)).0 (run ops (service, world)).1
run-IsTidy_example =
    run-IsTidy
      (installs
        ∷ logs login
        ∷ configures env settings
        ∷ configures broken to_syslogd
        ∷ configures env (record settings { level = level_warn })
        ∷ [])
      service world (record { live_is = refl; below = tt; base_is = refl })

abbrev config : Config
config = (resolve_log_config env (codes "k") settings).0

run-lines_example :
    let before = run (installs ∷ map logs (login ∷ quiet ∷ [])) (service, world) in
    let sink = file_sink config (options_of config) 0 in
    (run (configures env settings ∷ map logs (quiet ∷ login ∷ [])) before).1.lines
    ≡ before.1.lines
      ++ (lines_of before.1.denied sink
            (at_least level_info (last 2048 (at_least level_trace (login ∷ quiet ∷ []))))
          ++ lines_of before.1.denied
              (tagged (codes "k") sink)
              (at_least level_info (quiet ∷ login ∷ [])))
unfolding step sink_handle base_handler resolve_log_config Tee.handle Tee.with_attrs sink_enabled
    sink_op
run-lines_example =
    let before = run (installs ∷ map logs (login ∷ quiet ∷ [])) (service, world) in
    run-lines env settings (login ∷ quiet ∷ []) (quiet ∷ login ∷ []) service world
      (record before.1 { opened = 1; live = 0 ∷ [] }) (file_sink config (options_of config) 0)
      (some 0) refl refl refl

configure_logging_again_example :
    let (ks, w) = install_logging service world in
    let after = configure_logging broken settings ks w in
    configure_logging env settings after.0 after.1 ≡ after
unfolding resolve_log_config install_logging
configure_logging_again_example =
    let (ks, w) = install_logging service world in
    configure_logging_again broken env settings ks w refl

run-IsRedacted_example :
    let (ks, w) = run (installs ∷ logs login ∷ configures env settings ∷ []) (service, world) in
    IsRedacted w.lines (run (logs login ∷ []) (ks, w))
unfolding step install_logging configure_logging
run-IsRedacted_example =
    let (ks, w) = run (installs ∷ logs login ∷ configures env settings ∷ []) (service, world) in
    run-IsRedacted (logs login ∷ []) ks w refl

-- The console handler of the bootstrap has no ReplaceAttr.
shown_at_boot :
    (run (installs ∷ logs login ∷ []) (service, world)).1.lines
    ≡ record {
      writer = to_stderr;
      json = false;
      source = false;
      ops = op_attrs (record { key = codes "service"; value = text_value (codes "k") } ∷ []) ∷ [];
      shown = login;
    }
      ∷ []
unfolding step Tee.handle Tee.with_attrs sink_enabled sink_op sink_handle
shown_at_boot = refl

replaced :
    (replace_attr secret_keys (record { key = codes "level"; value = level_value level_trace })
      ≡ record { key = codes "level"; value = text_value (codes "TRACE") })
    × (replace_attr
          (register_secret_key (codes "pin" ∷ []) secret_keys)
          (record { key = codes "pin"; value = text_value (codes "1") })
        ≡ record { key = codes "pin"; value = text_value (codes "[redacted]") })
    × (syslog_facility (codes " Local3") ≡ some (log_local 3))
    × (severity level_warn ≡ warning)
unfolding replace_attr level_string register_secret_key syslog_facility severity
replaced = (refl, refl, refl, refl)

-- The members of a group are replaced by their own keys, whatever the key of the group.
abbrev grouped : Value → Attr
grouped pass = record {
  key = codes "secret";
  value = group_value (also (codes "user") (text_value (codes "a")) (only (codes "password") pass));
}

group_shown :
    shown_attr secret_keys (grouped (text_value (codes "x")))
    ≡ grouped (text_value (codes "[redacted]"))
unfolding shown_attr replace_attr
group_shown = refl

-- Two configurations with one key.
same_key :
    log_config_key
      (record config { syslog = record { addr = codes "a|b"; facility = codes "c"; tag = [] } })
    ≡ log_config_key
        (record config { syslog = record { addr = codes "a"; facility = codes "b|c"; tag = [] } })
unfolding log_config_key
same_key = refl

-- A client process opens its file, and keeps the bootstrap logger where that fails.
client_files :
    ((setup_client_logging env (codes "k") world).1.live ≡ 0 ∷ [])
    × (setup_client_logging broken (codes "k") world ≡ (none, world))
    × (has_foreground_flag (codes "start" ∷ codes "-F" ∷ []) ≡ true)
    × (has_foreground_flag (codes "start" ∷ codes "--foreground=true" ∷ []) ≡ false)
unfolding setup_client_logging has_foreground_flag client_log_file base_handler
client_files = (refl, refl, refl, refl)
