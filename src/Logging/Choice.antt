-- ===== src/Logging/Choice.antt =====
-- BaseHandler of kettlingar/logging/logging.go and newSyslogHandler of syslog_unix.go and
-- syslog_other.go: the sink of a configuration, and what releases it. `opens` says which files and
-- connections can be opened, `has_syslog` which of the two files the system builds.
use kettlingar_go.Prelude.{
  ℕ, ◌+◌, Bool, true, ◌||◌, [], ◌∷◌, if◌then◌else◌, Bytes, bytes_eq, codes, Option, none, some,
}
use kettlingar_go.Logging.Destination.{
  Config, Facility, syslog_facility, World, Sink, formatted, syslogged, discard, HandlerOptions,
  Writer, to_stderr, to_stdout, to_file,
}

-- A handler with its Closer, none for a noopCloser; or an error.
pub data Opened : Type 0 where
  opened : Sink → Option ℕ → World → Opened
  refused : Bytes → Opened

abbrev pub is_json : Bytes → Bool
is_json format = bytes_eq format (codes "json")

unfoldable pub format_handler : Writer → Bytes → HandlerOptions → Sink
format_handler out format opts = formatted out (is_json format) opts []

-- A file or connection is opened under the next number.
abbrev pub acquire : (ℕ → Sink) → World → Opened
acquire sink w =
    opened (sink w.opened) (some w.opened)
      (record w { opened = w.opened + 1; live = w.opened ∷ w.live })

abbrev pub syslog_sink : Config → Facility → ℕ → Sink
syslog_sink cfg fac n =
    syslogged n fac (if bytes_eq cfg.syslog.tag [] then codes "kettlingar" else cfg.syslog.tag)
      (is_json cfg.format) []

abbrev pub file_sink : Config → HandlerOptions → ℕ → Sink
file_sink cfg opts n = formatted (to_file n) (is_json cfg.format) opts []

-- From the facility on.
abbrev pub dial_syslog : (Config → Bool) → Config → World → Option Facility → Opened
dial_syslog opens cfg w none = refused (codes "logging: unknown syslog facility")
dial_syslog opens cfg w (some fac) =
    if opens cfg then acquire (syslog_sink cfg fac) w else refused (codes "logging: syslog")

unfoldable pub new_syslog_handler : Bool → (Config → Bool) → Config → World → Opened
new_syslog_handler has_syslog opens cfg w =
    if has_syslog
    then dial_syslog opens cfg w (syslog_facility cfg.syslog.facility)
    else refused (codes "logging: syslog is not supported on this platform")

-- The cases of BaseHandler's switch.
pub data Target : Type 0 where
  no_target stderr_target stdout_target file_target syslog_target unknown_target : Target

unfoldable pub target_of : Bytes → Target
target_of t =
    if bytes_eq t (codes "none") || bytes_eq t (codes "off") || bytes_eq t (codes "discard")
    then no_target
    else if bytes_eq t [] || bytes_eq t (codes "stderr")
    then stderr_target
    else if bytes_eq t (codes "stdout")
    then stdout_target
    else if bytes_eq t (codes "file")
    then file_target
    else if bytes_eq t (codes "syslog")
    then syslog_target
    else unknown_target

abbrev pub options_of : Config → HandlerOptions
options_of cfg = record { level = cfg.level; source = cfg.source; replaces = true }

unfoldable pub open_target : Bool → (Config → Bool) → Config → World → Target → Opened
unfolding format_handler new_syslog_handler
open_target has_syslog opens cfg w no_target = opened discard none w
open_target has_syslog opens cfg w stderr_target =
    opened (format_handler to_stderr cfg.format (options_of cfg)) none w
open_target has_syslog opens cfg w stdout_target =
    opened (format_handler to_stdout cfg.format (options_of cfg)) none w
open_target has_syslog opens cfg w file_target =
    if opens cfg
    then acquire (file_sink cfg (options_of cfg)) w
    else refused (codes "logging: open log file")
open_target has_syslog opens cfg w syslog_target = new_syslog_handler has_syslog opens cfg w
open_target has_syslog opens cfg w unknown_target = refused (codes "logging: unknown log target")

unfoldable pub base_handler : Bool → (Config → Bool) → Config → World → Opened
unfolding target_of open_target
base_handler has_syslog opens cfg w = open_target has_syslog opens cfg w (target_of cfg.target)
