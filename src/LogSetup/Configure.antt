-- ===== src/LogSetup/Configure.antt =====
-- InstallLogging and ConfigureLogging of kettlingar/logging.go.
pub mod Resources
use kettlingar_go.Prelude.{
  ℕ, Bool, true, false, ◌&&◌, not, ◌==◌, List, [], ◌∷◌, ◌++◌, if◌then◌else◌, Bytes, bytes_eq, codes,
  Option, none, some, pos, leb_ℤ,
}
use kettlingar_go.Slog.{Level, level_warn, Attr, Record, Handlers, text_value}
use kettlingar_go.Logtee.Levels.{level_trace}
use kettlingar_go.Logtee.Fanout
use kettlingar_go.Logtee.Fanout.{
  Hub, FanoutHandler, root_handler, new_handler, set_level, set_base, set_base_flushing,
}
use kettlingar_go.Logging.Buffer
use kettlingar_go.Logging.Buffer.{BufferHandler, new_buffer_handler}
use kettlingar_go.Logging.Tee
use kettlingar_go.Logging.Destination.{
  Config, World, Sink, buffered, formatted, to_stderr, sinks, sink_op, sink_enabled, sink_handle,
}
use kettlingar_go.Logging.Choice.{Opened, opened, refused, base_handler}
use kettlingar_go.LogSetup.Settings.{Env, LogSettings, resolve_log_config}

-- A base of the fan-out: the bootstrap tee, or the sink of a configuration.
pub data Base : Type 0 where
  teed : List Sink → Base
  single : Sink → Base

abbrev base_enabled : Base → Level → Bool
base_enabled (teed t) l = Tee.enabled sinks t l
base_enabled (single s) l = sink_enabled s l

abbrev pub base_handle : Base → Record → World → Option Bytes × World
base_handle (teed t) r w = Tee.handle sinks t r w
base_handle (single s) r w = sink_handle s r w

abbrev base_attrs : Base → List Attr → Base
base_attrs (teed t) attrs = teed (Tee.with_attrs sinks t attrs)
base_attrs (single s) attrs = single (sinks.with_attrs s attrs)

abbrev base_group : Base → Bytes → Base
base_group (teed t) name = teed (Tee.with_group sinks t name)
base_group (single s) name = single (sinks.with_group s name)

abbrev pub bases : Handlers
bases = record {
  Handler = Base;
  World = World;
  enabled = base_enabled;
  handle = base_handle;
  with_attrs = base_attrs;
  with_group = base_group;
}

-- The logging fields of KettlingarService; the buffer itself is in the world. `log_closer` is none
-- for nil, `some none` for a noopCloser.
pub record Service : Type 0 where
  pub name : Bytes
  pub logs : Option (Hub bases)
  pub log_buffer : Bool
  pub log_closer : Option (Option ℕ)
  pub log_applied : Bool
  pub log_key : Bytes

-- slog.New(fan).With("service", ks.Name), of which MakeService makes ks.Logger.
unfoldable pub logger : Bytes → FanoutHandler
unfolding Fanout.with_attrs
logger name =
    Fanout.with_attrs root_handler (record { key = codes "service"; value = text_value name } ∷ [])

-- A call of the logger, which asks Enabled first.
unfoldable pub log : Bytes → Record → Hub bases → World → Hub bases × World
unfolding Fanout.enabled Fanout.handle logger
log name r hub w =
    if Fanout.enabled bases hub r.level
    then (let (e, hub', w') = Fanout.handle bases (logger name) none r hub w in (hub', w'))
    else (hub, w)

abbrev pub bootstrap : List Sink
bootstrap =
    buffered
    ∷ formatted to_stderr false (record { level = level_warn; source = false; replaces = false }) []
    ∷ []

abbrev pub install_on : Option (Hub bases) → Service → World → Service × World
install_on (some hub) ks w = (ks, w)
install_on none ks w = (
  record ks { logs = some (new_handler bases (teed bootstrap) level_trace); log_buffer = true },
  record w { buffer = new_buffer_handler (pos 2048) },
)

unfoldable pub install_logging : Service → World → Service × World
unfolding new_buffer_handler new_handler
install_logging ks w = install_on ks.logs ks w

-- Close of the old sink. A noopCloser does nothing.
abbrev pub without : ℕ → List ℕ → List ℕ
without n [] = []
without n (m ∷ ms) = let rest = without n ms in if m == n then rest else m ∷ rest

abbrev pub close_old : Option (Option ℕ) → World → World
close_old none w = w
close_old (some none) w = w
close_old (some (some n)) w = record w { live = without n w.live }

-- The drain of the bootstrap buffer, or none where there is no buffer.
abbrev pub drain : Bool → World → List Record × World
drain false w = ([], w)
drain true w = let (rs, b) = Buffer.drain w.buffer in (rs, record w { buffer = b })

-- SetBase, or SetBaseFlushing with the first sink.
unfoldable pub rebase : Bool → Bool → Level → Sink → Hub bases → World → Hub bases × World
unfolding set_base set_base_flushing Buffer.drain
rebase true has_buffer level sink hub w = (set_base bases (single sink) hub, w)
rebase false has_buffer level sink hub w =
    set_base_flushing bases (single sink) (drain has_buffer) level hub w

-- From the new sink on.
unfoldable pub apply_base :
    Level → Bytes → Service → Hub bases → Sink → Option ℕ → World → Service × World
unfolding rebase set_level
apply_base level key ks hub sink closer w =
    let (hub', w') = rebase ks.log_applied ks.log_buffer level sink hub w in
    (
      record ks {
        logs = some (set_level bases level hub');
        log_buffer = ks.log_applied && ks.log_buffer;
        log_closer = some closer;
        log_applied = true;
        log_key = key;
      },
      close_old ks.log_closer w',
    )

abbrev pub warning_record : Bytes → Bytes → Bytes → Record
warning_record name target text = record {
  level = level_warn;
  message = name ++ codes ": logging falling back to stderr";
  attrs =
      record { key = codes "target"; value = text_value target }
      ∷ record { key = codes "err"; value = text_value text }
      ∷ [];
}

-- The second call of BaseHandler, for stderr, cannot fail.
abbrev pub apply_fallback : Config → Bytes → Service → Hub bases → Opened → World → Service × World
apply_fallback cfg key ks hub (opened sink closer w') w =
    apply_base cfg.level key ks hub sink closer w'
apply_fallback cfg key ks hub (refused text) w = (ks, w)

abbrev pub apply_opened :
    Env → Config → Bytes → Service → Hub bases → Opened → World → Service × World
apply_opened env cfg key ks hub (opened sink closer w') w =
    apply_base cfg.level key ks hub sink closer w'
apply_opened env cfg key ks hub (refused text) w =
    let (hub', w') = log ks.name (warning_record ks.name cfg.target text) hub w in
    apply_fallback cfg key ks hub'
      (base_handler env.has_syslog env.opens (record cfg { target = codes "stderr" }) w') w'

abbrev pub is_same : Service → Bytes → Bool
is_same ks key = ks.log_applied && bytes_eq key ks.log_key

abbrev pub configure_on : Env → LogSettings → Option (Hub bases) → Service → World → Service × World
configure_on env s none ks w = (ks, w)
configure_on env s (some hub) ks w =
    let (cfg, key) = resolve_log_config env ks.name s in
    if is_same ks key
    then (ks, w)
    else apply_opened env cfg key ks hub (base_handler env.has_syslog env.opens cfg w) w

unfoldable pub configure_logging : Env → LogSettings → Service → World → Service × World
unfolding resolve_log_config base_handler apply_base log
configure_logging env s ks w = configure_on env s ks.logs ks w
