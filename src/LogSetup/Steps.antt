-- ===== src/LogSetup/Steps.antt =====
-- The life of a service's logging as a sequence of steps.
pub mod Tidy
pub mod Flush
pub mod Repeat
pub mod Redacted
pub mod Written
pub mod Ordered
use kettlingar_go.Prelude.{List, [], ◌∷◌, Option, none, some}
use kettlingar_go.Slog.{Record}
use kettlingar_go.Logtee.Fanout.{Hub}
use kettlingar_go.Logging.Destination.{World}
use kettlingar_go.LogSetup.Settings.{Env, LogSettings}
use kettlingar_go.LogSetup.Configure.{bases, Service, install_logging, log, configure_logging}

-- What a process does with its logging.
pub data Op : Type 0 where
  installs : Op
  configures : Env → LogSettings → Op
  logs : Record → Op

abbrev pub log_on : Record → Option (Hub bases) → Service → World → Service × World
log_on r none ks w = (ks, w)
log_on r (some hub) ks w =
    let (hub', w') = log ks.name r hub w in (record ks { logs = some hub' }, w')

unfoldable pub step : Op → Service × World → Service × World
unfolding install_logging configure_logging log
step installs (ks, w) = install_logging ks w
step (configures env s) (ks, w) = configure_logging env s ks w
step (logs r) (ks, w) = log_on r ks.logs ks w

abbrev pub run : List Op → Service × World → Service × World
run [] s = s
run (op ∷ ops) s = run ops (step op s)
