-- ===== src/Cli/Main/Discovery.antt =====
-- The commands of a command line whose service answers.
use kettlingar_go.Prelude.{Bytes, some}
use kettlingar_go.Logging.Destination
use kettlingar_go.Cli.StateFile.{Processes}
use kettlingar_go.Cli.Commands.{Tools}
use kettlingar_go.Cli.Main.{Shell, Program, Logged, fetched}

module _ (tools : Tools) (os : Processes) (sh : Shell) (p : Program) where
  answered : Bytes × Bytes → Logged
  answered answer = (fetched sh p (some answer)).1
