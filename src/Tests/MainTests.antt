-- ===== src/Tests/MainTests.antt =====
-- A command line whose service answers, and one that begins with a flag.
use kettlingar_go.Prelude.{◌≡◌, refl, true, [], ◌∷◌, codes, none, some}
use kettlingar_go.Cli.Commands.{Flag}
use kettlingar_go.Cli.Main.{Shell, Program, root_with, start_flags, static_root, command_line}
use kettlingar_go.Tests.CliTests.{os, busy}
use kettlingar_go.Tests.CommandTests.{tools, send, mail}

abbrev shell : Shell
shell = record {
  ping = λ url. some (codes "application/json", codes "{}");
  version_of = λ packed body. codes "v0.0.1.ff";
  parse_url = λ args. [];
  config_error = none;
  execute = λ root args. true;
}

abbrev program : Program
program = record {
  name = codes "k";
  version = codes "v0.0.1.00";
  registry = send ∷ [];
  groups = (mail ∷ []) ∷ [];
}

abbrev spool : Flag
spool = record {
  flag_name = codes "spool-dir";
  default_text = codes "/tmp";
  usage = codes "Where to keep mail";
  viper_key = codes "spool-dir";
}

-- A flag before the command hides the methods, though the service answers.
flag_first :
    command_line tools os shell program [] (codes "-f" ∷ codes "json" ∷ codes "send" ∷ []) busy
    ≡ some (root_with start_flags, [])
unfolding command_line
flag_first = refl

-- A field of a service whose flag is called as one of `start`.
taken_flag : static_root (record spool { flag_name = codes "port" } ∷ []) ≡ none
unfolding static_root
taken_flag = refl
