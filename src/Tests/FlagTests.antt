-- ===== src/Tests/FlagTests.antt =====
-- Flags of a service with three fields, of which one is not annotated.
use kettlingar_go.Prelude.{
  ℕ, ◌≡◌, refl, arith, true, false, [], ◌∷◌, ◌++◌, List, Bytes, codes, none, some, pos, length,
  bytes_eq, if◌then◌else◌,
}
use kettlingar_go.Text.Dashed.{ascii, dashed_name}
use kettlingar_go.Cli.Flags.{
  Library, Value, string_value, int_value, ServiceField, of_string, of_int, ServiceFlag, bool_flag,
  string_flag, Viper, add_service_flags, sync_service_configs,
}
use kettlingar_go.Cli.Flags.Registered.{sync_service_configs-default, service_flags}

abbrev library : Library
library = record {
  Duration = ℕ;
  Time = ℕ;
  Addr = Bytes;
  Float = ℕ;
  Other = ℕ;
  duration_of = length;
  int_of = λ text. pos (length text);
  bool_of = λ text. false;
  float_of = length;
  to_float32 = λ x. x;
  parse_rfc3339 = λ text. none;
  parse_date = λ text. none;
  parse_addr = λ text. some text;
}

abbrev spool_dir : Value library → ServiceField library
spool_dir v = record {
  field_name = codes "SpoolDir";
  help = codes "Where to keep mail";
  def = codes "/tmp";
  type = of_string;
  can_set = true;
  value = v;
}

abbrev workers : Value library → ServiceField library
workers v = record {
  field_name = codes "Workers";
  help = codes "How many";
  def = codes "|||";
  type = of_int;
  can_set = true;
  value = v;
}

abbrev plain : ServiceField library
plain = record {
  field_name = codes "Calls";
  help = [];
  def = codes "1";
  type = of_int;
  can_set = true;
  value = int_value (pos 7);
}

abbrev of_start : List (ServiceFlag library)
of_start =
    record {
      name = codes "port";
      usage = codes "Port to listen on (0 picks a free one)";
      default_value = string_flag (codes "0");
    }
    ∷ record {
      name = codes "host";
      usage = codes "Address to listen on (0.0.0.0 for all interfaces)";
      default_value = string_flag (codes "127.0.0.1");
    }
    ∷ record {
      name = codes "foreground";
      usage = codes "Run in foreground";
      default_value = bool_flag false;
    }
    ∷ []

abbrev unset : Viper library
unset = record {
  get_duration = λ name. 0;
  get_string = λ name. if bytes_eq name (codes "spool-dir") then codes "/tmp" else [];
  get_int64 = λ name. pos 3;
  get_bool = λ name. false;
  get_float64 = λ name. 0;
}

sync_service_configs-default_example :
    let empty =
      (spool_dir (string_value []) ∷ plain ∷ []) ∷ (workers (int_value (pos 0)) ∷ []) ∷ [] in
    (add_service_flags library ascii empty of_start
      ≡ some (of_start ++ service_flags library ascii empty))
    × (sync_service_configs library ascii unset empty
        ≡ (spool_dir (string_value (codes "/tmp")) ∷ plain ∷ [])
          ∷ (workers (int_value (pos 3)) ∷ [])
          ∷ [])
unfolding dashed_name
sync_service_configs-default_example =
    sync_service_configs-default library ascii unset
      ((spool_dir (string_value []) ∷ plain ∷ []) ∷ (workers (int_value (pos 0)) ∷ []) ∷ [])
      of_start
      (
        (ground arith, (ground arith, (ground arith, tt))),
        ((ground arith, (ground arith, (ground arith, (ground arith, tt)))), tt),
      )
      (refl, (refl, tt))
