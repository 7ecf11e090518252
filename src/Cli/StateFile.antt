-- ===== src/Cli/StateFile.antt =====
-- autoDiscover, probeOrStopServer and Stop of kettlingar/default_main.go: the file that names a running
-- server. All processes of a service have the same path for it (getStateFilePath), so its contents
-- are a field of the world.
use kettlingar_go.Prelude.{
  ℕ, Bool, true, false, List, [], ◌∷◌, ◌++◌, if◌then◌else◌, Bytes, codes, Option, none, some, ℤ,
}
use kettlingar_go.Text.Search.{split}
use kettlingar_go.Text.Space.{trim_space}
use kettlingar_go.Cli.Ready.{Pipe}

-- syscall.SIGTERM, and 0, which only asks whether the process is there.
pub data Signal : Type 0 where
  terminate probe : Signal

pub data Event : Type 0 where
  set_up started shut background : Bytes → Event
  bound : ℕ → Event
  state_written : Bytes → Event
  told : Bytes → Event
  spawned stopped : Event
  sent : ℤ → Event

pub record World : Type 0 where
  pub state_file : Option Bytes
  pub pipe : Pipe
  pub trace : List Event

abbrev pub happens : Event → World → World
happens e w = record w { trace = w.trace ++ e ∷ [] }

-- What the system answers to this process. `scan_pid` is Sscanf with %d into a zero, `has_process`
-- os.FindProcess, `answers` whether process.Signal gives no error, `removes` whether os.Remove takes
-- away the state file; its error is dropped.
pub record Processes : Type 0 where
  pub viper_url : Bytes
  pub scan_pid : Bytes → ℤ
  pub has_process : ℤ → Bool
  pub answers : Signal → ℤ → Bool
  pub removes : Bool

abbrev pub default_url : Bytes
default_url = codes "http://localhost:8123"

abbrev pub or_else : Bytes → Bytes → Bytes
or_else [] t = t
or_else (c ∷ s) t = c ∷ s

abbrev pub head_line : List Bytes → Bytes
head_line [] = []
head_line (line ∷ lines) = trim_space line

abbrev pub known_or_read : Bytes → Option Bytes → Bytes
known_or_read (c ∷ url) file = c ∷ url
known_or_read [] none = default_url
known_or_read [] (some file) = head_line (split b'\n' file)

-- The new ks.Url of a service whose ks.Url is `url`.
unfoldable pub auto_discover : Processes → Bytes → World → Bytes
unfolding trim_space
auto_discover os url w = known_or_read (or_else url os.viper_url) w.state_file

abbrev pub remove_state : Processes → World → World
remove_state os w = record w { state_file = if os.removes then none else w.state_file }

abbrev pub note_sent : Signal → ℤ → World → World
note_sent probe pid w = w
note_sent terminate pid w = happens (sent pid) w

abbrev pub signal_process : Processes → Signal → ℤ → World → Bool × World
signal_process os sending pid w =
    if os.has_process pid
    then if os.answers sending pid
      then (true, note_sent sending pid w)
      else (false, remove_state os w)
    else (true, w)

abbrev pub probe_lines : Processes → Signal → List Bytes → World → Bool × World
probe_lines os sending (url ∷ pid ∷ lines) w = signal_process os sending (os.scan_pid pid) w
probe_lines os sending _ w = (false, remove_state os w)

abbrev pub probe_file : Processes → Signal → Option Bytes → World → Bool × World
probe_file os sending none w = (false, w)
probe_file os sending (some file) w = probe_lines os sending (split b'\n' file) w

-- probeOrStopServer(true) with `probe`, probeOrStopServer(false) with `terminate`.
unfoldable pub probe_or_stop_server : Processes → Signal → World → Bool × World
probe_or_stop_server os sending w = probe_file os sending w.state_file w

unfoldable pub stop : Processes → World → Bool × World
unfolding probe_or_stop_server
stop os w = probe_or_stop_server os terminate w

-- getStateFilePath: `join` is filepath.Join, and the directory is what os.UserConfigDir gives, empty
-- where it fails.
unfoldable pub state_file_path : (List Bytes → Bytes) → Bytes → Bytes → Bytes
state_file_path join config_dir name =
    join (join (config_dir ∷ codes "kettlingar" ∷ []) ∷ (name ++ codes ".url") ∷ [])
