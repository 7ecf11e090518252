-- ===== src/Tests/CliTests.antt =====
-- The life of a server of kettlingar/default_main.go on concrete inputs.
use kettlingar_go.Prelude.{
  ◌≡◌, refl, arith, List, true, false, [], ◌∷◌, ◌++◌, ◌==◌, codes, none, some, pos, negsuc, Bytes,
  bytes_eq, if◌then◌else◌,
}
use kettlingar_go.Text.Space.{Solid}
use kettlingar_go.Text.Decimal.{decimal}
use kettlingar_go.Cli.Ready.{signal_ready, signal_ready-signal_ready}
use kettlingar_go.Cli.StateFile.{
  World, Processes, Signal, stop, state_file_path, probe, terminate, auto_discover,
  probe_or_stop_server, sent, default_url, stopped, shut, set_up, started, bound, state_written,
  told,
}
use kettlingar_go.Cli.Server.{
  Hooks, Server, Host, exited, serving, no_listener, listening, start_foreground, serve,
}
use kettlingar_go.Cli.Server.Codes.{code_of, start_foreground-code}
use kettlingar_go.Cli.Server.Order.{start_foreground-serving}
use kettlingar_go.Cli.Start.{ready_pipe, start_background, shut_down}
use kettlingar_go.Cli.Start.Outcome.{start_background-code}
use kettlingar_go.Cli.Start.Stop.{
  Reaches, auto_discover-state_data, start_foreground-running, shut_down_lem,
}

-- Process 7 is there.
abbrev pub os : Processes
os = record {
  viper_url = [];
  scan_pid = λ text. if bytes_eq text (codes "7") then pos 7 else pos 0;
  has_process = λ pid. true;
  answers = λ sending pid. elim pid [ pos n ↦ n == 7 | negsuc n ↦ false ];
  removes = true;
}

abbrev host : Host
host = record {
  os = os;
  is_open = λ fd. bytes_eq fd (codes "3");
  listen = λ address port. listening true 8080;
  join_host_port = λ address port. address ++ b':' ∷ port;
  write_file = λ text old. some text;
  pid = 7;
  can_pipe = true;
  can_start = true;
  in_time = true;
}

abbrev deaf : Host
deaf = record host { listen = λ address port. no_listener (codes "in use") }

abbrev plain : Hooks
plain = record {
  name = codes "a";
  setup = some none;
  background = none;
  startup = none;
  shutdown = some (some (codes "late"));
}

abbrev other : Hooks
other = record plain { name = codes "b"; startup = some none }

abbrev server : Server
server = record { name = codes "k"; url = []; secret = codes "s3"; services = plain ∷ other ∷ [] }

abbrev quiet : World
quiet = record { state_file = none; pipe = ready_pipe; trace = [] }

abbrev all_hosts : Bytes
all_hosts = codes "0.0.0.0"

abbrev running : Server
running = record server { url = codes "http://127.0.0.1:8080/s3" }

abbrev pub busy : World
busy = record quiet { state_file = some (codes "http://127.0.0.1:8080/s3\n7") }

second_signal :
    signal_ready host.is_open (codes "ERR x") (signal_ready host.is_open (codes "OK") ready_pipe)
    ≡ record { ready_fd = []; written = codes "OK\n"; closed = true }
unfolding signal_ready
second_signal = signal_ready-signal_ready host.is_open (codes "OK") (codes "ERR x") ready_pipe

start_foreground-code_example :
    code_of (start_foreground deaf all_hosts (codes "0") server quiet) ≡ some 5
unfolding start_foreground auto_discover probe_or_stop_server
start_foreground-code_example = start_foreground-code deaf all_hosts (codes "0") server quiet

start_foreground-serving_example :
    start_foreground host all_hosts (codes "0") server quiet
    ≡ serving running (record {
      state_file = some (codes "http://127.0.0.1:8080/s3\n7");
      pipe = record { ready_fd = []; written = codes "OK\n"; closed = true };
      trace =
          set_up (codes "a")
          ∷ set_up (codes "b")
          ∷ started (codes "b")
          ∷ bound 8080
          ∷ state_written (codes "http://127.0.0.1:8080/s3\n7")
          ∷ told (codes "OK")
          ∷ [];
    })
unfolding decimal signal_ready auto_discover probe_or_stop_server
start_foreground-serving_example =
    start_foreground-serving host all_hosts (codes "0") server quiet quiet true 8080 refl refl refl
      refl

start_background-code_example :
    let child = start_foreground host all_hosts (codes "0") server in
    code_of (start_background host child server quiet) ≡ some 0
unfolding start_foreground start_background auto_discover probe_or_stop_server serve
start_background-code_example =
    start_background-code host host all_hosts (codes "0") server quiet quiet refl refl
      (refl, (refl, tt)) refl refl refl refl

running-Solid : Solid running.url
running-Solid = ground arith

reach : (sending : Signal) → Reaches os sending 7
unfolding decimal
reach sending = record { unset = refl; reads = refl; there = refl; takes = refl }

auto_discover-state_data_example :
    (auto_discover os [] busy ≡ codes "http://127.0.0.1:8080/s3")
    × (probe_or_stop_server os terminate busy ≡ (true, record busy { trace = sent (pos 7) ∷ [] }))
unfolding decimal
auto_discover-state_data_example =
    auto_discover-state_data host running os terminate busy running-Solid (reach terminate) refl

start_foreground-running_example :
    (start_foreground host all_hosts (codes "0") server busy ≡ exited 2 busy)
    × (start_background host (λ w. exited 5 w) server busy ≡ exited 2 busy)
unfolding decimal
start_foreground-running_example =
    start_foreground-running host host all_hosts (codes "0") running server (λ w. exited 5 w) busy
      running-Solid refl (reach probe) refl refl

shut_down_lem_example :
    let down = shut_down os running busy in
    (down ≡ record quiet { trace = stopped ∷ shut (codes "a") ∷ shut (codes "b") ∷ [] })
    × (probe_or_stop_server os probe down ≡ (false, down))
    × (auto_discover os [] down ≡ default_url)
shut_down_lem_example = shut_down_lem os running os probe busy refl

-- A removal that fails.
left_behind : (shut_down (record os { removes = false }) running busy).state_file ≡ busy.state_file
unfolding shut_down
left_behind = refl

-- The path with slashes between its parts.
abbrev slashed : List Bytes → Bytes
slashed [] = []
slashed (part ∷ []) = part
slashed (part ∷ next ∷ parts) = part ++ b'/' ∷ slashed (next ∷ parts)

-- A signal, a file without a second line, and no file.
stop_run :
    (stop os busy ≡ (true, record busy { trace = sent (pos 7) ∷ [] }))
    × (stop os (record busy { state_file = some (codes "u") })
        ≡ (false, record busy { state_file = none }))
    × (stop os quiet ≡ (false, quiet))
    × (state_file_path slashed (codes "/c") (codes "k") ≡ codes "/c/kettlingar/k.url")
unfolding stop decimal state_file_path
stop_run = (refl, refl, refl, refl)
