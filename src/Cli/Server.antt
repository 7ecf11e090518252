-- ===== src/Cli/Server.antt =====
-- startServer of kettlingar/default_main.go, up to where it waits for a signal (start_foreground and
-- start_server) and from there on (shut_down); and spawnBackground. A hook is what it returns; what
-- else it does is not modelled.
pub mod Codes
pub mod Order
use kettlingar_go.Prelude.{
  ℕ, Bool, true, false, List, [], ◌∷◌, ◌++◌, if◌then◌else◌, Bytes, bytes_eq, codes, Option, none,
  some,
}
use kettlingar_go.Text.Decimal.{decimal}
use kettlingar_go.Cli.Ready.{Pipe, signal_ready, await_child_ready}
use kettlingar_go.Cli.StateFile.{
  Signal, terminate, probe, Event, set_up, started, shut, background, bound, state_written, told,
  spawned, stopped, World, happens, Processes, default_url, auto_discover, probe_or_stop_server,
}

-- Exit codes.
abbrev pub exit_ok : ℕ
exit_ok = 0

abbrev pub exit_already_running : ℕ
exit_already_running = 2

abbrev pub exit_setup_failed : ℕ
exit_setup_failed = 3

abbrev pub exit_background_failed : ℕ
exit_background_failed = 4

abbrev pub exit_startup_failed : ℕ
exit_startup_failed = 5

-- A hook: none where the service does not have it, else the error that it returns, if any.
abbrev pub Hook : Type 0
Hook = Option (Option Bytes)

pub record Hooks : Type 0 where
  pub name : Bytes
  pub setup : Hook
  pub background : Hook
  pub startup : Hook
  pub shutdown : Hook

pub record Server : Type 0 where
  pub name : Bytes
  pub url : Bytes
  pub secret : Bytes
  pub services : List Hooks

-- net.Listen: an error, or whether the bound address is unspecified, and its port.
pub data Listened : Type 0 where
  no_listener : Bytes → Listened
  listening : Bool → ℕ → Listened

-- What the system answers to a process that starts a server. `write_file` is the new contents of
-- the state file from what is written and the old, since the error of os.WriteFile is not looked at.
-- `in_time` says that the child reports within startupTimeout.
pub record Host : Type 0 where
  pub os : Processes
  pub is_open : Bytes → Bool
  pub listen : Bytes → Bytes → Listened
  pub join_host_port : Bytes → Bytes → Bytes
  pub write_file : Bytes → Option Bytes → Option Bytes
  pub pid : ℕ
  pub can_pipe : Bool
  pub can_start : Bool
  pub in_time : Bool

-- runSetupFunctions and runStartupFunctions.
abbrev pub after_hook : Hook → Event → (World → Option Bytes × World) → World → Option Bytes × World
after_hook none event next w = next w
after_hook (some none) event next w = next (happens event w)
after_hook (some (some e)) event next w = (some e, happens event w)

abbrev pub run_hooks : (Hooks → Hook) → (Bytes → Event) → List Hooks → World → Option Bytes × World
run_hooks hook event [] w = (none, w)
run_hooks hook event (svc ∷ services) w =
    after_hook (hook svc) (event svc.name) (run_hooks hook event services) w

-- An error is logged only.
abbrev pub shut_hook : Hook → Event → World → World
shut_hook none event w = w
shut_hook (some e) event w = happens event w

abbrev pub run_shutdown_functions : List Hooks → World → World
run_shutdown_functions [] w = w
run_shutdown_functions (svc ∷ services) w =
    run_shutdown_functions services (shut_hook svc.shutdown (shut svc.name) w)

-- What is left of a start: an exit with a code, or a server that waits for a signal.
pub data Started : Type 0 where
  exited : ℕ → World → Started
  serving : Server → World → Started

abbrev pub tell : Host → Bytes → World → World
tell h status w = happens (told status) (record w { pipe = signal_ready h.is_open status w.pipe })

abbrev url_host : Bool → Bytes → Bytes
url_host unspecified host = if unspecified then codes "127.0.0.1" else host

abbrev pub base_url : Host → Bytes → Bool → ℕ → Bytes
base_url h host unspecified port =
    codes "http://" ++ h.join_host_port (url_host unspecified host) (decimal port)

abbrev pub state_data : Host → Server → Bytes
state_data h ks = ks.url ++ b'\n' ∷ decimal h.pid

abbrev pub write_state : Host → Server → World → World
write_state h ks w =
    happens (state_written (state_data h ks))
      (record w { state_file = h.write_file (state_data h ks) w.state_file })

-- From net.Listen on.
abbrev pub listened : Host → Bytes → Server → World → Listened → Started
listened h host ks w (no_listener e) =
    exited exit_startup_failed (tell h (codes "ERR listen failed: " ++ e) w)
listened h host ks w (listening unspecified port) =
    let ks' : Server = record ks { url = base_url h host unspecified port ++ b'/' ∷ ks.secret } in
    serving ks' (tell h (codes "OK") (write_state h ks' (happens (bound port) w)))

abbrev pub started_up : Host → Bytes → Bytes → Server → Option Bytes × World → Started
started_up h host port ks (some e, w) =
    exited exit_startup_failed (tell h (codes "ERR startup failed: " ++ e) w)
started_up h host port ks (none, w) = listened h host ks w (h.listen host port)

unfoldable pub serve : Host → Bytes → Bytes → Server → World → Started
unfolding decimal signal_ready
serve h host port ks w =
    started_up h host port ks (run_hooks (λ svc. svc.startup) started ks.services w)

-- The start of both: is a server running, and the setup functions. `next` is the rest.
abbrev pub set_up_then : (World → Started) → Option Bytes × World → Started
set_up_then next (some e, w) = exited exit_setup_failed w
set_up_then next (none, w) = next w

abbrev pub prepare : Server → (World → Started) → Bool × World → Started
prepare ks next (true, w) = exited exit_already_running w
prepare ks next (false, w) = set_up_then next (run_hooks (λ svc. svc.setup) set_up ks.services w)

abbrev pub probe_first : Host → Server → World → Bool × World
probe_first h ks w =
    if bytes_eq ks.url default_url then (false, w) else probe_or_stop_server h.os probe w

abbrev pub discovered : Host → Server → World → Server
discovered h ks w = record ks { url = auto_discover h.os ks.url w }

-- startServer with --foreground.
unfoldable pub start_foreground : Host → Bytes → Bytes → Server → World → Started
unfolding serve auto_discover probe_or_stop_server
start_foreground h host port ks w =
    let ks' = discovered h ks w in prepare ks' (serve h host port ks') (probe_first h ks' w)
