-- ===== src/Cli/Start.antt =====
-- spawnBackground and the rest of startServer of kettlingar/default_main.go: a start in the
-- background, and what a server does when it is told to stop.
pub mod Barrier
pub mod Outcome
pub mod Stop
use kettlingar_go.Prelude.{
  ℕ, Bool, true, false, ◌||◌, not, List, [], ◌∷◌, ◌++◌, if◌then◌else◌, Bytes, codes, Option, none,
  some,
}
use kettlingar_go.Cli.Ready.{Pipe, await_child_ready}
use kettlingar_go.Cli.StateFile.{
  Event, set_up, background, spawned, stopped, World, happens, auto_discover, probe_or_stop_server,
  Processes, remove_state,
}
use kettlingar_go.Cli.Server.{
  exit_ok, exit_background_failed, exit_startup_failed, Hook, Hooks, Server, Host, Started, exited,
  serving, run_shutdown_functions, prepare, probe_first, discovered, start_foreground,
}

-- An error, true where a service did it, or false where none does.
pub data Background : Type 0 where
  failed : Bytes → Background
  done : Bool → Background

abbrev pub run_background_function : List Hooks → World → Background × World
run_background_function [] w = (done false, w)
run_background_function (svc ∷ services) w = elim svc.background [
  | none ↦ run_background_function services w
  | some none ↦ (done true, happens (background svc.name) w)
  | some (some e) ↦ (failed e, happens (background svc.name) w)
]

-- The pipe that a child inherits as its file descriptor 3.
abbrev pub ready_pipe : Pipe
ready_pipe = record { ready_fd = codes "3"; written = []; closed = false }

-- A child that exits closes the pipe.
abbrev pub pipe_read : Bool → Started → Option Bytes
pipe_read false s = none
pipe_read true (exited code w) = some w.pipe.written
pipe_read true (serving ks w) = if w.pipe.closed then some w.pipe.written else none

abbrev pub end_of : Started → World
end_of (exited code w) = w
end_of (serving ks w) = w

-- The child starts with the state file as it is and runs to its exit or until it serves.
abbrev pub child_world : World → World
child_world w = record { state_file = w.state_file; pipe = ready_pipe; trace = [] }

abbrev pub awaited : Bytes → Option Bytes → World → Option Bytes × World
awaited name none w = (none, happens spawned w)
awaited name (some e) w = (some (codes "Failed to start " ++ name ++ codes ": " ++ e), w)

unfoldable pub spawn_background : Host → Bytes → (World → Started) → World → Option Bytes × World
unfolding await_child_ready
spawn_background h name child w =
    if not h.can_pipe || not h.can_start
    then (some (codes "Error daemonizing"), w)
    else (let s = child (child_world w) in
        awaited name (await_child_ready (pipe_read h.in_time s))
          (record w { state_file = (end_of s).state_file }))

abbrev pub spawn_done : Option Bytes × World → Started
spawn_done (none, w) = exited exit_ok w
spawn_done (some e, w) = exited exit_startup_failed w

abbrev pub background_done : Host → Bytes → (World → Started) → Background × World → Started
background_done h name child (failed e, w) = exited exit_background_failed w
background_done h name child (done true, w) = exited exit_ok w
background_done h name child (done false, w) = spawn_done (spawn_background h name child w)

-- startServer without --foreground, behind the setup functions.
abbrev pub go_background : Host → (World → Started) → Server → World → Started
go_background h child ks w = background_done h ks.name child (run_background_function ks.services w)

-- startServer without --foreground; `child` is the process that spawnBackground makes.
unfoldable pub start_background : Host → (World → Started) → Server → World → Started
unfolding spawn_background auto_discover probe_or_stop_server
start_background h child ks w =
    let ks' = discovered h ks w in
    prepare ks' (λ w'. background_done h ks.name child (run_background_function ks.services w'))
      (probe_first h ks' w)

-- A server from the signal on.
unfoldable pub shut_down : Processes → Server → World → World
shut_down os ks w = remove_state os (run_shutdown_functions ks.services (happens stopped w))
