-- ===== src/Cli/Server/Codes.antt =====
-- How a start ends, for each thing that can fail.
use kettlingar_go.Prelude.{
  ℕ, ◌≡◌, refl, ◌∙◌, ap, Bool, true, false, ◌&&◌, ◌||◌, not, List, [], ◌∷◌, ◌++◌, if◌then◌else◌,
  Bytes, bytes_eq, Option, none, some,
}
use kettlingar_go.Text.Search.{split}
use kettlingar_go.Cli.StateFile.{
  Event, set_up, started, World, happens, Processes, probe, default_url, auto_discover,
  probe_or_stop_server, probe_file, probe_lines, remove_state,
}
use kettlingar_go.Cli.Server.{
  Hook, Hooks, Server, Host, Started, exited, serving, Listened, no_listener, listening, listened,
  run_hooks, after_hook, started_up, serve, set_up_then, prepare, probe_first, discovered,
  start_foreground,
}

abbrev pub hook_ok : Hook → Bool
hook_ok none = true
hook_ok (some none) = true
hook_ok (some (some e)) = false

-- No service's hook returns an error.
abbrev pub all_ok : (Hooks → Hook) → List Hooks → Bool
all_ok hook [] = true
all_ok hook (svc ∷ services) = hook_ok (hook svc) && all_ok hook services

abbrev pub events_of : Hook → Event → List Event
events_of none event = []
events_of (some e) event = event ∷ []

-- The events of all the hooks that the services have, in the order of the services.
abbrev pub ran : (Hooks → Hook) → (Bytes → Event) → List Hooks → List Event
ran hook event [] = []
ran hook event (svc ∷ services) = events_of (hook svc) (event svc.name) ++ ran hook event services

abbrev pub listens : Listened → Bool
listens (no_listener e) = false
listens (listening unspecified port) = true

-- The exit code, none for a server that waits for a signal.
abbrev pub code_of : Started → Option ℕ
code_of (exited code w) = some code
code_of (serving ks w) = none

abbrev is_nil : Option Bytes → Bool
is_nil none = true
is_nil (some e) = false

after_hook-ok :
    (o : Hook) (event : Event) (next : World → Option Bytes × World) (ok : Bool) (w : World)
    → ((v : World) → is_nil (next v).0 ≡ ok)
    → is_nil (after_hook o event next w).0 ≡ hook_ok o && ok
after_hook-ok none event next ok w h = h w
after_hook-ok (some none) event next ok w h = h (happens event w)
after_hook-ok (some (some e)) event next ok w h = refl

pub run_hooks-ok :
    (hook : Hooks → Hook) (event : Bytes → Event) (services : List Hooks) (w : World)
    → is_nil (run_hooks hook event services w).0 ≡ all_ok hook services
run_hooks-ok hook event [] w = refl
run_hooks-ok hook event (svc ∷ services) w =
    after_hook-ok (hook svc) (event svc.name) (run_hooks hook event services) (all_ok hook services)
      w (run_hooks-ok hook event services)

listened-code :
    (h : Host) (host : Bytes) (ks : Server) (w : World) (l : Listened)
    → code_of (listened h host ks w l) ≡ (if listens l then none else some 5)
listened-code h host ks w (no_listener e) = refl
listened-code h host ks w (listening unspecified port) = refl

started_up-code :
    (h : Host) (host port : Bytes) (ks : Server) (e : Option Bytes) (w : World)
    → code_of (started_up h host port ks (e, w))
      ≡ (if is_nil e && listens (h.listen host port) then none else some 5)
started_up-code h host port ks (some e) w = refl
started_up-code h host port ks none w = listened-code h host ks w (h.listen host port)

set_up-code :
    (next : World → Started) (e : Option Bytes) (w : World) (code : Option ℕ)
    → ((v : World) → code_of (next v) ≡ code)
    → code_of (set_up_then next (e, w)) ≡ (if is_nil e then code else some 3)
set_up-code next (some e) w code h = refl
set_up-code next none w code h = h w

pub prepare-code :
    (ks : Server) (next : World → Started) (found : Bool) (w : World) (code : Option ℕ)
    → ((v : World) → code_of (next v) ≡ code)
    → code_of (prepare ks next (found, w))
      ≡ (if found then some 2 else if all_ok (λ svc. svc.setup) ks.services then code else some 3)
prepare-code ks next true w code h = refl
prepare-code ks next false w code h =
    let r = run_hooks (λ svc. svc.setup) set_up ks.services w in
    set_up-code next r.0 r.1 code h
    ∙ ap (λ b. if b then code else some 3) (run_hooks-ok (λ svc. svc.setup) set_up ks.services w)

serve-code :
    (h : Host) (host port : Bytes) (ks : Server) (w : World)
    → code_of (serve h host port ks w) ≡ (
        if all_ok (λ svc. svc.startup) ks.services && listens (h.listen host port)
        then none
        else some 5)
unfolding serve
serve-code h host port ks w =
    let r = run_hooks (λ svc. svc.startup) started ks.services w in
    started_up-code h host port ks r.0 r.1
    ∙ ap (λ b. if b && listens (h.listen host port) then none else some 5)
        (run_hooks-ok (λ svc. svc.startup) started ks.services w)

-- A state file whose second line is the number of a process that takes signal 0, or that
-- os.FindProcess does not give.
abbrev names_process : Processes → List Bytes → Bool
names_process os (url ∷ pid ∷ lines) =
    not (os.has_process (os.scan_pid pid)) || os.answers probe (os.scan_pid pid)
names_process os _ = false

abbrev file_names_process : Processes → Option Bytes → Bool
file_names_process os none = false
file_names_process os (some file) = names_process os (split b'\n' file)

-- A server that a start takes as running: its URL is not the default one, and the state file names a
-- process.
abbrev pub counts_as_running : Processes → Bytes → World → Bool
counts_as_running os url w = not (bytes_eq url default_url) && file_names_process os w.state_file

if-found :
    (there takes : Bool) (v w : World)
    → (let r : Bool × World =
          if there then if takes then (true, v) else (false, w) else (true, v) in
        r.0)
      ≡ not there || takes
if-found true true v w = refl
if-found true false v w = refl
if-found false takes v w = refl

probe_lines-names :
    (os : Processes) (lines : List Bytes) (w : World)
    → (probe_lines os probe lines w).0 ≡ names_process os lines
probe_lines-names os [] w = refl
probe_lines-names os (url ∷ []) w = refl
probe_lines-names os (url ∷ pid ∷ lines) w =
    if-found (os.has_process (os.scan_pid pid)) (os.answers probe (os.scan_pid pid)) w
      (remove_state os w)

probe_file-names :
    (os : Processes) (file : Option Bytes) (w : World)
    → (probe_file os probe file w).0 ≡ file_names_process os file
probe_file-names os none w = refl
probe_file-names os (some file) w = probe_lines-names os (split b'\n' file) w

if-default :
    (b : Bool) (r : Bool × World) (w : World)
    → (let found : Bool × World = if b then (false, w) else r in found.0) ≡ not b && r.0
if-default true r w = refl
if-default false r w = refl

probe_first-counts :
    (h : Host) (ks : Server) (w : World) → (probe_first h ks w).0 ≡ counts_as_running h.os ks.url w
unfolding probe_or_stop_server
probe_first-counts h ks w =
    let b = bytes_eq ks.url default_url in
    if-default b (probe_or_stop_server h.os probe w) w
    ∙ ap (λ c. not b && c) (probe_file-names h.os w.state_file w)

-- A start in the foreground exits with 2 where the URL that it discovers is not the default one and
-- the second line of the state file is the number of a process that takes signal 0 (or that
-- os.FindProcess does not give); else with 3 where a setup function fails, else with 5 where a startup
-- function fails or it cannot listen. In every other case it serves, so also beside a server that runs
-- at the default URL.
pub start_foreground-code :
    (h : Host) (host port : Bytes) (ks : Server) (w : World)
    → code_of (start_foreground h host port ks w) ≡ (
        if counts_as_running h.os (auto_discover h.os ks.url w) w
        then some 2
        else if all_ok (λ svc. svc.setup) ks.services
        then if all_ok (λ svc. svc.startup) ks.services && listens (h.listen host port)
          then none
          else some 5
        else some 3)
unfolding start_foreground
start_foreground-code h host port ks w =
    let ks' = discovered h ks w in
    let r = probe_first h ks' w in
    let code : Option ℕ =
      if all_ok (λ svc. svc.startup) ks.services && listens (h.listen host port)
      then none
      else some 5 in
    prepare-code ks' (serve h host port ks') r.0 r.1 code (serve-code h host port ks')
    ∙ ap (λ b. if b then some 2 else if all_ok (λ svc. svc.setup) ks.services then code else some 3)
        (probe_first-counts h ks' w)
