-- ===== src/Cli/Start/Barrier.antt =====
-- What a start in the background tells its caller.
use kettlingar_go.Prelude.{
  ℕ, ◌≡◌, ◌≢◌, refl, ◌∙◌, ap, arith, Bool, true, false, List, [], ◌∷◌, ◌++◌, if◌then◌else◌, Bytes,
  bytes_eq, codes, Option, none, some, ℤ,
}
use kettlingar_go.Text.Space.{trim_right, is_space}
use kettlingar_go.Text.Search.{split}
use kettlingar_go.Text.Decimal.{decimal}
use kettlingar_go.Cli.Ready.{
  Pipe, signal_ready, await_child_ready, await_child_ready-ok, await_child_ready-nothing,
  await_child_ready-err,
}
use kettlingar_go.Cli.StateFile.{
  Event, set_up, started, World, happens, probe_or_stop_server, probe, terminate, probe_file,
  probe_lines, signal_process, note_sent, remove_state, Signal, Processes, default_url,
}
use kettlingar_go.Cli.Server.{
  Hook, Hooks, Server, Host, Started, exited, serving, Listened, no_listener, listening, listened,
  run_hooks, after_hook, tell, started_up, serve, set_up_then, prepare, probe_first, discovered,
  start_foreground, write_state, base_url,
}
use kettlingar_go.Cli.Start.{ready_pipe, pipe_read, child_world, awaited, end_of, spawn_background}

-- The error that its caller has, for each end of a start.
abbrev pub Reports : Option Bytes → Started → Type 0
Reports r (exited code w) = (code ≢ 0) × ((e : Bytes) × (r ≡ some e))
Reports r (serving ks w) = r ≡ none

abbrev IsTold : Started → Type 0
IsTold s = Reports (await_child_ready (pipe_read true s)) s

after_hook-pipe :
    (o : Hook) (event : Event) (next : World → Option Bytes × World) (w : World)
    → ((v : World) → (next v).1.pipe ≡ v.pipe)
    → (after_hook o event next w).1.pipe ≡ w.pipe
after_hook-pipe none event next w h = h w
after_hook-pipe (some none) event next w h = h (happens event w)
after_hook-pipe (some (some e)) event next w h = refl

run_hooks-pipe :
    (hook : Hooks → Hook) (event : Bytes → Event) (services : List Hooks) (w : World)
    → (run_hooks hook event services w).1.pipe ≡ w.pipe
run_hooks-pipe hook event [] w = refl
run_hooks-pipe hook event (svc ∷ services) w =
    after_hook-pipe (hook svc) (event svc.name) (run_hooks hook event services) w
      (run_hooks-pipe hook event services)

if-pipe :
    (b : Bool) (r s : Bool × World) (w : World)
    → r.1.pipe ≡ w.pipe
    → s.1.pipe ≡ w.pipe
    → (if b then r else s).1.pipe ≡ w.pipe
if-pipe true r s w e k = e
if-pipe false r s w e k = k

note_sent-pipe : (sending : Signal) (pid : ℤ) (w : World) → (note_sent sending pid w).pipe ≡ w.pipe
note_sent-pipe probe pid w = refl
note_sent-pipe terminate pid w = refl

signal_process-pipe :
    (os : Processes) (sending : Signal) (pid : ℤ) (w : World)
    → (signal_process os sending pid w).1.pipe ≡ w.pipe
signal_process-pipe os sending pid w =
    let told_it : Bool × World = (true, note_sent sending pid w) in
    let stale : Bool × World = (false, remove_state os w) in
    if-pipe (os.has_process pid) (if os.answers sending pid then told_it else stale) (true, w) w
      (if-pipe (os.answers sending pid) told_it stale w (note_sent-pipe sending pid w) refl) refl

probe_lines-pipe :
    (os : Processes) (sending : Signal) (lines : List Bytes) (w : World)
    → (probe_lines os sending lines w).1.pipe ≡ w.pipe
probe_lines-pipe os sending [] w = refl
probe_lines-pipe os sending (url ∷ []) w = refl
probe_lines-pipe os sending (url ∷ pid ∷ lines) w =
    signal_process-pipe os sending (os.scan_pid pid) w

probe_file-pipe :
    (os : Processes) (sending : Signal) (file : Option Bytes) (w : World)
    → (probe_file os sending file w).1.pipe ≡ w.pipe
probe_file-pipe os sending none w = refl
probe_file-pipe os sending (some file) w = probe_lines-pipe os sending (split b'\n' file) w

abbrev sent_pipe : Bytes → Pipe
sent_pipe status = record { ready_fd = []; written = status ++ b'\n' ∷ []; closed = true }

module _ (h : Host) (open3 : h.is_open (codes "3") ≡ true) where
  tell-pipe :
      (status : Bytes) (w : World) → w.pipe ≡ ready_pipe → (tell h status w).pipe ≡ sent_pipe status
  unfolding signal_ready
  tell-pipe status w e =
      ap (signal_ready h.is_open status) e
      ∙ ap (λ b. if b then sent_pipe status else record ready_pipe { ready_fd = [] }) open3

  exited-IsTold :
      (code : ℕ) (c : ℕ) (text : Bytes) (w : World)
      → code ≢ 0
      → is_space c ≡ false
      → w.pipe ≡ ready_pipe
      → IsTold (exited code (tell h (codes "ERR " ++ c ∷ text) w))
  exited-IsTold code c text w nonzero solid e = (
    nonzero,
    (
      c ∷ trim_right (text ++ b'\n' ∷ []),
      ap (λ p. await_child_ready (some p.written)) (tell-pipe (codes "ERR " ++ c ∷ text) w e)
          ∙ await_child_ready-err c (text ++ b'\n' ∷ []) solid,
    ),
  )

  silent-IsTold : (code : ℕ) (w : World) → code ≢ 0 → w.pipe ≡ ready_pipe → IsTold (exited code w)
  silent-IsTold code w nonzero e = (
    nonzero,
    (
      codes "service exited before it became ready",
      ap (λ p. await_child_ready (some p.written)) e ∙ await_child_ready-nothing,
    ),
  )

  listened-IsTold :
      (host : Bytes) (ks : Server) (w : World) (l : Listened)
      → w.pipe ≡ ready_pipe
      → IsTold (listened h host ks w l)
  unfolding decimal
  listened-IsTold host ks w (no_listener e) piped =
      exited-IsTold 5 b'l' (codes "isten failed: " ++ e) w (omega arith) refl piped
  listened-IsTold host ks w (listening unspecified port) piped =
      ap (λ p. await_child_ready (if p.closed then some p.written else none))
        (tell-pipe (codes "OK")
          (write_state h (record ks { url = base_url h host unspecified port ++ b'/' ∷ ks.secret })
            (happens (Event.bound port) w))
          piped)
      ∙ await_child_ready-ok

  started_up-IsTold :
      (host port : Bytes) (ks : Server) (e : Option Bytes) (w : World)
      → w.pipe ≡ ready_pipe
      → IsTold (started_up h host port ks (e, w))
  started_up-IsTold host port ks (some e) w piped =
      exited-IsTold 5 b's' (codes "tartup failed: " ++ e) w (omega arith) refl piped
  started_up-IsTold host port ks none w piped = listened-IsTold host ks w (h.listen host port) piped

  set_up-IsTold :
      (host port : Bytes) (ks : Server) (e : Option Bytes) (w : World)
      → w.pipe ≡ ready_pipe
      → IsTold (set_up_then (serve h host port ks) (e, w))
  unfolding serve
  set_up-IsTold host port ks (some e) w piped = silent-IsTold 3 w (omega arith) piped
  set_up-IsTold host port ks none w piped =
      let r = run_hooks (λ svc. svc.startup) started ks.services w in
      started_up-IsTold host port ks r.0 r.1
        (run_hooks-pipe (λ svc. svc.startup) started ks.services w ∙ piped)

  prepare-IsTold :
      (host port : Bytes) (ks : Server) (found : Bool) (w : World)
      → w.pipe ≡ ready_pipe
      → IsTold (prepare ks (serve h host port ks) (found, w))
  prepare-IsTold host port ks true w piped = silent-IsTold 2 w (omega arith) piped
  prepare-IsTold host port ks false w piped =
      let r = run_hooks (λ svc. svc.setup) set_up ks.services w in
      set_up-IsTold host port ks r.0 r.1
        (run_hooks-pipe (λ svc. svc.setup) set_up ks.services w ∙ piped)

  probe_first-pipe : (ks : Server) (w : World) → (probe_first h ks w).1.pipe ≡ w.pipe
  unfolding probe_or_stop_server
  probe_first-pipe ks w =
      if-pipe (bytes_eq ks.url default_url) (false, w) (probe_or_stop_server h.os probe w) w refl
        (probe_file-pipe h.os probe w.state_file w)

  start_foreground-IsTold :
      (host port : Bytes) (ks : Server) (w : World)
      → w.pipe ≡ ready_pipe
      → IsTold (start_foreground h host port ks w)
  unfolding start_foreground
  start_foreground-IsTold host port ks w piped =
      let r = probe_first h (discovered h ks w) w in
      prepare-IsTold host port (discovered h ks w) r.0 r.1
        (probe_first-pipe (discovered h ks w) w ∙ piped)

awaited-Reports :
    (name : Bytes) (r : Option Bytes) (w : World) (s : Started)
    → Reports r s
    → Reports (awaited name r w).0 s
awaited-Reports name r w (exited code v) t = (
  t.0,
  (codes "Failed to start " ++ name ++ codes ": " ++ t.1.0, ap (λ r. (awaited name r w).0) t.1.1),
)
awaited-Reports name r w (serving ks v) t = ap (λ r. (awaited name r w).0) t

-- A start in the background that can make its pipe and its child, and whose child has the pipe as its
-- descriptor 3 and is done in time, has no error exactly where the child serves; where the child
-- exits, its code is not 0 and the caller has an error: the text of a failed startup function or
-- listener, or that the service exited before it became ready.
pub spawn_background-Reports :
    (h h' : Host) (name host port : Bytes) (ks : Server) (w : World)
    → h.can_pipe ≡ true
    → h.can_start ≡ true
    → h.in_time ≡ true
    → h'.is_open (codes "3") ≡ true
    → let child = start_foreground h' host port ks in
      Reports (spawn_background h name child w).0 (child (child_world w))
unfolding spawn_background
spawn_background-Reports h h' name host port ks w can_pipe can_start in_time open3 =
    let s = start_foreground h' host port ks (child_world w) in
    rw (can_pipe, can_start, in_time, spawn_background)
      (awaited-Reports name (await_child_ready (pipe_read true s))
        (record w { state_file = (end_of s).state_file }) s
        (start_foreground-IsTold h' open3 host port ks (child_world w) refl))
