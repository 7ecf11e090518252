-- ===== src/Cli/Start/Stop.antt =====
-- How a running server is found, kept alone and stopped.
use kettlingar_go.Prelude.{
  ℕ, ◌≡◌, refl, ◌∙◌, ap, ap₂, sym, arith, Bool, true, false, List, [], ◌∷◌, ◌++◌, if◌then◌else◌,
  Bytes, bytes_eq, none, some, pos, append_assoc, append-nil,
}
use kettlingar_go.Text.Search.{split, Lacks, split-append, split_lacking}
use kettlingar_go.Text.Space.{Solid, trim_space-Solid}
use kettlingar_go.Text.Decimal.{decimal, decimal-lines}
use kettlingar_go.Cli.StateFile.{
  Event, shut, stopped, World, happens, Signal, probe, Processes, default_url, auto_discover,
  probe_or_stop_server, note_sent, probe_file, probe_lines, signal_process, known_or_read,
  head_line, remove_state,
}
use kettlingar_go.Cli.Server.{
  Hook, Hooks, Server, Host, Started, exited, run_shutdown_functions, shut_hook, prepare,
  probe_first, discovered, start_foreground, serve, state_data,
}
use kettlingar_go.Cli.Server.Codes.{ran, events_of}
use kettlingar_go.Cli.Start.{go_background, start_background, shut_down}

Solid-Lacks : (s : Bytes) → Solid s → Lacks b'\n' s
Solid-Lacks [] h = tt
Solid-Lacks (c ∷ s) h = (ground (arith, h.0), Solid-Lacks s h.1)

-- The lines of a state file.
split-state_data :
    (h : Host) (ks : Server)
    → Solid ks.url
    → split b'\n' (state_data h ks) ≡ ks.url ∷ decimal h.pid ∷ []
split-state_data h ks solid =
    split-append b'\n' ks.url (decimal h.pid) (Solid-Lacks ks.url solid)
    ∙ ap (◌∷◌ ks.url) (split_lacking b'\n' (decimal h.pid) (decimal-lines h.pid))

-- What another process needs of the system to reach a server with the number `pid`.
pub record Reaches (os : Processes) (sending : Signal) (pid : ℕ) : Type 0 where
  pub unset : os.viper_url ≡ []
  pub reads : os.scan_pid (decimal pid) ≡ pos pid
  pub there : os.has_process (pos pid) ≡ true
  pub takes : os.answers sending (pos pid) ≡ true

-- From the state file of a server any other process, to which no URL is given, reads the URL of the
-- server and sends its signal to the pid of the server. The URL has no white space, the process is
-- there and takes the signal, and Sscanf reads with %d what was printed with %d.
pub auto_discover-state_data :
    (h : Host) (ks : Server) (os : Processes) (sending : Signal) (w : World)
    → Solid ks.url
    → Reaches os sending h.pid
    → w.state_file ≡ some (state_data h ks)
    → (auto_discover os [] w ≡ ks.url)
      × (probe_or_stop_server os sending w ≡ (true, note_sent sending (pos h.pid) w))
unfolding auto_discover probe_or_stop_server
auto_discover-state_data h ks os sending w solid reach file =
    let lines = split-state_data h ks solid in
    (
      ap₂ known_or_read reach.unset file ∙ ap head_line lines ∙ trim_space-Solid ks.url solid,
      ap (λ f. probe_file os sending f w) file
          ∙ ap (λ l. probe_lines os sending l w) lines
          ∙ ap (λ p. signal_process os sending p w) reach.reads
          ∙ rw (reach.there, reach.takes) refl,
    )

-- While a server runs, any further start, in the foreground or in the background, exits with 2 and
-- changes nothing: it runs no function of a service, makes no child and leaves the state file. The
-- same conditions hold for the search for the server, and its URL is not the default one.
pub start_foreground-running :
    (h h2 : Host) (host port : Bytes) (ks ks2 : Server) (child : World → Started) (w : World)
    → Solid ks.url
    → bytes_eq ks.url default_url ≡ false
    → Reaches h2.os probe h.pid
    → w.state_file ≡ some (state_data h ks)
    → ks2.url ≡ []
    → (start_foreground h2 host port ks2 w ≡ exited 2 w)
      × (start_background h2 child ks2 w ≡ exited 2 w)
unfolding start_foreground start_background auto_discover probe_or_stop_server
start_foreground-running h h2 host port ks ks2 child w solid other reach file unset =
    let found = auto_discover-state_data h ks h2.os probe w solid reach file in
    let at : auto_discover h2.os ks2.url w ≡ ks.url =
      ap (λ u. auto_discover h2.os u w) unset ∙ found.0 in
    let probed : probe_first h2 (discovered h2 ks2 w) w ≡ (true, w) =
      ap (λ b. if b then (false, w) else probe_or_stop_server h2.os probe w)
        (ap (λ u. bytes_eq u default_url) at ∙ other)
      ∙ found.1 in
    (
      ap (prepare (discovered h2 ks2 w) (serve h2 host port (discovered h2 ks2 w))) probed,
      ap (prepare (discovered h2 ks2 w) (go_background h2 child (discovered h2 ks2 w))) probed,
    )

shut_hook-events :
    (o : Hook) (event : Event) (rest : List Event) (w : World)
    → record (shut_hook o event w) { trace = (shut_hook o event w).trace ++ rest }
      ≡ record w { trace = w.trace ++ (events_of o event ++ rest) }
shut_hook-events none event rest w = refl
shut_hook-events (some e) event rest w =
    ap (λ t. record w { trace = t }) (append_assoc w.trace (event ∷ []) rest)

run_shutdown_functions-ran :
    (services : List Hooks) (w : World)
    → run_shutdown_functions services w
      ≡ record w { trace = w.trace ++ ran (λ svc. svc.shutdown) shut services }
run_shutdown_functions-ran [] w = ap (λ t. record w { trace = t }) (sym (append-nil w.trace))
run_shutdown_functions-ran (svc ∷ services) w =
    run_shutdown_functions-ran services (shut_hook svc.shutdown (shut svc.name) w)
    ∙ shut_hook-events svc.shutdown (shut svc.name) (ran (λ svc. svc.shutdown) shut services) w

no_file :
    (os : Processes) (sending : Signal) (w : World)
    → w.state_file ≡ none
    → os.viper_url ≡ []
    → (probe_or_stop_server os sending w ≡ (false, w)) × (auto_discover os [] w ≡ default_url)
unfolding probe_or_stop_server auto_discover
no_file os sending w gone unset =
    (ap (λ f. probe_file os sending f w) gone, ap₂ known_or_read unset gone)

-- The search behind a removal of the state file that works or not.
found_after :
    (removes : Bool) (os : Processes) (sending : Signal) (v w : World)
    → v ≡ record w { state_file = if removes then none else w.state_file }
    → os.viper_url ≡ []
    → (probe_or_stop_server os sending v
        ≡ (if removes then (false, v) else probe_or_stop_server os sending w))
      × (auto_discover os [] v ≡ (if removes then default_url else auto_discover os [] w))
found_after true os sending v w e unset = no_file os sending v (ap (λ u. u.state_file) e) unset
found_after false os sending v w e unset =
    (ap (probe_or_stop_server os sending) e, ap (auto_discover os []) e)

-- A server that is told to stop runs all shutdown functions, in the order of the services and also
-- behind one that fails, and then removes the state file. Where os.Remove works, no process finds or
-- signals a server any more: the search says that none runs, and a process to which no URL is given
-- falls back to the default one. Where it fails, the file stays, and the search and the discovery go on
-- by it.
pub shut_down_lem :
    (own : Processes) (ks : Server) (os : Processes) (sending : Signal) (w : World)
    → os.viper_url ≡ []
    → let ended = record w {
      trace = w.trace ++ stopped ∷ ran (λ svc. svc.shutdown) shut ks.services;
    } in
      let down = shut_down own ks w in
      (down ≡ record ended { state_file = if own.removes then none else w.state_file })
      × (probe_or_stop_server os sending down
          ≡ (if own.removes then (false, down) else probe_or_stop_server os sending ended))
      × (auto_discover os [] down
          ≡ (if own.removes then default_url else auto_discover os [] ended))
unfolding shut_down
shut_down_lem own ks os sending w unset =
    let events = ran (λ svc. svc.shutdown) shut ks.services in
    let e =
      ap {A = World} {B = World} (remove_state own)
        (run_shutdown_functions-ran ks.services (happens stopped w))
      ∙ ap {B = World}
          (λ t. record w { state_file = if own.removes then none else w.state_file; trace = t })
          (append_assoc w.trace (stopped ∷ []) events) in
    let found =
      found_after own.removes os sending (shut_down own ks w)
        (record w { trace = w.trace ++ stopped ∷ events }) e unset in
    (e, found.0, found.1)
