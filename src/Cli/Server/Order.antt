-- ===== src/Cli/Server/Order.antt =====
-- What happens, and in which order, until a server serves.
use kettlingar_go.Prelude.{
  ℕ, ◌≡◌, ◌∙◌, ap, sym, arith, Bool, true, false, ◌&&◌, List, [], ◌∷◌, ◌++◌, Bytes, codes, Option,
  none, some, append_assoc, append-nil,
}
use kettlingar_go.Cli.Ready.{signal_ready}
use kettlingar_go.Cli.StateFile.{Event, set_up, started, bound, state_written, told, World, happens}
use kettlingar_go.Cli.Server.{
  Hook, Hooks, Server, Host, serving, listening, listened, run_hooks, after_hook, started_up, serve,
  set_up_then, prepare, probe_first, discovered, start_foreground, base_url, state_data,
}
use kettlingar_go.Cli.Server.Codes.{hook_ok, all_ok, ran, events_of}

abbrev pub and_then : List Event → World → World
and_then events w = record w { trace = w.trace ++ events }

after_hook-ran :
    (o : Hook) (event : Event) (next : World → Option Bytes × World) (events : List Event)
    (rest : Bool) (w : World)
    → ((v : World) → rest ≡ true → next v ≡ (none, and_then events v))
    → hook_ok o && rest ≡ true
    → after_hook o event next w ≡ (none, and_then (events_of o event ++ events) w)
after_hook-ran none event next events rest w h ok = h w ok
after_hook-ran (some none) event next events rest w h ok =
    h (happens event w) ok
    ∙ ap (λ t. (none, record w { trace = t })) (append_assoc w.trace (event ∷ []) events)
after_hook-ran (some (some e)) event next events rest w h ok = ground arith

pub run_hooks-ran :
    (hook : Hooks → Hook) (event : Bytes → Event) (services : List Hooks) (w : World)
    → all_ok hook services ≡ true
    → run_hooks hook event services w ≡ (none, and_then (ran hook event services) w)
run_hooks-ran hook event [] w ok =
    ap (λ t. (none, record w { trace = t })) (sym (append-nil w.trace))
run_hooks-ran hook event (svc ∷ services) w ok =
    after_hook-ran (hook svc) (event svc.name) (run_hooks hook event services)
      (ran hook event services) (all_ok hook services) w (run_hooks-ran hook event services) ok

-- Three events at the end of two stages.
append_stages :
    (t a b : List Event) (x y z : Event)
    → ((((t ++ a) ++ b) ++ x ∷ []) ++ y ∷ []) ++ z ∷ [] ≡ t ++ (a ++ (b ++ x ∷ y ∷ z ∷ []))
append_stages t a b x y z =
    let s = (t ++ a) ++ b in
    append_assoc (s ++ x ∷ []) (y ∷ []) (z ∷ [])
    ∙ append_assoc s (x ∷ []) (y ∷ z ∷ [])
    ∙ append_assoc (t ++ a) b (x ∷ y ∷ z ∷ [])
    ∙ append_assoc t a (b ++ x ∷ y ∷ z ∷ [])

-- A start in the foreground, where no server is running, no setup or startup function fails and the
-- system listens, serves, at the address that it bound and under its secret. It has run first all
-- setup functions, then all startup functions, each in the order of the services, then bound its
-- listener, then written its URL and its pid to the state file, and only then reported that it is
-- ready. `w1` is the world behind the search for a running server.
pub start_foreground-serving :
    (h : Host) (host port : Bytes) (ks : Server) (w w1 : World) (unspecified : Bool) (n : ℕ)
    → probe_first h (discovered h ks w) w ≡ (false, w1)
    → all_ok (λ svc. svc.setup) ks.services ≡ true
    → all_ok (λ svc. svc.startup) ks.services ≡ true
    → h.listen host port ≡ listening unspecified n
    → let ks2 : Server = record ks { url = base_url h host unspecified n ++ b'/' ∷ ks.secret } in
      start_foreground h host port ks w
      ≡ serving ks2 (record {
        state_file = h.write_file (state_data h ks2) w1.state_file;
        pipe = signal_ready h.is_open (codes "OK") w1.pipe;
        trace =
            w1.trace
            ++ (ran (λ svc. svc.setup) set_up ks.services
                ++ (ran (λ svc. svc.startup) started ks.services
                    ++ bound n ∷ state_written (state_data h ks2) ∷ told (codes "OK") ∷ []));
      })
unfolding start_foreground serve
start_foreground-serving h host port ks w w1 unspecified n idle setups startups listens =
    let ks' = discovered h ks w in
    let w2 = and_then (ran (λ svc. svc.setup) set_up ks.services) w1 in
    let w3 = and_then (ran (λ svc. svc.startup) started ks.services) w2 in
    let ks2 : Server = record ks { url = base_url h host unspecified n ++ b'/' ∷ ks.secret } in
    ap (prepare ks' (serve h host port ks')) idle
    ∙ ap (set_up_then (serve h host port ks'))
        (run_hooks-ran (λ svc. svc.setup) set_up ks.services w1 setups)
    ∙ ap (started_up h host port ks')
        (run_hooks-ran (λ svc. svc.startup) started ks.services w2 startups)
    ∙ ap (listened h host ks' w3) listens
    ∙ ap
        (λ t. serving ks2 (record {
          state_file = h.write_file (state_data h ks2) w1.state_file;
          pipe = signal_ready h.is_open (codes "OK") w1.pipe;
          trace = t;
        }))
        (append_stages w1.trace (ran (λ svc. svc.setup) set_up ks.services)
          (ran (λ svc. svc.startup) started ks.services) (bound n)
          (state_written (state_data h ks2)) (told (codes "OK")))
