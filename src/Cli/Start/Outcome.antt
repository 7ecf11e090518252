-- ===== src/Cli/Start/Outcome.antt =====
-- The exit code of a start in the background.
use kettlingar_go.Prelude.{
  ◌≡◌, refl, ◌∙◌, ap, Bool, true, false, List, [], ◌∷◌, if◌then◌else◌, Bytes, codes, Option, none,
  some,
}
use kettlingar_go.Cli.StateFile.{set_up, World}
use kettlingar_go.Cli.Server.{
  Hooks, Server, Host, Started, exited, serving, prepare, probe_first, discovered, start_foreground,
  set_up_then,
}
use kettlingar_go.Cli.Server.Codes.{all_ok, ran, code_of}
use kettlingar_go.Cli.Server.Order.{and_then, run_hooks-ran}
use kettlingar_go.Cli.Start.{
  done, run_background_function, background_done, go_background, spawn_done, child_world,
  spawn_background, start_background,
}
use kettlingar_go.Cli.Start.Barrier.{Reports, spawn_background-Reports}

abbrev pub is_serving : Started → Bool
is_serving (exited code w) = false
is_serving (serving ks w) = true

-- No service has a background function.
abbrev pub NoBackground : List Hooks → Type 0
NoBackground [] = Unit
NoBackground (svc ∷ services) = (svc.background ≡ none) × NoBackground services

background-none :
    (services : List Hooks) (w : World)
    → NoBackground services
    → run_background_function services w ≡ (done false, w)
background-none [] w n = refl
background-none (svc ∷ services) w n = rw n.0 (background-none services w n.1)

spawn_done-code :
    (r : Option Bytes) (w : World) (s : Started)
    → Reports r s
    → code_of (spawn_done (r, w)) ≡ (if is_serving s then some 0 else some 5)
spawn_done-code r w (exited code v) t = ap (λ r. code_of (spawn_done (r, w))) t.1.1
spawn_done-code r w (serving ks v) t = ap (λ r. code_of (spawn_done (r, w))) t

-- A start in the background, where no server is running, no setup function fails, no service has a
-- background function of its own, and a child can be made that is done in time: it exits with 0
-- exactly where its child serves, and otherwise with 5. The child starts from the world `w1` behind
-- the search for a running server.
pub start_background-code :
    (h h' : Host) (host port : Bytes) (ks : Server) (w w1 : World)
    → probe_first h (discovered h ks w) w ≡ (false, w1)
    → all_ok (λ svc. svc.setup) ks.services ≡ true
    → NoBackground ks.services
    → h.can_pipe ≡ true
    → h.can_start ≡ true
    → h.in_time ≡ true
    → h'.is_open (codes "3") ≡ true
    → let child = start_foreground h' host port ks in
      code_of (start_background h child ks w)
      ≡ (if is_serving (child (child_world w1)) then some 0 else some 5)
unfolding start_background
start_background-code h h' host port ks w w1 idle setups nobody can_pipe can_start in_time open3 =
    let child = start_foreground h' host port ks in
    let ks' = discovered h ks w in
    let go = go_background h child ks' in
    let w2 = and_then (ran (λ svc. svc.setup) set_up ks.services) w1 in
    let r = spawn_background h ks.name child w2 in
    ap (λ p. code_of (prepare ks' go p)) idle
    ∙ ap (λ p. code_of (set_up_then go p))
        (run_hooks-ran (λ svc. svc.setup) set_up ks.services w1 setups)
    ∙ ap (λ p. code_of (background_done h ks.name child p)) (background-none ks.services w2 nobody)
    ∙ spawn_done-code r.0 r.1 (child (child_world w2))
        (spawn_background-Reports h h' ks.name host port ks w2 can_pipe can_start in_time open3)
