-- ===== src/LogSetup/Steps/Ordered.antt =====
-- What the first configured destination gets over the whole life of a service's logging.
use kettlingar_go.Prelude.{
  ℕ, ◌≡◌, refl, subst, sym, ap, ap₂, ◌∙◌, Bool-cases, inl, inr, Bool, true, false, ◌&&◌, bytes_eq,
  List, [], ◌∷◌, ◌++◌, append_assoc, if◌then◌else◌, Bytes, Option, none, some, leb_ℤ, map,
}
use kettlingar_go.Slog.{Level, Record}
use kettlingar_go.Logtee.Levels.{level_trace}
use kettlingar_go.Logtee.Fanout
use kettlingar_go.Logtee.Fanout.{Hub, op_attrs, replay}
use kettlingar_go.Logging.Buffer
use kettlingar_go.Logging.Buffer.History.{last}
use kettlingar_go.Logging.Destination.{World, Sink}
use kettlingar_go.Logging.Choice.{opened, base_handler, target_of}
use kettlingar_go.LogSetup.Settings.{Env, LogSettings, resolve_log_config}
use kettlingar_go.LogSetup.Configure.{
  single, bases, Service, apply_base, close_old, rebase, drain, configure_on, apply_opened,
  install_on, install_logging, configure_logging,
}
use kettlingar_go.LogSetup.Steps.{installs, configures, logs, step, run}
use kettlingar_go.LogSetup.Steps.Flush.{
  boot_hub, logs_all-buffer, configure_logging-lines, at_least, lines_of, sink_handle-lines,
  text_of, IsQuiet, open_target-IsQuiet,
}
use kettlingar_go.LogSetup.Steps.Written.{tagged, IsSingle, logs_all-lines}

replay-denied :
    (s : Sink) (least : Level) (rs : List Record) (w : World)
    → (replay bases (single s) least rs w).denied ≡ w.denied
unfolding replay
replay-denied s least [] w = refl
replay-denied s least (r ∷ rs) w = elim (Bool-cases (leb_ℤ least r.level)) [
  | inl e ↦ rw (replay, e) (replay-denied s least rs _ ∙ (sink_handle-lines s r w).1)
  | inr e ↦ rw (replay, e) (replay-denied s least rs w)
]

-- A service whose fan-out has one sink at a level, and its name and denylist.
abbrev Configured : Level → Sink → Bytes → List Bytes → Service × World → Type 0
Configured least s name denied (ks, w) =
    ((hub : Hub bases) × (ks.logs ≡ some hub) × IsSingle least s hub)
    × (ks.name ≡ name)
    × (w.denied ≡ denied)

close_old-denied : (old : Option (Option ℕ)) (w : World) → (close_old old w).denied ≡ w.denied
close_old-denied none w = refl
close_old-denied (some none) w = refl
close_old-denied (some (some n)) w = refl

rebase-single :
    (applied has_buffer : Bool) (level : Level) (sink : Sink) (hub : Hub bases) (w : World)
    → ((rebase applied has_buffer level sink hub w).0.base ≡ single sink)
      × ((rebase applied has_buffer level sink hub w).1.denied ≡ w.denied)
unfolding rebase Fanout.set_base Fanout.set_base_flushing Buffer.drain
rebase-single true has_buffer level sink hub w = (refl, refl)
rebase-single false true level sink hub w =
    (refl, replay-denied sink level w.buffer.recs (drain true w).1)
rebase-single false false level sink hub w = (refl, refl)

apply_base-Configured :
    (level : Level) (key : Bytes) (ks : Service) (hub : Hub bases) (sink : Sink) (closer : Option ℕ)
    (w : World)
    → Configured level sink ks.name w.denied (apply_base level key ks hub sink closer w)
unfolding apply_base Fanout.set_level
apply_base-Configured level key ks hub sink closer w =
    let based = rebase ks.log_applied ks.log_buffer level sink hub w in
    let h = rebase-single ks.log_applied ks.log_buffer level sink hub w in
    (
      (Fanout.set_level bases level based.0, refl, (refl, h.0)),
      refl,
      close_old-denied ks.log_closer based.1 ∙ h.1,
    )

first_configure-Configured :
    (env : Env) (s : LogSettings) (hub : Hub bases) (ks : Service) (w w2 : World) (sink : Sink)
    (closer : Option ℕ)
    → ks.log_applied ≡ false
    → base_handler env.has_syslog env.opens (resolve_log_config env ks.name s).0 w
      ≡ opened sink closer w2
    → Configured s.level sink ks.name w.denied (configure_on env s (some hub) ks w)
unfolding resolve_log_config base_handler
first_configure-Configured env s hub ks w w2 sink closer fresh opens =
    let (cfg, key) = resolve_log_config env ks.name s in
    let quiet : text_of w2 ≡ text_of w =
      subst (IsQuiet w) opens
        (open_target-IsQuiet env.has_syslog env.opens cfg w (target_of cfg.target)) in
    let applied = apply_opened env cfg key ks hub (base_handler env.has_syslog env.opens cfg w) w in
    let same : configure_on env s (some hub) ks w ≡ apply_base s.level key ks hub sink closer w2 =
      ap (λ b. if b && bytes_eq key ks.log_key then (ks, w) else applied) fresh
      ∙ ap (λ o. apply_opened env cfg key ks hub o w) opens in
    subst (Configured s.level sink ks.name w.denied) (sym same) (
      subst (λ d. Configured s.level sink ks.name d (apply_base s.level key ks hub sink closer w2))
        (ap (λ t. t.1) quiet) (apply_base-Configured s.level key ks hub sink closer w2))

-- A service with a new fan-out, whatever it logged since.
booted :
    (rs : List Record) (ks : Service) (w : World)
    → ks.logs ≡ none
    → (run (installs ∷ map logs rs) (ks, w)).0 ≡ (install_on none ks w).0
unfolding step install_logging
booted rs ks w e =
    let (ks0, w0) = install_on none ks w in
    ap (λ o. (run (map logs rs) (install_on o ks w)).0) e ∙ (logs_all-buffer rs ks0 w0 refl).0

configures-Configured :
    (env : Env) (s : LogSettings) (hub : Hub bases) (ks : Service) (w w2 : World) (sink : Sink)
    (closer : Option ℕ)
    → ks.logs ≡ some hub
    → ks.log_applied ≡ false
    → base_handler env.has_syslog env.opens (resolve_log_config env ks.name s).0 w
      ≡ opened sink closer w2
    → Configured s.level sink ks.name w.denied (step (configures env s) (ks, w))
unfolding step configure_logging
configures-Configured env s hub ks w w2 sink closer e fresh opens =
    subst (λ o. Configured s.level sink ks.name w.denied (configure_on env s o ks w)) (sym e)
      (first_configure-Configured env s hub ks w w2 sink closer fresh opens)

later-lines :
    (later : List Record) (least : Level) (sink : Sink) (name : Bytes) (denied : List Bytes)
    (state : Service × World)
    → Configured least sink name denied state
    → (run (map logs later) state).1.lines
      ≡ state.1.lines ++ lines_of denied (tagged name sink) (at_least least later)
later-lines later least sink name denied (ks, w) ((hub, e, one), named, kept) =
    logs_all-lines later least sink hub ks w e one
    ∙ ap₂ (λ n d. w.lines ++ lines_of d (tagged n sink) (at_least least later)) named kept

-- A service installs its logging and logs, a first configuration follows whose destination opens,
-- and the service logs on. Then the new sink writes exactly one line for each record at or above the
-- configured level, or none at all where it discards, in the order of the log: first those of the
-- bootstrap buffer, which held the last 2048 of what was logged at TRACE or above, and then all later
-- ones, which have the attribute "service" as well.
pub run-lines :
    (env : Env) (s : LogSettings) (rs later : List Record) (ks : Service) (w w2 : World)
    (sink : Sink) (closer : Option ℕ)
    → ks.logs ≡ none
    → ks.log_applied ≡ false
    → let before = run (installs ∷ map logs rs) (ks, w) in
      base_handler env.has_syslog env.opens (resolve_log_config env ks.name s).0 before.1
        ≡ opened sink closer w2
      → (run (configures env s ∷ map logs later) before).1.lines
        ≡ before.1.lines
          ++ (lines_of before.1.denied sink (at_least s.level (last 2048 (at_least level_trace rs)))
              ++ lines_of before.1.denied (tagged ks.name sink) (at_least s.level later))
run-lines env s rs later ks w w2 sink closer no_logs fresh opens =
    let before = run (installs ∷ map logs rs) (ks, w) in
    let boot = booted rs ks w no_logs in
    let named : before.0.name ≡ ks.name = ap (λ k. k.name) boot in
    let done =
      configures-Configured env s boot_hub before.0 before.1 w2 sink closer (ap (λ k. k.logs) boot)
        (ap (λ k. k.log_applied) boot ∙ fresh)
        (ap (λ n. base_handler env.has_syslog env.opens (resolve_log_config env n s).0 before.1)
            named
          ∙ opens) in
    let early =
      lines_of before.1.denied sink (at_least s.level (last 2048 (at_least level_trace rs))) in
    let late = λ (n : Bytes). lines_of before.1.denied (tagged n sink) (at_least s.level later) in
    later-lines later s.level sink before.0.name before.1.denied (step (configures env s) before)
      done
    ∙ ap₂ (λ l n. l ++ late n)
        (configure_logging-lines env s rs ks w w2 sink closer no_logs fresh opens) named
    ∙ append_assoc before.1.lines early (late ks.name)
