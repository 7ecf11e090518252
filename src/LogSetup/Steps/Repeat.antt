-- ===== src/LogSetup/Steps/Repeat.antt =====
-- A configuration that is given again.
use kettlingar_go.Prelude.{
  ℕ, ◌≡◌, refl, sym, ap, ◌∙◌, Bool, true, false, if◌then◌else◌, Bytes, Option, none, some,
  bytes_eq_refl,
}
use kettlingar_go.Logtee.Fanout.{Hub}
use kettlingar_go.Logging.Destination.{World, Sink, Config}
use kettlingar_go.Logging.Choice.{Opened, opened, refused, base_handler}
use kettlingar_go.LogSetup.Settings.{Env, LogSettings, resolve_log_config}
use kettlingar_go.LogSetup.Configure.{
  bases, Service, log, warning_record, apply_base, apply_opened, configure_logging, configure_on,
  is_same,
}

-- The configuration with this key is in force.
abbrev IsSettled : Bytes → Bytes → Service × World → Type 0
IsSettled name key (ks, w) = (is_same ks key ≡ true) × (ks.name ≡ name)

apply_base-IsSettled :
    (cfg : Config) (key : Bytes) (ks : Service) (hub : Hub bases) (sink : Sink) (closer : Option ℕ)
    (w : World)
    → IsSettled ks.name key (apply_base cfg.level key ks hub sink closer w)
unfolding apply_base
apply_base-IsSettled cfg key ks hub sink closer w = (bytes_eq_refl key, refl)

apply_opened-IsSettled :
    (env : Env) (cfg : Config) (key : Bytes) (ks : Service) (hub : Hub bases) (o : Opened)
    (w : World)
    → IsSettled ks.name key (apply_opened env cfg key ks hub o w)
unfolding base_handler
apply_opened-IsSettled env cfg key ks hub (opened sink closer w') w =
    apply_base-IsSettled cfg key ks hub sink closer w'
apply_opened-IsSettled env cfg key ks hub (refused text) w =
    let logged = log ks.name (warning_record ks.name cfg.target text) hub w in
    apply_base-IsSettled cfg key ks logged.0 _ none logged.1

if-IsSettled :
    (b : Bool) (name key : Bytes) (ks : Service) (w : World) (next : Service × World)
    → b ≡ is_same ks key
    → ks.name ≡ name
    → IsSettled name key next
    → IsSettled name key (if b then (ks, w) else next)
if-IsSettled true name key ks w next e n h = (sym e, n)
if-IsSettled false name key ks w next e n h = h

again :
    (env : Env) (s : LogSettings) (logs : Option (Hub bases)) (ks : Service) (w : World)
    → is_same ks (resolve_log_config env ks.name s).1 ≡ true
    → configure_on env s logs ks w ≡ (ks, w)
again env s none ks w e = refl
again env s (some hub) ks w e = rw e refl

twice :
    (env env' : Env) (s : LogSettings) (logs : Option (Hub bases)) (ks : Service) (w : World)
    → ks.logs ≡ logs
    → (resolve_log_config env' ks.name s).1 ≡ (resolve_log_config env ks.name s).1
    → let (ks1, w1) = configure_on env s logs ks w in
      configure_on env' s ks1.logs ks1 w1 ≡ (ks1, w1)
twice env env' s none ks w e same = ap (λ o. configure_on env' s o ks w) e
twice env env' s (some hub) ks w e same =
    let key = (resolve_log_config env ks.name s).1 in
    let cfg = (resolve_log_config env ks.name s).0 in
    let settled =
      if-IsSettled (is_same ks key) ks.name key ks w
        (apply_opened env cfg key ks hub (base_handler env.has_syslog env.opens cfg w) w) refl refl
        (apply_opened-IsSettled env cfg key ks hub (base_handler env.has_syslog env.opens cfg w)
          w) in
    let (ks1, w1) = configure_on env s (some hub) ks w in
    again env' s ks1.logs ks1 w1 (
      ap (λ k. is_same ks1 k) (ap (λ n. (resolve_log_config env' n s).1) settled.1 ∙ same)
      ∙ settled.0)

-- A configuration that is given again, and resolves to the same key, changes nothing: it opens no
-- file or connection, writes no line and leaves the service's fields alone, also where the first
-- had to fall back to stderr and whatever could be opened now.
pub configure_logging_again :
    (env env' : Env) (s : LogSettings) (ks : Service) (w : World)
    → (resolve_log_config env' ks.name s).1 ≡ (resolve_log_config env ks.name s).1
    → let (ks1, w1) = configure_logging env s ks w in configure_logging env' s ks1 w1 ≡ (ks1, w1)
unfolding configure_logging
configure_logging_again env env' s ks w same = twice env env' s ks.logs ks w refl same
