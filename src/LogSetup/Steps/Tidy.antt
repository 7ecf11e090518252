-- ===== src/LogSetup/Steps/Tidy.antt =====
-- Which files and connections the configurations of a service's logging leave open.
use kettlingar_go.Prelude.{
  ℕ, ◌≤◌, ◌<◌, ◌≡◌, refl, subst, sym, ap, ◌∙◌, arith, All, Bool, true, false, List, [], ◌∷◌, ◌++◌,
  if◌then◌else◌, Bytes, codes, Option, none, some,
}
use kettlingar_go.Slog.{Level, Record}
use kettlingar_go.Logtee.Fanout.{Hub, new_handler, set_base, set_base_flushing, set_level}
use kettlingar_go.Logging.Buffer
use kettlingar_go.Logging.Destination.{World, Sink, Config}
use kettlingar_go.Logging.Choice.{Opened, opened, refused, base_handler}
use kettlingar_go.LogSetup.Settings.{Env, LogSettings, resolve_log_config}
use kettlingar_go.LogSetup.Configure.{
  single, bases, Service, install_logging, install_on, configure_on, rebase, is_same, log,
  warning_record, apply_base, close_old, configure_logging, drain, apply_opened, apply_fallback,
}
use kettlingar_go.LogSetup.Steps.{Op, installs, configures, logs, log_on, step, run}
use kettlingar_go.LogSetup.Configure.Resources.{
  closer_ids, base_ids, resources, replay-resources, Acquires, base_handler-Acquires, log-resources,
}

abbrev pub WritesTo : Option (Hub bases) → Option (Option ℕ) → Type 0
WritesTo none closer = closer ≡ none
WritesTo (some hub) closer = base_ids hub.base ≡ closer_ids closer

-- What holds between two calls: the open files and connections are those of the current closer,
-- and they are those that the fan-out's base writes to.
pub record IsTidy (ks : Service) (w : World) : Type 0 where
  pub live_is : w.live ≡ closer_ids ks.log_closer
  pub below : All (λ n. n < w.opened) (closer_ids ks.log_closer)
  pub base_is : WritesTo ks.logs ks.log_closer

install_on-IsTidy :
    (logs : Option (Hub bases)) (ks : Service) (w : World)
    → ks.logs ≡ logs
    → IsTidy ks w
    → IsTidy (install_on logs ks w).0 (install_on logs ks w).1
unfolding new_handler
install_on-IsTidy (some hub) ks w e t = t
install_on-IsTidy none ks w e t =
    let no_closer : ks.log_closer ≡ none = subst (λ o. WritesTo o ks.log_closer) e t.base_is in
    record { live_is = t.live_is; below = t.below; base_is = sym (ap closer_ids no_closer) }

drain-resources : (b : Bool) (w : World) → resources (drain b w).1 ≡ resources w
unfolding Buffer.drain
drain-resources true w = refl
drain-resources false w = refl

rebase-resources :
    (applied has_buffer : Bool) (level : Level) (sink : Sink) (hub : Hub bases) (w : World)
    → (resources (rebase applied has_buffer level sink hub w).1 ≡ resources w)
      × ((rebase applied has_buffer level sink hub w).0.base ≡ single sink)
unfolding rebase set_base set_base_flushing
rebase-resources true has_buffer level sink hub w = (refl, refl)
rebase-resources false has_buffer level sink hub w = (
  replay-resources (single sink) level (drain has_buffer w).0 (drain has_buffer w).1
      ∙ drain-resources has_buffer w,
  refl,
)

-- The old sink goes and the new one stays.
close_old-live :
    (old : Option (Option ℕ)) (closer : Option ℕ) (w : World)
    → w.live ≡ closer_ids (some closer) ++ closer_ids old
    → ((n m : ℕ) → closer ≡ some n → old ≡ some (some m) → m < n)
    → (close_old old w).live ≡ closer_ids (some closer)
close_old-live none none w h lt = h
close_old-live none (some n) w h lt = h
close_old-live (some none) none w h lt = h
close_old-live (some none) (some n) w h lt = h
close_old-live (some (some m)) none w h lt = rw h (ground arith)
close_old-live (some (some m)) (some n) w h lt = rw h (ground (arith, lt n m refl refl))

close_old-opened : (old : Option (Option ℕ)) (w : World) → (close_old old w).opened ≡ w.opened
close_old-opened none w = refl
close_old-opened (some none) w = refl
close_old-opened (some (some m)) w = refl

new_below :
    (closer : Option ℕ) (low high top : ℕ)
    → top ≡ high
    → All (λ n. (low ≤ n) × (n < high)) (closer_ids (some closer))
    → All (λ n. n < top) (closer_ids (some closer))
new_below none low high top e a = tt
new_below (some n) low high top e a = omega arith

-- A closer of before has a smaller number than the new one.
old_before :
    (old : Option (Option ℕ)) (closer : Option ℕ) (w w' : World) (n m : ℕ)
    → All (λ n. n < w.opened) (closer_ids old)
    → All (λ n. (w.opened ≤ n) × (n < w'.opened)) (closer_ids (some closer))
    → closer ≡ some n
    → old ≡ some (some m)
    → m < n
old_before old closer w w' n m below a en em =
    let b = subst (λ c. All (λ k. k < w.opened) (closer_ids c)) em below in
    let c = subst (λ c. All (λ k. (w.opened ≤ k) × (k < w'.opened)) (closer_ids (some c))) en a in
    omega arith

-- From the new sink on.
apply_base-IsTidy :
    (level : Level) (key : Bytes) (ks : Service) (hub : Hub bases) (sink : Sink) (closer : Option ℕ)
    (w w' : World)
    → w.live ≡ closer_ids ks.log_closer
    → All (λ n. n < w.opened) (closer_ids ks.log_closer)
    → Acquires w (opened sink closer w')
    → IsTidy
        (apply_base level key ks hub sink closer w').0
        (apply_base level key ks hub sink closer w').1
unfolding apply_base set_level
apply_base-IsTidy level key ks hub sink closer w w' live below a =
    let r = rebase-resources ks.log_applied ks.log_buffer level sink hub w' in
    record {
      live_is =
          close_old-live ks.log_closer closer _
            (ap (λ x. x.0) r.0 ∙ a.1 ∙ ap (λ l. closer_ids (some closer) ++ l) live)
            (λ n m. old_before ks.log_closer closer w w' n m below a.3);
      below =
          new_below closer w.opened w'.opened _
            (close_old-opened ks.log_closer _ ∙ ap (λ x. x.1) r.0) a.3;
      base_is = ap base_ids r.1 ∙ a.0;
    }

IsTidy-resources :
    (ks : Service) (v w : World) → resources v ≡ resources w → IsTidy ks w → IsTidy ks v
IsTidy-resources ks v w e t = record {
  live_is = ap (λ x. x.0) e ∙ t.live_is;
  below =
      subst (λ top. All (λ n. n < top) (closer_ids ks.log_closer)) (sym (ap (λ x. x.1) e)) t.below;
  base_is = t.base_is;
}

apply_fallback-IsTidy :
    (cfg : Config) (key : Bytes) (ks : Service) (hub : Hub bases) (o : Opened) (w : World)
    → IsTidy ks w
    → Acquires w o
    → IsTidy (apply_fallback cfg key ks hub o w).0 (apply_fallback cfg key ks hub o w).1
apply_fallback-IsTidy cfg key ks hub (opened sink closer w') w t a =
    apply_base-IsTidy cfg.level key ks hub sink closer w w' t.live_is t.below a
apply_fallback-IsTidy cfg key ks hub (refused text) w t a = t

apply_opened-IsTidy :
    (env : Env) (cfg : Config) (key : Bytes) (ks : Service) (hub : Hub bases) (o : Opened)
    (w : World)
    → IsTidy ks w
    → Acquires w o
    → IsTidy (apply_opened env cfg key ks hub o w).0 (apply_opened env cfg key ks hub o w).1
apply_opened-IsTidy env cfg key ks hub (opened sink closer w') w t a =
    apply_base-IsTidy cfg.level key ks hub sink closer w w' t.live_is t.below a
apply_opened-IsTidy env cfg key ks hub (refused text) w t a =
    let logged = log ks.name (warning_record ks.name cfg.target text) hub w in
    let same = log-resources ks.name (warning_record ks.name cfg.target text) hub w in
    apply_fallback-IsTidy cfg key ks logged.0
      (base_handler env.has_syslog env.opens (record cfg { target = codes "stderr" }) logged.1)
      logged.1 (IsTidy-resources ks logged.1 w same.0 t)
      (base_handler-Acquires env.has_syslog env.opens (record cfg { target = codes "stderr" })
        logged.1)

if-IsTidy :
    (b : Bool) (ks : Service) (w : World) (next : Service × World)
    → IsTidy ks w
    → IsTidy next.0 next.1
    → IsTidy (if b then (ks, w) else next).0 (if b then (ks, w) else next).1
if-IsTidy true ks w next t n = t
if-IsTidy false ks w next t n = n

configure_on-IsTidy :
    (env : Env) (s : LogSettings) (logs : Option (Hub bases)) (ks : Service) (w : World)
    → IsTidy ks w
    → IsTidy (configure_on env s logs ks w).0 (configure_on env s logs ks w).1
configure_on-IsTidy env s none ks w t = t
configure_on-IsTidy env s (some hub) ks w t =
    let (cfg, key) = resolve_log_config env ks.name s in
    if-IsTidy (is_same ks key) ks w _ t (
      apply_opened-IsTidy env cfg key ks hub (base_handler env.has_syslog env.opens cfg w) w t
        (base_handler-Acquires env.has_syslog env.opens cfg w))

log_on-IsTidy :
    (r : Record) (o : Option (Hub bases)) (ks : Service) (w : World)
    → ks.logs ≡ o
    → IsTidy ks w
    → IsTidy (log_on r o ks w).0 (log_on r o ks w).1
log_on-IsTidy r none ks w e t = t
log_on-IsTidy r (some hub) ks w e t =
    let same = log-resources ks.name r hub w in
    let v = IsTidy-resources ks (log ks.name r hub w).1 w same.0 t in
    record {
      live_is = v.live_is;
      below = v.below;
      base_is = ap base_ids same.1 ∙ subst (λ o. WritesTo o ks.log_closer) e t.base_is;
    }

step-IsTidy :
    (op : Op) (ks : Service) (w : World)
    → IsTidy ks w
    → IsTidy (step op (ks, w)).0 (step op (ks, w)).1
unfolding step install_logging configure_logging
step-IsTidy installs ks w t = install_on-IsTidy ks.logs ks w refl t
step-IsTidy (configures env s) ks w t = configure_on-IsTidy env s ks.logs ks w t
step-IsTidy (logs r) ks w t = log_on-IsTidy r ks.logs ks w refl t

-- Whatever a process installs, configures and logs, with any answers of the system, and whether a
-- destination opens or the configuration falls back to stderr: the files and connections that are
-- open are exactly that of the current closer, at most one, and it is what the base of the fan-out
-- writes to. So no sink is leaked, and none is used after it was closed.
pub run-IsTidy :
    (ops : List Op) (ks : Service) (w : World)
    → IsTidy ks w
    → IsTidy (run ops (ks, w)).0 (run ops (ks, w)).1
run-IsTidy [] ks w t = t
run-IsTidy (op ∷ ops) ks w t =
    run-IsTidy ops (step op (ks, w)).0 (step op (ks, w)).1 (step-IsTidy op ks w t)
