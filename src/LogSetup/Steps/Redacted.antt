-- ===== src/LogSetup/Steps/Redacted.antt =====
-- No secret reaches a configured destination.
use kettlingar_go.Prelude.{
  ℕ, ◌≡◌, refl, sym, append-nil, subst, Bool-cases, inl, inr, Bool, true, false, List, [], ◌∷◌,
  if◌then◌else◌, Bytes, codes, Option, none, some, leb_ℤ,
}
use kettlingar_go.Slog.{Level, Record, Attr, text_value}
use kettlingar_go.Logtee.Fanout
use kettlingar_go.Logtee.Fanout.{
  Hub, BaseOp, op_attrs, replay, set_base, set_base_flushing, set_level,
}
use kettlingar_go.Logging.Buffer
use kettlingar_go.Logging.Destination.{
  World, Line, Sink, Config, Facility, syslog_facility, sink_op, sink_handle,
}
use kettlingar_go.Logging.Destination.Redaction.{
  Hides, Replaces, sink_handle-Hides, sink_op-Replaces,
}
use kettlingar_go.Logging.Choice.{
  Opened, opened, refused, base_handler, acquire, Target, no_target, stderr_target, stdout_target,
  file_target, syslog_target, unknown_target, open_target, target_of, options_of, file_sink,
  syslog_sink, dial_syslog,
}
use kettlingar_go.LogSetup.Settings.{Env, LogSettings, resolve_log_config}
use kettlingar_go.LogSetup.Configure.{
  Base, teed, single, bases, Service, install_logging, install_on, log, logger, warning_record,
  rebase, apply_base, apply_opened, close_old, configure_logging, configure_on, is_same, drain,
}
use kettlingar_go.LogSetup.Steps.{Op, installs, configures, logs, log_on, step, run}

abbrev ReplacesIn : Base → Type 0
ReplacesIn (teed t) = ⊥
ReplacesIn (single s) = Replaces s

abbrev pub ReplacesBase : Option (Hub bases) → Type 0
ReplacesBase none = ⊥
ReplacesBase (some hub) = ReplacesIn hub.base

-- A configured service, whose lines beyond the `old` ones show no secret.
abbrev pub IsRedacted : List Line → Service × World → Type 0
IsRedacted old (ks, w) = ReplacesBase ks.logs × Hides old w

module _ (old : List Line) where
  if-Hides : (b : Bool) (v w : World) → Hides old v → Hides old w → Hides old (if b then v else w)
  if-Hides true v w h k = h
  if-Hides false v w h k = k

  replay-Hides :
      (s : Sink) (least : Level) (rs : List Record) (w : World)
      → Replaces s
      → Hides old w
      → Hides old (replay bases (single s) least rs w)
  unfolding replay
  replay-Hides s least [] w r h = h
  replay-Hides s least (x ∷ rs) w r h =
      replay-Hides s least rs (if leb_ℤ least x.level then (sink_handle s x w).1 else w) r
        (if-Hides (leb_ℤ least x.level) (sink_handle s x w).1 w (sink_handle-Hides old s x w r h) h)

  -- What BaseHandler opens replaces attributes, and no line is written.
  abbrev OpensRedacted : World → Opened → Type 0
  OpensRedacted w (refused text) = Unit {0}
  OpensRedacted w (opened s closer w') = Replaces s × (Hides old w → Hides old w')

  if-OpensRedacted :
      (b : Bool) (sink : ℕ → Sink) (w : World) (text : Bytes)
      → Replaces (sink w.opened)
      → OpensRedacted w (if b then acquire sink w else refused text)
  if-OpensRedacted true sink w text r = (r, λ h. h)
  if-OpensRedacted false sink w text r = tt

  dial_syslog-OpensRedacted :
      (opens : Config → Bool) (cfg : Config) (w : World) (fac : Option Facility)
      → OpensRedacted w (dial_syslog opens cfg w fac)
  dial_syslog-OpensRedacted opens cfg w none = tt
  dial_syslog-OpensRedacted opens cfg w (some fac) =
      if-OpensRedacted (opens cfg) (syslog_sink cfg fac) w (codes "logging: syslog") tt

  base_handler-OpensRedacted :
      (has_syslog : Bool) (opens : Config → Bool) (cfg : Config) (w : World) (t : Target)
      → OpensRedacted w (open_target has_syslog opens cfg w t)
  unfolding open_target
  base_handler-OpensRedacted has_syslog opens cfg w no_target = (tt, λ h. h)
  base_handler-OpensRedacted has_syslog opens cfg w stderr_target = (refl, λ h. h)
  base_handler-OpensRedacted has_syslog opens cfg w stdout_target = (refl, λ h. h)
  base_handler-OpensRedacted has_syslog opens cfg w file_target =
      if-OpensRedacted (opens cfg) (file_sink cfg (options_of cfg)) w
        (codes "logging: open log file") refl
  base_handler-OpensRedacted true opens cfg w syslog_target =
      dial_syslog-OpensRedacted opens cfg w (syslog_facility cfg.syslog.facility)
  base_handler-OpensRedacted false opens cfg w syslog_target = tt
  base_handler-OpensRedacted has_syslog opens cfg w unknown_target = tt

  rebase-IsRedacted :
      (applied has_buffer : Bool) (level : Level) (sink : Sink) (hub : Hub bases) (w : World)
      → Replaces sink
      → Hides old w
      → ReplacesBase (some (rebase applied has_buffer level sink hub w).0)
        × Hides old (rebase applied has_buffer level sink hub w).1
  unfolding rebase set_base set_base_flushing Buffer.drain
  rebase-IsRedacted true has_buffer level sink hub w r h = (r, h)
  rebase-IsRedacted false true level sink hub w r h =
      (r, replay-Hides sink level w.buffer.recs (drain true w).1 r h)
  rebase-IsRedacted false false level sink hub w r h = (r, replay-Hides sink level [] w r h)

  close_old-Hides :
      (was : Option (Option ℕ)) (w : World) → Hides old w → Hides old (close_old was w)
  close_old-Hides none w h = h
  close_old-Hides (some none) w h = h
  close_old-Hides (some (some n)) w h = h

  apply_base-IsRedacted :
      (level : Level) (key : Bytes) (ks : Service) (hub : Hub bases) (sink : Sink)
      (closer : Option ℕ) (w : World)
      → Replaces sink
      → Hides old w
      → IsRedacted old (apply_base level key ks hub sink closer w)
  unfolding apply_base set_level
  apply_base-IsRedacted level key ks hub sink closer w r h =
      let rebased = rebase-IsRedacted ks.log_applied ks.log_buffer level sink hub w r h in
      (rebased.0, close_old-Hides ks.log_closer _ rebased.1)

  view-Hides :
      (b : Base) (attrs : List Attr) (r : Record) (w : World)
      → ReplacesIn b
      → Hides old w
      → Hides old (bases.handle (bases.with_attrs b attrs) r w).1
  view-Hides (teed t) attrs r w b h = elim b [ ]
  view-Hides (single s) attrs r w b h =
      sink_handle-Hides old (sink_op (op_attrs attrs) s) r w (sink_op-Replaces (op_attrs attrs) s b)
        h

  log-IsRedacted :
      (name : Bytes) (r : Record) (hub : Hub bases) (w : World)
      → ReplacesBase (some hub)
      → Hides old w
      → ReplacesBase (some (log name r hub w).0) × Hides old (log name r hub w).1
  unfolding log Fanout.handle logger Fanout.with_attrs
  log-IsRedacted name r hub w b h =
      let service : List Attr = record { key = codes "service"; value = text_value name } ∷ [] in
      elim (Bool-cases (Fanout.enabled bases hub r.level)) [
        | inl e ↦ elim (Bool-cases (leb_ℤ hub.level r.level)) [
          | inl e' ↦ rw (log, e, Fanout.handle, e') (b, view-Hides hub.base service r w b h)
          | inr e' ↦ rw (log, e, Fanout.handle, e') (b, h)
        ]
        | inr e ↦ rw (log, e) (b, h)
      ]

  apply_opened-IsRedacted :
      (env : Env) (cfg : Config) (key : Bytes) (ks : Service) (hub : Hub bases) (o : Opened)
      (w : World)
      → ReplacesBase (some hub)
      → ReplacesBase ks.logs
      → Hides old w
      → OpensRedacted w o
      → IsRedacted old (apply_opened env cfg key ks hub o w)
  unfolding base_handler
  apply_opened-IsRedacted env cfg key ks hub (opened sink closer w') w b b' h o =
      apply_base-IsRedacted cfg.level key ks hub sink closer w' o.0 (o.1 h)
  apply_opened-IsRedacted env cfg key ks hub (refused text) w b b' h o =
      let warned = log-IsRedacted ks.name (warning_record ks.name cfg.target text) hub w b h in
      let w1 = (log ks.name (warning_record ks.name cfg.target text) hub w).1 in
      apply_base-IsRedacted cfg.level key ks _ _ none w1 refl warned.1

  configure_on-IsRedacted :
      (env : Env) (s : LogSettings) (o : Option (Hub bases)) (ks : Service) (w : World)
      → ks.logs ≡ o
      → IsRedacted old (ks, w)
      → IsRedacted old (configure_on env s o ks w)
  unfolding base_handler
  configure_on-IsRedacted env s none ks w e h = h
  configure_on-IsRedacted env s (some hub) ks w e h =
      let (cfg, key) = resolve_log_config env ks.name s in
      let done =
        apply_opened-IsRedacted env cfg key ks hub (base_handler env.has_syslog env.opens cfg w) w
          (subst ReplacesBase e h.0) h.0 h.1
          (base_handler-OpensRedacted env.has_syslog env.opens cfg w (target_of cfg.target)) in
      elim (Bool-cases (is_same ks key)) [ inl same ↦ rw same h | inr other ↦ rw other done ]

  log_on-IsRedacted :
      (r : Record) (o : Option (Hub bases)) (ks : Service) (w : World)
      → ks.logs ≡ o
      → IsRedacted old (ks, w)
      → IsRedacted old (log_on r o ks w)
  log_on-IsRedacted r none ks w e h = h
  log_on-IsRedacted r (some hub) ks w e h =
      log-IsRedacted ks.name r hub w (subst ReplacesBase e h.0) h.1

  install_on-IsRedacted :
      (o : Option (Hub bases)) (ks : Service) (w : World)
      → ks.logs ≡ o
      → IsRedacted old (ks, w)
      → IsRedacted old (install_on o ks w)
  install_on-IsRedacted (some hub) ks w e h = h
  install_on-IsRedacted none ks w e h = absurd (subst ReplacesBase e h.0)

  step-IsRedacted :
      (op : Op) (ks : Service) (w : World)
      → IsRedacted old (ks, w)
      → IsRedacted old (step op (ks, w))
  unfolding step install_logging configure_logging
  step-IsRedacted installs ks w h = install_on-IsRedacted ks.logs ks w refl h
  step-IsRedacted (configures env s) ks w h = configure_on-IsRedacted env s ks.logs ks w refl h
  step-IsRedacted (logs r) ks w h = log_on-IsRedacted r ks.logs ks w refl h

  keeps-IsRedacted :
      (ops : List Op) (ks : Service) (w : World)
      → IsRedacted old (ks, w)
      → IsRedacted old (run ops (ks, w))
  keeps-IsRedacted [] ks w h = h
  keeps-IsRedacted (op ∷ ops) ks w h =
      keeps-IsRedacted ops (step op (ks, w)).0 (step op (ks, w)).1 (step-IsRedacted op ks w h)

-- Once a service's logging is configured, whatever it then installs, configures and logs: no line
-- that is written from then on shows the value of an attribute whose key is on the denylist, neither
-- an attribute of the record nor one of its logger; its value is "[redacted]". Of a group of attributes
-- this holds for the members, at any depth. (The key "level" is left out: its attribute is the record's
-- level.) The lines that were there stay, whatever they show.
pub run-IsRedacted :
    (ops : List Op) (ks : Service) (w : World)
    → ReplacesBase ks.logs
    → IsRedacted w.lines (run ops (ks, w))
run-IsRedacted ops ks w configured =
    keeps-IsRedacted w.lines ops ks w (configured, ([], sym (append-nil w.lines), tt))
