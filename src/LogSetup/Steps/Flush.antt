-- ===== src/LogSetup/Steps/Flush.antt =====
-- What the first configuration does with what was logged before it.
use kettlingar_go.Prelude.{
  ℕ, ◌≡◌, refl, subst, sym, ap, ap₂, ◌∙◌, arith, Bool-cases, inl, inr, Bool, true, false, ◌&&◌,
  bytes_eq, List, [], ◌∷◌, ◌++◌, append_assoc, append-nil, if◌then◌else◌, Bytes, codes, Option,
  none, some, leb_ℤ, pos, map,
}
use kettlingar_go.Slog.{Level, Record}
use kettlingar_go.Logtee.Levels.{level_trace}
use kettlingar_go.Logtee.Fanout
use kettlingar_go.Logtee.Fanout.{
  Hub, BaseOp, replay, new_handler, set_base, set_base_flushing, set_level,
}
use kettlingar_go.Logging.Buffer
use kettlingar_go.Logging.Buffer.{BufferHandler, new_buffer_handler, handle_all}
use kettlingar_go.Logging.Buffer.History.{last, handle_all-Holds, new-Holds}
use kettlingar_go.Logging.Tee
use kettlingar_go.Logging.Destination.{
  World, Line, Sink, buffered, formatted, syslogged, discard, sink_handle, sink_enabled, sink_op,
  Config, Facility, syslog_facility, severity, to_syslog, formatted_line, shown_line,
}
use kettlingar_go.Logging.Choice.{
  Opened, opened, refused, base_handler, acquire, Target, no_target, stderr_target, stdout_target,
  file_target, syslog_target, unknown_target, open_target, target_of, options_of, file_sink,
  syslog_sink, dial_syslog,
}
use kettlingar_go.LogSetup.Settings.{Env, LogSettings, resolve_log_config}
use kettlingar_go.LogSetup.Steps.{installs, configures, logs, log_on, step, run}
use kettlingar_go.LogSetup.Configure.{
  teed, single, bases, Service, install_logging, install_on, log, logger, rebase, apply_base,
  close_old, configure_logging, configure_on, apply_opened, bootstrap,
}

-- The records of a list at or above a level.
abbrev pub at_least : Level → List Record → List Record
at_least least [] = []
at_least least (r ∷ rs) =
    let rest = at_least least rs in if leb_ℤ least r.level then r ∷ rest else rest

-- The lines that a sink makes of records.
abbrev pub line_of : List Bytes → Sink → Record → List Line
line_of denied buffered r = []
line_of denied (formatted out json opts ops) r =
    shown_line opts.replaces denied (formatted_line out json opts.source ops r) ∷ []
line_of denied (syslogged conn fac tag json ops) r =
    shown_line true denied (formatted_line (to_syslog conn (severity r.level)) json false ops r)
    ∷ []
line_of denied discard r = []

abbrev pub lines_of : List Bytes → Sink → List Record → List Line
lines_of denied s [] = []
lines_of denied s (r ∷ rs) = line_of denied s r ++ lines_of denied s rs

pub sink_handle-lines :
    (s : Sink) (r : Record) (w : World)
    → ((sink_handle s r w).1.lines ≡ w.lines ++ line_of w.denied s r)
      × ((sink_handle s r w).1.denied ≡ w.denied)
unfolding sink_handle
sink_handle-lines buffered r w = (sym (append-nil w.lines), refl)
sink_handle-lines (formatted out json opts ops) r w = (refl, refl)
sink_handle-lines (syslogged n fac tag json ops) r w = (refl, refl)
sink_handle-lines discard r w = (sym (append-nil w.lines), refl)

replay-lines :
    (s : Sink) (least : Level) (rs : List Record) (w : World)
    → (replay bases (single s) least rs w).lines
      ≡ w.lines ++ lines_of w.denied s (at_least least rs)
unfolding replay
replay-lines s least [] w = sym (append-nil w.lines)
replay-lines s least (r ∷ rs) w = elim (Bool-cases (leb_ℤ least r.level)) [
  | inl e ↦
      let h = sink_handle-lines s r w in
      let w1 = (sink_handle s r w).1 in
      let rest = replay-lines s least rs w1 in
      rw (replay, e)
        (rest
          ∙ ap₂ (λ before denied. before ++ lines_of denied s (at_least least rs)) h.0 h.1
          ∙ append_assoc w.lines (line_of w.denied s r) (lines_of w.denied s (at_least least rs)))
  | inr e ↦ rw (replay, e) (replay-lines s least rs w)
]

-- The fan-out as InstallLogging makes it.
abbrev pub boot_hub : Hub bases
boot_hub = new_handler bases (teed bootstrap) level_trace

boot_hub-log :
    (name : Bytes) (r : Record) (w : World)
    → ((log name r boot_hub w).0 ≡ boot_hub)
      × ((log name r boot_hub w).1.buffer
          ≡ (if leb_ℤ level_trace r.level then Buffer.handle w.buffer r else w.buffer))
unfolding log new_handler Fanout.enabled Fanout.handle Tee.handle sink_handle Fanout.base_view
    logger Fanout.with_attrs Tee.with_attrs sink_enabled sink_op
boot_hub-log name r w = ground arith

if-handle_all :
    (b : Bool) (buffer : BufferHandler) (r : Record) (rs : List Record)
    → handle_all (if b then Buffer.handle buffer r else buffer) rs
      ≡ handle_all buffer (if b then r ∷ rs else rs)
if-handle_all true buffer r rs = refl
if-handle_all false buffer r rs = refl

-- The whole bootstrap: the hub stays as it is, and the buffer takes what is at or above TRACE.
pub logs_all-buffer :
    (rs : List Record) (ks : Service) (w : World)
    → ks.logs ≡ some boot_hub
    → ((run (map logs rs) (ks, w)).0 ≡ ks)
      × ((run (map logs rs) (ks, w)).1.buffer ≡ handle_all w.buffer (at_least level_trace rs))
unfolding step
logs_all-buffer [] ks w e = (refl, refl)
logs_all-buffer (r ∷ rs) ks w e =
    let h = boot_hub-log ks.name r w in
    let w1 = (log ks.name r boot_hub w).1 in
    let same : log_on r ks.logs ks w ≡ (ks, w1) =
      ap (λ o. log_on r o ks w) e ∙ ap (λ o. (record ks { logs = o }, w1)) (ap some h.0 ∙ sym e) in
    let ih = logs_all-buffer rs ks w1 e in
    (
      ap (λ p. (run (map logs rs) p).0) same ∙ ih.0,
      ap (λ p. (run (map logs rs) p).1.buffer) same
          ∙ ih.1
          ∙ ap (λ b. handle_all b (at_least level_trace rs)) h.1
          ∙ if-handle_all (leb_ℤ level_trace r.level) w.buffer r (at_least level_trace rs),
    )

-- BaseHandler opens, and writes nothing.
abbrev pub text_of : World → List Line × List Bytes × BufferHandler
text_of w = (w.lines, w.denied, w.buffer)

abbrev pub IsQuiet : World → Opened → Type 0
IsQuiet w (refused text) = Unit {0}
IsQuiet w (opened s closer w') = text_of w' ≡ text_of w

if-IsQuiet :
    (b : Bool) (sink : ℕ → Sink) (w : World) (text : Bytes)
    → IsQuiet w (if b then acquire sink w else refused text)
if-IsQuiet true sink w text = refl
if-IsQuiet false sink w text = tt

dial_syslog-IsQuiet :
    (opens : Config → Bool) (cfg : Config) (w : World) (fac : Option Facility)
    → IsQuiet w (dial_syslog opens cfg w fac)
dial_syslog-IsQuiet opens cfg w none = tt
dial_syslog-IsQuiet opens cfg w (some fac) =
    if-IsQuiet (opens cfg) (syslog_sink cfg fac) w (codes "logging: syslog")

pub open_target-IsQuiet :
    (has_syslog : Bool) (opens : Config → Bool) (cfg : Config) (w : World) (t : Target)
    → IsQuiet w (open_target has_syslog opens cfg w t)
unfolding open_target
open_target-IsQuiet has_syslog opens cfg w no_target = refl
open_target-IsQuiet has_syslog opens cfg w stderr_target = refl
open_target-IsQuiet has_syslog opens cfg w stdout_target = refl
open_target-IsQuiet has_syslog opens cfg w file_target =
    if-IsQuiet (opens cfg) (file_sink cfg (options_of cfg)) w (codes "logging: open log file")
open_target-IsQuiet true opens cfg w syslog_target =
    dial_syslog-IsQuiet opens cfg w (syslog_facility cfg.syslog.facility)
open_target-IsQuiet false opens cfg w syslog_target = tt
open_target-IsQuiet has_syslog opens cfg w unknown_target = tt

-- The first sink takes what the buffer holds.
rebase-lines :
    (level : Level) (sink : Sink) (hub : Hub bases) (w : World)
    → (rebase false true level sink hub w).1.lines
      ≡ w.lines ++ lines_of w.denied sink (at_least level w.buffer.recs)
unfolding rebase set_base_flushing Buffer.drain
rebase-lines level sink hub w =
    replay-lines sink level w.buffer.recs (record w { buffer = (Buffer.drain w.buffer).1 })

close_old-lines : (old : Option (Option ℕ)) (w : World) → (close_old old w).lines ≡ w.lines
close_old-lines none w = refl
close_old-lines (some none) w = refl
close_old-lines (some (some m)) w = refl

apply_base-lines :
    (level : Level) (key : Bytes) (ks : Service) (hub : Hub bases) (sink : Sink) (closer : Option ℕ)
    (w : World)
    → ks.log_applied ≡ false
    → ks.log_buffer ≡ true
    → (apply_base level key ks hub sink closer w).1.lines
      ≡ w.lines ++ lines_of w.denied sink (at_least level w.buffer.recs)
unfolding apply_base
apply_base-lines level key ks hub sink closer w fresh buffered_still =
    close_old-lines ks.log_closer _
    ∙ ap₂ (λ a b. (rebase a b level sink hub w).1.lines) fresh buffered_still
    ∙ rebase-lines level sink hub w

first_configure-lines :
    (env : Env) (s : LogSettings) (hub : Hub bases) (ks : Service) (w w2 : World) (sink : Sink)
    (closer : Option ℕ)
    → ks.log_applied ≡ false
    → ks.log_buffer ≡ true
    → base_handler env.has_syslog env.opens (resolve_log_config env ks.name s).0 w
      ≡ opened sink closer w2
    → (configure_on env s (some hub) ks w).1.lines
      ≡ w.lines ++ lines_of w.denied sink (at_least s.level w.buffer.recs)
unfolding resolve_log_config base_handler
first_configure-lines env s hub ks w w2 sink closer fresh buffered_still opens =
    let (cfg, key) = resolve_log_config env ks.name s in
    let quiet : text_of w2 ≡ text_of w =
      subst (IsQuiet w) opens
        (open_target-IsQuiet env.has_syslog env.opens cfg w (target_of cfg.target)) in
    let applied = apply_opened env cfg key ks hub (base_handler env.has_syslog env.opens cfg w) w in
    ap (λ b. (if b && bytes_eq key ks.log_key then (ks, w) else applied).1.lines) fresh
    ∙ ap (λ o. (apply_opened env cfg key ks hub o w).1.lines) opens
    ∙ apply_base-lines s.level key ks hub sink closer w2 fresh buffered_still
    ∙ ap (λ t. t.0 ++ lines_of t.1 sink (at_least s.level t.2.recs)) quiet

-- A service installs its logging and logs, and a first configuration follows whose destination
-- opens. Then this configuration writes what the new sink makes of each record of the bootstrap
-- buffer that is at or above the configured level, in their order: the buffer held the last 2048 of
-- what was logged at TRACE or above.
pub configure_logging-lines :
    (env : Env) (s : LogSettings) (rs : List Record) (ks : Service) (w w2 : World) (sink : Sink)
    (closer : Option ℕ)
    → ks.logs ≡ none
    → ks.log_applied ≡ false
    → let cfg = (resolve_log_config env ks.name s).0 in
      let before = run (installs ∷ map logs rs) (ks, w) in
      base_handler env.has_syslog env.opens cfg before.1 ≡ opened sink closer w2
      → (step (configures env s) before).1.lines
        ≡ before.1.lines
          ++ lines_of before.1.denied sink (at_least s.level (last 2048 (at_least level_trace rs)))
unfolding step install_logging configure_logging new_buffer_handler Buffer.drain
configure_logging-lines env s rs ks w w2 sink closer no_logs fresh =
    let ks0 = (install_on none ks w).0 in
    let w0 = (install_on none ks w).1 in
    let logged = logs_all-buffer rs ks0 w0 refl in
    let w1 = (run (map logs rs) (ks0, w0)).1 in
    let before : run (installs ∷ map logs rs) (ks, w) ≡ (ks0, w1) =
      ap (λ o. run (map logs rs) (install_on o ks w)) no_logs ∙ ap (λ k. (k, w1)) logged.0 in
    let kept : w1.buffer.recs ≡ last 2048 (at_least level_trace rs) =
      ap (λ b. b.recs) logged.1
      ∙ (handle_all-Holds 2048 (at_least level_trace rs) [] _ (new-Holds (pos 2048))).contents in
    subst
      (λ p.
        base_handler env.has_syslog env.opens (resolve_log_config env ks.name s).0 p.1
          ≡ opened sink closer w2
        → (step (configures env s) p).1.lines
          ≡ p.1.lines
            ++ lines_of p.1.denied sink (at_least s.level (last 2048 (at_least level_trace rs))))
      (sym before)
      (λ opens.
        first_configure-lines env s boot_hub ks0 w1 w2 sink closer fresh refl opens
        ∙ ap (λ rs'. w1.lines ++ lines_of w1.denied sink (at_least s.level rs')) kept)
