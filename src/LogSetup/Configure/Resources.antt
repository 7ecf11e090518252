-- ===== src/LogSetup/Configure/Resources.antt =====
-- What opens and closes files and connections: only BaseHandler and the Closers.
use kettlingar_go.Prelude.{
  ℕ, ◌≤◌, ◌<◌, ◌≡◌, refl, ◌∙◌, arith, All, Bool-cases, inl, inr, Bool, true, false, List, [], ◌∷◌,
  ◌++◌, if◌then◌else◌, Bytes, codes, Option, none, some, leb_ℤ,
}
use kettlingar_go.Slog.{Level, Record}
use kettlingar_go.Logtee.Fanout
use kettlingar_go.Logtee.Fanout.{
  Hub, BaseOp, op_attrs, op_group, replay, new_handler, set_base, set_base_flushing, set_level,
}
use kettlingar_go.Logging.Tee
use kettlingar_go.Logging.Destination.{
  World, Sink, buffered, formatted, syslogged, discard, to_file, to_syslog, sinks, sink_enabled,
  sink_handle, Config, Facility, syslog_facility,
}
use kettlingar_go.Logging.Choice.{
  Opened, opened, refused, base_handler, acquire, dial_syslog, syslog_sink, file_sink, options_of,
  open_target, target_of, Target, no_target, stderr_target, stdout_target, file_target,
  syslog_target, unknown_target,
}
use kettlingar_go.LogSetup.Configure.{Base, teed, single, bases, base_handle, log, logger}

abbrev pub closer_ids : Option (Option ℕ) → List ℕ
closer_ids none = []
closer_ids (some none) = []
closer_ids (some (some n)) = n ∷ []

-- The file or connection that a sink writes to.
abbrev pub sink_ids : Sink → List ℕ
sink_ids (formatted (to_file n) json opts ops) = n ∷ []
sink_ids (formatted (to_syslog n sev) json opts ops) = n ∷ []
sink_ids (syslogged n fac tag json ops) = n ∷ []
sink_ids _ = []

abbrev pub all_ids : List Sink → List ℕ
all_ids [] = []
all_ids (s ∷ t) = sink_ids s ++ all_ids t

abbrev pub base_ids : Base → List ℕ
base_ids (teed t) = all_ids t
base_ids (single s) = sink_ids s

-- No handling of a record opens or closes anything.
abbrev pub resources : World → List ℕ × ℕ
resources w = (w.live, w.opened)

pub sink_handle-resources :
    (s : Sink) (r : Record) (w : World) → resources (sink_handle s r w).1 ≡ resources w
unfolding sink_handle
sink_handle-resources buffered r w = refl
sink_handle-resources (formatted out json opts ops) r w = refl
sink_handle-resources (syslogged n fac tag json ops) r w = refl
sink_handle-resources discard r w = refl

pub if-resources :
    (b : Bool) (v w : World)
    → resources v ≡ resources w
    → resources (if b then v else w) ≡ resources w
if-resources true v w h = h
if-resources false v w h = refl

pub tee-resources :
    (t : List Sink) (r : Record) (w : World) → resources (Tee.handle sinks t r w).1 ≡ resources w
unfolding Tee.handle
tee-resources [] r w = refl
tee-resources (s ∷ t) r w =
    tee-resources t r (if sink_enabled s r.level then (sink_handle s r w).1 else w)
    ∙ if-resources (sink_enabled s r.level) (sink_handle s r w).1 w (sink_handle-resources s r w)

pub base_handle-resources :
    (b : Base) (r : Record) (w : World) → resources (base_handle b r w).1 ≡ resources w
base_handle-resources (teed t) r w = tee-resources t r w
base_handle-resources (single s) r w = sink_handle-resources s r w

pub replay-resources :
    (b : Base) (least : Level) (rs : List Record) (w : World)
    → resources (replay bases b least rs w) ≡ resources w
unfolding replay
replay-resources b least [] w = refl
replay-resources b least (r ∷ rs) w =
    replay-resources b least rs (if leb_ℤ least r.level then (base_handle b r w).1 else w)
    ∙ if-resources (leb_ℤ least r.level) (base_handle b r w).1 w (base_handle-resources b r w)

-- What BaseHandler does to the world.
abbrev pub Acquires : World → Opened → Type 0
Acquires w (refused text) = Unit {0}
Acquires w (opened s closer w') =
    (sink_ids s ≡ closer_ids (some closer))
    × (w'.live ≡ closer_ids (some closer) ++ w.live)
    × (w.opened ≤ w'.opened)
    × All (λ n. (w.opened ≤ n) × (n < w'.opened)) (closer_ids (some closer))

pub acquire-Acquires :
    (sink : ℕ → Sink) (w : World)
    → ((n : ℕ) → sink_ids (sink n) ≡ n ∷ [])
    → Acquires w (acquire sink w)
acquire-Acquires sink w h = (h w.opened, refl, omega arith, omega arith)

-- An acquisition that may be refused.
pub if-Acquires :
    (b : Bool) (sink : ℕ → Sink) (w : World) (text : Bytes)
    → ((n : ℕ) → sink_ids (sink n) ≡ n ∷ [])
    → Acquires w (if b then acquire sink w else refused text)
if-Acquires true sink w text h = acquire-Acquires sink w h
if-Acquires false sink w text h = tt

pub dial_syslog-Acquires :
    (opens : Config → Bool) (cfg : Config) (w : World) (fac : Option Facility)
    → Acquires w (dial_syslog opens cfg w fac)
dial_syslog-Acquires opens cfg w none = tt
dial_syslog-Acquires opens cfg w (some fac) =
    if-Acquires (opens cfg) (syslog_sink cfg fac) w (codes "logging: syslog") (λ n. refl)

pub open_target-Acquires :
    (has_syslog : Bool) (opens : Config → Bool) (cfg : Config) (w : World) (t : Target)
    → Acquires w (open_target has_syslog opens cfg w t)
unfolding open_target
open_target-Acquires has_syslog opens cfg w no_target = (refl, refl, omega arith, tt)
open_target-Acquires has_syslog opens cfg w stderr_target = (refl, refl, omega arith, tt)
open_target-Acquires has_syslog opens cfg w stdout_target = (refl, refl, omega arith, tt)
open_target-Acquires has_syslog opens cfg w file_target =
    if-Acquires (opens cfg) (file_sink cfg (options_of cfg)) w (codes "logging: open log file")
      (λ n. refl)
open_target-Acquires true opens cfg w syslog_target =
    dial_syslog-Acquires opens cfg w (syslog_facility cfg.syslog.facility)
open_target-Acquires false opens cfg w syslog_target = tt
open_target-Acquires has_syslog opens cfg w unknown_target = tt

pub base_handler-Acquires :
    (has_syslog : Bool) (opens : Config → Bool) (cfg : Config) (w : World)
    → Acquires w (base_handler has_syslog opens cfg w)
unfolding base_handler
base_handler-Acquires has_syslog opens cfg w =
    open_target-Acquires has_syslog opens cfg w (target_of cfg.target)

pub log-resources :
    (name : Bytes) (r : Record) (hub : Hub bases) (w : World)
    → (resources (log name r hub w).1 ≡ resources w) × ((log name r hub w).0.base ≡ hub.base)
unfolding log Fanout.handle
log-resources name r hub w =
    let written = base_handle-resources (Fanout.base_view bases (logger name) hub) r w in
    elim (Bool-cases (Fanout.enabled bases hub r.level)) [
      | inl e ↦ elim (Bool-cases (leb_ℤ hub.level r.level)) [
        | inl e' ↦ rw (log, e, Fanout.handle, e') (written, refl)
        | inr e' ↦ rw (log, e, Fanout.handle, e') (refl, refl)
      ]
      | inr e ↦ rw (log, e) (refl, refl)
    ]
