-- ===== src/LogSetup/Steps/Written.antt =====
-- The lines that a service's logger writes once its logging is configured.
use kettlingar_go.Prelude.{
  ◌≡◌, refl, subst, sym, ap, ap₂, ◌∙◌, arith, Bool-cases, inl, inr, true, List, [], ◌∷◌, ◌++◌,
  append_assoc, append-nil, if◌then◌else◌, Bytes, codes, some, leb_ℤ, map,
}
use kettlingar_go.Slog.{Level, Attr, Record, text_value}
use kettlingar_go.Logtee.Fanout
use kettlingar_go.Logtee.Fanout.{Hub, op_attrs}
use kettlingar_go.Logging.Destination.{World, Line, Sink, sink_op}
use kettlingar_go.LogSetup.Configure.{single, bases, Service, log, logger}
use kettlingar_go.LogSetup.Steps.{logs, log_on, step, run}
use kettlingar_go.LogSetup.Steps.Flush.{at_least, line_of, lines_of, sink_handle-lines}

-- The sink behind the service's logger, which adds the attribute "service".
abbrev pub tagged : Bytes → Sink → Sink
tagged name = sink_op (op_attrs (record { key = codes "service"; value = text_value name } ∷ []))

abbrev lines_at : Level → List Bytes → Sink → Record → List Line
lines_at least denied s r = if leb_ℤ least r.level then line_of denied s r else []

-- A hub with one sink at a level.
abbrev pub IsSingle : Level → Sink → Hub bases → Type 0
IsSingle least s hub = (hub.level ≡ least) × (hub.base ≡ single s)

enabled_above :
    (hub : Hub bases) (l : Level) → leb_ℤ hub.level l ≡ true → Fanout.enabled bases hub l ≡ true
unfolding Fanout.enabled
enabled_above hub l e = ground (arith, e)

-- What the logger writes through the base.
base-lines :
    (name : Bytes) (r : Record) (s : Sink) (hub : Hub bases) (w : World)
    → hub.base ≡ single s
    → let w' = (bases.handle (Fanout.base_view bases (logger name) hub) r w).1 in
      (w'.lines ≡ w.lines ++ line_of w.denied (tagged name s) r) × (w'.denied ≡ w.denied)
unfolding Fanout.base_view logger Fanout.with_attrs
base-lines name r s hub w e =
    let service : List Attr = record { key = codes "service"; value = text_value name } ∷ [] in
    subst
      (λ b.
        let w' = (bases.handle (bases.with_attrs b service) r w).1 in
        (w'.lines ≡ w.lines ++ line_of w.denied (tagged name s) r) × (w'.denied ≡ w.denied))
      (sym e) (sink_handle-lines (tagged name s) r w)

log-lines :
    (name : Bytes) (r : Record) (least : Level) (s : Sink) (hub : Hub bases) (w : World)
    → IsSingle least s hub
    → IsSingle least s (log name r hub w).0
      × ((log name r hub w).1.lines ≡ w.lines ++ lines_at least w.denied (tagged name s) r)
      × ((log name r hub w).1.denied ≡ w.denied)
unfolding log Fanout.handle
log-lines name r least s hub w one =
    let lines = λ (l : Level). w.lines ++ lines_at l w.denied (tagged name s) r in
    elim (Bool-cases (leb_ℤ hub.level r.level)) [
      | inl e ↦
          let wrote = base-lines name r s hub w one.1 in
          rw (log, enabled_above hub r.level e, Fanout.handle, e)
            (
              one,
              wrote.0
                  ∙ sym (
                      ap (λ b. w.lines ++ (if b then line_of w.denied (tagged name s) r else [])) e)
                  ∙ ap lines one.0,
              wrote.1,
            )
      | inr e ↦
          let kept : w.lines ≡ lines least =
            sym (append-nil w.lines)
            ∙ sym (ap (λ b. w.lines ++ (if b then line_of w.denied (tagged name s) r else [])) e)
            ∙ ap lines one.0 in
          elim (Bool-cases (Fanout.enabled bases hub r.level)) [
            | inl on ↦ rw (log, on, Fanout.handle, e) (one, kept, refl)
            | inr off ↦ rw (log, off) (one, kept, refl)
          ]
    ]

lines_at-lines_of :
    (least : Level) (denied : List Bytes) (s : Sink) (r : Record) (rs : List Record)
    → lines_at least denied s r ++ lines_of denied s (at_least least rs)
      ≡ lines_of denied s (at_least least (r ∷ rs))
lines_at-lines_of least denied s r rs = elim (Bool-cases (leb_ℤ least r.level)) [
  | inl e ↦ rw e refl
  | inr e ↦ rw e refl
]

pub logs_all-lines :
    (rs : List Record) (least : Level) (s : Sink) (hub : Hub bases) (ks : Service) (w : World)
    → ks.logs ≡ some hub
    → IsSingle least s hub
    → (run (map logs rs) (ks, w)).1.lines
      ≡ w.lines ++ lines_of w.denied (tagged ks.name s) (at_least least rs)
unfolding step
logs_all-lines [] least s hub ks w e one = sym (append-nil w.lines)
logs_all-lines (r ∷ rs) least s hub ks w e one =
    let (hub1, w1) = log ks.name r hub w in
    let h = log-lines ks.name r least s hub w one in
    let out = tagged ks.name s in
    ap (λ o. (run (map logs rs) (log_on r o ks w)).1.lines) e
    ∙ logs_all-lines rs least s hub1 (record ks { logs = some hub1 }) w1 refl h.0
    ∙ ap₂ (λ before denied. before ++ lines_of denied out (at_least least rs)) h.1 h.2
    ∙ append_assoc w.lines (lines_at least w.denied out r)
        (lines_of w.denied out (at_least least rs))
    ∙ ap (λ l. w.lines ++ l) (lines_at-lines_of least w.denied out r rs)
