-- ===== src/Logtee/Format.antt =====
-- Format of kettlingar/logtee/logtee.go. `any_text` is %v of what an attribute holds, and the time is the
-- text of a record's time, none for a zero one.
use kettlingar_go.Prelude.{
  ◌≡◌, ◌≢◌, refl, arith, All, All-append, Bool, true, false, List, [], ◌∷◌, ◌++◌, if◌then◌else◌,
  Bytes, codes, Option, none, some, ltb_ℤ,
}
use kettlingar_go.Slog.{
  Level, Value, Attr, Record, level_debug, level_info, level_warn, level_error, text_value,
}
use kettlingar_go.Text.Search.{Lacks}
use kettlingar_go.Logtee.Levels.{level_string}

module _ (any_text : Value → Bytes) where
  unfoldable pub shown_attrs : List Attr → Bytes
  shown_attrs [] = []
  shown_attrs (a ∷ attrs) =
      codes " " ++ (a.key ++ (codes "=" ++ (any_text a.value ++ shown_attrs attrs)))

  abbrev pub time_prefix : Option Bytes → Bytes
  time_prefix none = []
  time_prefix (some t) = t ++ codes " "

  unfoldable pub format_line : Option Bytes → Record → Bytes
  unfolding shown_attrs level_string
  format_line time r =
      time_prefix time
      ++ (level_string r.level ++ (codes " " ++ (r.message ++ shown_attrs r.attrs)))

  if-Lacks :
      (b : Bool) (s t : Bytes) → Lacks b'\n' s → Lacks b'\n' t → Lacks b'\n' (if b then s else t)
  if-Lacks true s t h g = h
  if-Lacks false s t h g = g

  level_string-Lacks : (l : Level) → Lacks b'\n' (level_string l)
  unfolding level_string
  level_string-Lacks l =
      let high = if ltb_ℤ l level_error then codes "WARN" else codes "ERROR" in
      let middle = if ltb_ℤ l level_warn then codes "INFO" else high in
      let low = if ltb_ℤ l level_info then codes "DEBUG" else middle in
      if-Lacks (ltb_ℤ l level_debug) (codes "TRACE") low (ground arith) (
        if-Lacks (ltb_ℤ l level_info) (codes "DEBUG") middle (ground arith) (
          if-Lacks (ltb_ℤ l level_warn) (codes "INFO") high (ground arith) (
            if-Lacks (ltb_ℤ l level_error) (codes "WARN") (codes "ERROR") (ground arith)
              (ground arith))))

  shown_attrs-Lacks :
      (attrs : List Attr)
      → All (λ a. Lacks b'\n' a.key × Lacks b'\n' (any_text a.value)) attrs
      → Lacks b'\n' (shown_attrs attrs)
  unfolding shown_attrs
  shown_attrs-Lacks [] h = tt
  shown_attrs-Lacks (a ∷ attrs) h = (
    ground arith,
    All-append (λ c. c ≢ b'\n') a.key _ h.0.0
        (
          ground arith,
          All-append (λ c. c ≢ b'\n') (any_text a.value) _ h.0.1 (shown_attrs-Lacks attrs h.1),
        ),
  )

  -- A record whose message, keys and values are without newlines is formatted as one line.
  pub format_line-Lacks :
      (r : Record)
      → Lacks b'\n' r.message
      → All (λ a. Lacks b'\n' a.key × Lacks b'\n' (any_text a.value)) r.attrs
      → Lacks b'\n' (format_line none r)
  unfolding format_line
  format_line-Lacks r h g =
      All-append (λ c. c ≢ b'\n') (level_string r.level) _ (level_string-Lacks r.level)
        (ground arith, All-append (λ c. c ≢ b'\n') r.message _ h (shown_attrs-Lacks r.attrs g))

-- A newline in a message is not escaped.
two_lines :
    format_line
      (λ v. codes "x")
      (some (codes "12:00:00.000"))
      (record {
        level = level_info;
        message = codes "a\nb";
        attrs = record { key = codes "k"; value = text_value [] } ∷ [];
      })
    ≡ codes "12:00:00.000 INFO a\nb k=x"
unfolding format_line
two_lines = refl
