-- ===== src/Logging/Destination.antt =====
-- kettlingar/logging/logging.go, syslog_unix.go and syslog_other.go: redaction, and the handler that
-- a configuration asks for. `slog` formats a record by passing each of its attributes through
-- replaceAttr; a line is kept here as what is formatted, with those attributes replaced. Writing to
-- an open destination succeeds.
pub mod Redaction
use kettlingar_go.Prelude.{
  ℕ, ◌+◌, Bool, true, false, ◌||◌, ◌==◌, List, [], ◌∷◌, ◌++◌, if◌then◌else◌, not, Bytes, bytes_eq,
  codes, Option, none, some, map, leb_ℤ, negsuc,
}
use kettlingar_go.Slog.{
  Level, level_info, level_warn, level_error, Value, level_value, text_value, group_value, Members,
  only, also, Attr, Record, Handlers,
}
use kettlingar_go.Text.Search.{trim_right}
use kettlingar_go.Logtee.Levels.{level_string, normalized}
use kettlingar_go.Logtee.Fanout.{BaseOp, op_attrs, op_group}
use kettlingar_go.Logging.Buffer
use kettlingar_go.Logging.Buffer.{BufferHandler}
use kettlingar_go.Logging.Rotate.{FileConfig}

-- The denylist `secretKeys`, a package variable.
abbrev pub secret_keys : List Bytes
secret_keys = codes "secret" ∷ codes "password" ∷ codes "authorization" ∷ []

unfoldable pub register_secret_key : List Bytes → List Bytes → List Bytes
register_secret_key keys denied = denied ++ keys

unfoldable pub redact : List Bytes → Bytes → Bool
redact [] key = false
redact (k ∷ denied) key = bytes_eq k key || redact denied key

unfoldable pub replace_level : Attr → Attr
replace_level a = elim a.value [
  | level_value l ↦ record a { value = text_value (level_string l) }
  | text_value t ↦ a
  | group_value ms ↦ a
]

unfoldable pub replace_attr : List Bytes → Attr → Attr
unfolding redact replace_level
replace_attr denied a =
    if bytes_eq a.key (codes "level")
    then replace_level a
    else if redact denied a.key
    then record a { value = text_value (codes "[redacted]") }
    else a

-- A handler of slog passes an attribute through ReplaceAttr, but of a group each member.
unfoldable mutual
  unfolding replace_attr

  pub shown_value : List Bytes → Bytes → Value → Value
  shown_value denied key (level_value l) =
      (replace_attr denied (record { key = key; value = level_value l })).value
  shown_value denied key (text_value t) =
      (replace_attr denied (record { key = key; value = text_value t })).value
  shown_value denied key (group_value ms) = group_value (shown_members denied ms)

  pub shown_members : List Bytes → Members → Members
  shown_members denied (only key v) = only key (shown_value denied key v)
  shown_members denied (also key v ms) =
      also key (shown_value denied key v) (shown_members denied ms)

unfoldable pub shown_attr : List Bytes → Attr → Attr
unfolding shown_value
shown_attr denied a = record a { value = shown_value denied a.key a.value }

-- What a record or a handler's own attributes become on their way to a line.
abbrev pub replace_op : List Bytes → BaseOp → BaseOp
replace_op denied (op_attrs attrs) = op_attrs (map (shown_attr denied) attrs)
replace_op denied (op_group name) = op_group name

abbrev pub replace_record : List Bytes → Record → Record
replace_record denied r = record r { attrs = map (shown_attr denied) r.attrs }

pub record SyslogConfig : Type 0 where
  pub addr : Bytes
  pub facility : Bytes
  pub tag : Bytes

-- `path` is File.Path.
pub record Config : Type 0 where
  pub target : Bytes
  pub format : Bytes
  pub level : Level
  pub source : Bool
  pub path : Bytes
  pub file : FileConfig
  pub syslog : SyslogConfig

pub data Facility : Type 0 where
  log_daemon log_user : Facility
  log_local : ℕ → Facility

unfoldable pub syslog_facility : Bytes → Option Facility
unfolding normalized
syslog_facility name =
    let n = normalized name in
    if bytes_eq n [] || bytes_eq n (codes "daemon")
    then some log_daemon
    else if bytes_eq n (codes "user")
    then some log_user
    else if bytes_eq n (codes "local0")
    then some (log_local 0)
    else if bytes_eq n (codes "local1")
    then some (log_local 1)
    else if bytes_eq n (codes "local2")
    then some (log_local 2)
    else if bytes_eq n (codes "local3")
    then some (log_local 3)
    else if bytes_eq n (codes "local4")
    then some (log_local 4)
    else if bytes_eq n (codes "local5")
    then some (log_local 5)
    else if bytes_eq n (codes "local6")
    then some (log_local 6)
    else if bytes_eq n (codes "local7")
    then some (log_local 7)
    else none

pub data Severity : Type 0 where
  err warning info debug : Severity

-- The switch of syslogHandler.Handle.
unfoldable pub severity : Level → Severity
severity l =
    if leb_ℤ level_error l
    then err
    else if leb_ℤ level_warn l
    then warning
    else if leb_ℤ level_info l
    then info
    else debug

-- Where a line goes. A file or a connection is known by the number of its opening.
pub data Writer : Type 0 where
  to_stderr to_stdout : Writer
  to_file : ℕ → Writer
  to_syslog : ℕ → Severity → Writer

pub record Line : Type 0 where
  pub writer : Writer
  pub json : Bool
  pub source : Bool
  pub ops : List BaseOp
  pub shown : Record

-- slog.HandlerOptions; `replaces` says that ReplaceAttr is replaceAttr and not nil.
pub record HandlerOptions : Type 0 where
  pub level : Level
  pub source : Bool
  pub replaces : Bool

pub data Sink : Type 0 where
  buffered : Sink
  formatted : Writer → Bool → HandlerOptions → List BaseOp → Sink
  syslogged : ℕ → Facility → Bytes → Bool → List BaseOp → Sink
  discard : Sink

-- The bootstrap buffer, the lines written, and which of the files and connections opened so far
-- are still open.
pub record World : Type 0 where
  pub denied : List Bytes
  pub buffer : BufferHandler
  pub lines : List Line
  pub opened : ℕ
  pub live : List ℕ

abbrev pub write_line : Line → World → World
write_line line w = record w { lines = w.lines ++ line ∷ [] }

abbrev pub shown_line : Bool → List Bytes → Line → Line
shown_line replaces denied line =
    if replaces
    then record line {
      ops = map (replace_op denied) line.ops;
      shown = replace_record denied line.shown;
    }
    else line

-- levelAll
abbrev pub level_all : Level
level_all = negsuc 127

abbrev pub formatted_line : Writer → Bool → Bool → List BaseOp → Record → Line
formatted_line out json source ops r = record {
  writer = out;
  json = json;
  source = source;
  ops = ops;
  shown = r;
}

unfoldable pub sink_enabled : Sink → Level → Bool
sink_enabled buffered l = true
sink_enabled (formatted out json opts ops) l = leb_ℤ opts.level l
sink_enabled (syslogged conn fac tag json ops) l = true
sink_enabled discard l = false

unfoldable pub sink_handle : Sink → Record → World → Option Bytes × World
unfolding severity Buffer.handle
sink_handle buffered r w = (none, record w { buffer = Buffer.handle w.buffer r })
sink_handle (formatted out json opts ops) r w = (
  none,
  write_line (shown_line opts.replaces w.denied (formatted_line out json opts.source ops r)) w,
)
sink_handle (syslogged conn fac tag json ops) r w = (
  none,
  write_line
      (shown_line true w.denied
        (formatted_line (to_syslog conn (severity r.level)) json false ops r))
      w,
)
sink_handle discard r w = (none, w)

unfoldable pub sink_op : BaseOp → Sink → Sink
sink_op op (formatted out json opts ops) = formatted out json opts (ops ++ op ∷ [])
sink_op op (syslogged conn fac tag json ops) = syslogged conn fac tag json (ops ++ op ∷ [])
sink_op op buffered = buffered
sink_op op discard = discard

abbrev pub sinks : Handlers
sinks = record {
  Handler = Sink;
  World = World;
  enabled = sink_enabled;
  handle = sink_handle;
  with_attrs = λ s attrs. sink_op (op_attrs attrs) s;
  with_group = λ s name. sink_op (op_group name) s;
}
