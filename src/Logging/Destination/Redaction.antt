-- ===== src/Logging/Destination/Redaction.antt =====
-- What replaceAttr hides.
use kettlingar_go.Prelude.{
  ◌≡◌, refl, ap, ◌∙◌, append_assoc, ◌++◌, arith, All, All-append, Bool, true, false, List, [], ◌∷◌,
  map, Bytes, bytes_eq, codes,
}
use kettlingar_go.Slog.{
  Value, level_value, text_value, group_value, Members, only, also, Attr, Record,
}
use kettlingar_go.Logtee.Fanout.{BaseOp, op_attrs, op_group}
use kettlingar_go.Logging.Destination.{
  redact, replace_level, replace_attr, shown_value, shown_members, shown_attr, replace_op, Line,
  shown_line, formatted_line, World, Sink, buffered, formatted, syslogged, discard, sink_handle,
  sink_op, severity, to_syslog,
}

-- A secret key, other than that of the level, has no value but the mark; of a group this holds for
-- the members.
abbrev pub HidesKey : List Bytes → Bytes → Value → Type 0
HidesKey denied key v =
    redact denied key ≡ true
    → bytes_eq key (codes "level") ≡ false
    → v ≡ text_value (codes "[redacted]")

unfoldable mutual
  pub HidesValue : List Bytes → Bytes → Value → Type 0
  HidesValue denied key (level_value l) = HidesKey denied key (level_value l)
  HidesValue denied key (text_value t) = HidesKey denied key (text_value t)
  HidesValue denied key (group_value ms) = HidesMembers denied ms

  pub HidesMembers : List Bytes → Members → Type 0
  HidesMembers denied (only key v) = HidesValue denied key v
  HidesMembers denied (also key v ms) = HidesValue denied key v × HidesMembers denied ms

abbrev pub HidesAttr : List Bytes → Attr → Type 0
HidesAttr denied a = HidesValue denied a.key a.value

abbrev pub HidesOp : List Bytes → BaseOp → Type 0
HidesOp denied (op_attrs attrs) = All (HidesAttr denied) attrs
HidesOp denied (op_group name) = Unit

abbrev pub HidesLine : List Bytes → Line → Type 0
HidesLine denied line = All (HidesAttr denied) line.shown.attrs × All (HidesOp denied) line.ops

-- The lines are the `old` ones and then some that show no secret.
abbrev pub Hides : List Line → World → Type 0
Hides old w = (new : List Line) × (w.lines ≡ old ++ new) × All (HidesLine w.denied) new

abbrev is_group : Value → Bool
is_group (group_value ms) = true
is_group _ = false

replace_attr-HidesKey :
    (denied : List Bytes) (a : Attr) → HidesKey denied a.key (replace_attr denied a).value
unfolding replace_attr replace_level
replace_attr-HidesKey denied a secret other = ground arith

replace_attr-is_group :
    (denied : List Bytes) (a : Attr)
    → is_group a.value ≡ false
    → is_group (replace_attr denied a).value ≡ false
unfolding replace_attr replace_level
replace_attr-is_group denied a leaf = ground (arith, leaf)

HidesKey-HidesValue :
    (denied : List Bytes) (key : Bytes) (v : Value)
    → is_group v ≡ false
    → HidesKey denied key v
    → HidesValue denied key v
unfolding HidesValue
HidesKey-HidesValue denied key (level_value l) leaf h = h
HidesKey-HidesValue denied key (text_value t) leaf h = h
HidesKey-HidesValue denied key (group_value ms) leaf h = cc (leaf)

replace_attr-HidesValue :
    (denied : List Bytes) (a : Attr)
    → is_group a.value ≡ false
    → HidesValue denied a.key (replace_attr denied a).value
replace_attr-HidesValue denied a leaf =
    HidesKey-HidesValue denied a.key (replace_attr denied a).value
      (replace_attr-is_group denied a leaf) (replace_attr-HidesKey denied a)

mutual
  unfolding HidesValue shown_value

  shown_value-HidesValue :
      (denied : List Bytes) (key : Bytes) (v : Value)
      → HidesValue denied key (shown_value denied key v)
  shown_value-HidesValue denied key (level_value l) =
      replace_attr-HidesValue denied (record { key = key; value = level_value l }) refl
  shown_value-HidesValue denied key (text_value t) =
      replace_attr-HidesValue denied (record { key = key; value = text_value t }) refl
  shown_value-HidesValue denied key (group_value ms) = shown_members-HidesMembers denied ms

  shown_members-HidesMembers :
      (denied : List Bytes) (ms : Members) → HidesMembers denied (shown_members denied ms)
  shown_members-HidesMembers denied (only key v) = shown_value-HidesValue denied key v
  shown_members-HidesMembers denied (also key v ms) =
      (shown_value-HidesValue denied key v, shown_members-HidesMembers denied ms)

map-HidesAttr :
    (denied : List Bytes) (attrs : List Attr)
    → All (HidesAttr denied) (map (shown_attr denied) attrs)
unfolding shown_attr
map-HidesAttr denied [] = tt
map-HidesAttr denied (a ∷ attrs) =
    (shown_value-HidesValue denied a.key a.value, map-HidesAttr denied attrs)

map-HidesOp :
    (denied : List Bytes) (ops : List BaseOp) → All (HidesOp denied) (map (replace_op denied) ops)
map-HidesOp denied [] = tt
map-HidesOp denied (op_attrs attrs ∷ ops) = (map-HidesAttr denied attrs, map-HidesOp denied ops)
map-HidesOp denied (op_group name ∷ ops) = (tt, map-HidesOp denied ops)

-- A sink whose handler has the ReplaceAttr of the package.
abbrev pub Replaces : Sink → Type 0
Replaces (formatted out json opts ops) = opts.replaces ≡ true
Replaces _ = Unit {0}

shown_line-Hides :
    (denied : List Bytes) (replaces : Bool) (line : Line)
    → replaces ≡ true
    → HidesLine denied (shown_line replaces denied line)
shown_line-Hides denied true line e =
    (map-HidesAttr denied line.shown.attrs, map-HidesOp denied line.ops)
shown_line-Hides denied false line e = cc (e)

one_more-Hides :
    (old : List Line) (line : Line) (w : World)
    → HidesLine w.denied line
    → Hides old w
    → Hides old (record w { lines = w.lines ++ line ∷ [] })
one_more-Hides old line w h (new, same, k) = (
  new ++ line ∷ [],
  ap (λ ls. ls ++ line ∷ []) same ∙ append_assoc old new (line ∷ []),
  All-append (HidesLine w.denied) new (line ∷ []) k (h, tt),
)

pub sink_handle-Hides :
    (old : List Line) (s : Sink) (r : Record) (w : World)
    → Replaces s
    → Hides old w
    → Hides old (sink_handle s r w).1
unfolding sink_handle
sink_handle-Hides old buffered r w h k = k
sink_handle-Hides old (formatted out json opts ops) r w h k =
    one_more-Hides old _ w
      (shown_line-Hides w.denied opts.replaces (formatted_line out json opts.source ops r) h) k
sink_handle-Hides old (syslogged conn fac tag json ops) r w h k =
    one_more-Hides old _ w
      (shown_line-Hides w.denied true
        (formatted_line (to_syslog conn (severity r.level)) json false ops r) refl)
      k
sink_handle-Hides old discard r w h k = k

pub sink_op-Replaces : (op : BaseOp) (s : Sink) → Replaces s → Replaces (sink_op op s)
unfolding sink_op
sink_op-Replaces op buffered h = tt
sink_op-Replaces op (formatted out json opts ops) h = h
sink_op-Replaces op (syslogged conn fac tag json ops) h = tt
sink_op-Replaces op discard h = tt
