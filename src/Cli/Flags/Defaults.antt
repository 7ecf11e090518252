-- ===== src/Cli/Flags/Defaults.antt =====
-- What the fields of a service hold where nothing is set.
use kettlingar_go.Prelude.{◌≡◌, refl, ap, All, ◌&&◌, List, [], ◌∷◌, ◌++◌, if◌then◌else◌, Bytes}
use kettlingar_go.Text.Dashed.{Unicode}
use kettlingar_go.Cli.Flags.{
  FieldType, duration, time, addr, of_string, of_int, of_int64, of_bool, of_float32, of_float64,
  other, Library, Value, duration_value, string_value, int_value, bool_value, float_value,
  ServiceField, duration_flag, string_flag, bool_flag, int64_flag, float64_flag, ServiceFlag,
  flag_value, is_annotated, Viper, or_keep, time_from, addr_from, set_value,
}

module _ (L : Library) (U : Unicode) (V : Viper L) where
  -- Nothing is set for a flag: viper gives its default, by the accessor of the flag's type.
  abbrev pub IsUnset : ServiceFlag L → Type 0
  IsUnset f = elim f.default_value as (λ d. Type 0) [
    | duration_flag d ↦ V.get_duration f.name ≡ d
    | string_flag s ↦ V.get_string f.name ≡ s
    | bool_flag b ↦ V.get_bool f.name ≡ b
    | int64_flag i ↦ V.get_int64 f.name ≡ i
    | float64_flag x ↦ V.get_float64 f.name ≡ x
  ]

  -- A default text read as a value of a field's type; a value that is there is kept where the text
  -- is no date or address, and at a type that is not handled.
  abbrev pub read_default : FieldType → Bytes → Value L → Value L
  read_default duration def v = duration_value (L.duration_of def)
  read_default time def v = or_keep L U (time_from L U def) v
  read_default addr def v = or_keep L U (addr_from L U def) v
  read_default of_string def v = string_value def
  read_default of_int def v = int_value (L.int_of def)
  read_default of_int64 def v = int_value (L.int_of def)
  read_default of_bool def v = bool_value (L.bool_of def)
  read_default of_float32 def v = float_value (L.to_float32 (L.float_of def))
  read_default of_float64 def v = float_value (L.float_of def)
  read_default other def v = v

  abbrev pub with_default : ServiceField L → ServiceField L
  with_default f =
      if is_annotated L f && f.can_set
      then record f { value = read_default f.type f.def f.value }
      else f

  pub set_value-default :
      (name usage def : Bytes) (t : FieldType) (v : Value L)
      → IsUnset (record { name = name; usage = usage; default_value = flag_value L t def })
      → set_value L U V name t v ≡ read_default t def v
  set_value-default name usage def duration v h = ap duration_value h
  set_value-default name usage def time v h = ap (λ s. or_keep L U (time_from L U s) v) h
  set_value-default name usage def addr v h = ap (λ s. or_keep L U (addr_from L U s) v) h
  set_value-default name usage def of_string v h = ap string_value h
  set_value-default name usage def of_int v h = ap int_value h
  set_value-default name usage def of_int64 v h = ap int_value h
  set_value-default name usage def of_bool v h = ap bool_value h
  set_value-default name usage def of_float32 v h = ap (λ x. float_value (L.to_float32 x)) h
  set_value-default name usage def of_float64 v h = ap float_value h
  set_value-default name usage def other v h = refl

  pub All-prefix :
      (P : ServiceFlag L → Type 0) (xs ys : List (ServiceFlag L))
      → All P (xs ++ ys)
      → All P xs × All P ys
  All-prefix P [] ys h = (tt, h)
  All-prefix P (x ∷ xs) ys h = let k = All-prefix P xs ys h.1 in ((h.0, k.0), k.1)
