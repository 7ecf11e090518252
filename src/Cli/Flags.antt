-- ===== src/Cli/Flags.antt =====
-- registerFlag, addServiceFlags and syncServiceConfigs of kettlingar/default_main.go: the flags that the
-- tags of a service's fields make, and the fields set from them. Reflection gives the fields of a
-- service, and viper what is set for a flag.
pub mod Defaults
pub mod Registered
use kettlingar_go.Prelude.{
  ℕ, Bool, true, false, ◌&&◌, ◌||◌, not, List, [], ◌∷◌, ◌++◌, if◌then◌else◌, Bytes, bytes_eq, codes,
  Option, none, some, ℤ,
}
use kettlingar_go.Text.Dashed.{Unicode, dashed_name}

-- The type of a field. `duration`, `time` and `addr` are named types, the others kinds; `other` is any
-- kind that is not handled.
pub data FieldType : Type 0 where
  duration time addr : FieldType
  of_string of_int of_int64 of_bool of_float32 of_float64 other : FieldType

-- The values of the library's types, and its parsers. Where the program drops a parser's error, the
-- parser is what it returns beside the error.
pub record Library : Type 1 where
  pub Duration : Type 0
  pub Time : Type 0
  pub Addr : Type 0
  pub Float : Type 0
  pub Other : Type 0
  pub duration_of : Bytes → Duration
  pub int_of : Bytes → ℤ
  pub bool_of : Bytes → Bool
  pub float_of : Bytes → Float
  pub to_float32 : Float → Float
  pub parse_rfc3339 : Bytes → Option Time
  pub parse_date : Bytes → Option Time
  pub parse_addr : Bytes → Option Addr

module _ (L : Library) where
  pub data Value : Type 0 where
    duration_value : L.Duration → Value
    time_value : L.Time → Value
    addr_value : L.Addr → Value
    string_value : Bytes → Value
    int_value : ℤ → Value
    bool_value : Bool → Value
    float_value : L.Float → Value
    other_value : L.Other → Value

  pub record ServiceField : Type 0 where
    pub field_name : Bytes
    pub help : Bytes
    pub def : Bytes
    pub type : FieldType
    pub can_set : Bool
    pub value : Value

  -- A flag has the type of its default.
  pub data FlagValue : Type 0 where
    duration_flag : L.Duration → FlagValue
    string_flag : Bytes → FlagValue
    bool_flag : Bool → FlagValue
    int64_flag : ℤ → FlagValue
    float64_flag : L.Float → FlagValue

  pub record ServiceFlag : Type 0 where
    pub name : Bytes
    pub usage : Bytes
    pub default_value : FlagValue

  abbrev pub flag_value : FieldType → Bytes → FlagValue
  flag_value duration def = duration_flag (L.duration_of def)
  flag_value of_bool def = bool_flag (L.bool_of def)
  flag_value of_int def = int64_flag (L.int_of def)
  flag_value of_int64 def = int64_flag (L.int_of def)
  flag_value of_float32 def = float64_flag (L.float_of def)
  flag_value of_float64 def = float64_flag (L.float_of def)
  flag_value _ def = string_flag def

  abbrev pub usage_of : FieldType → Bytes → Bytes
  usage_of time help = help ++ codes " (Format: RFC3339 or YYYY-MM-DD)"
  usage_of _ help = help

  abbrev pub has_flag : Bytes → List ServiceFlag → Bool
  has_flag name [] = false
  has_flag name (f ∷ flags) = bytes_eq f.name name || has_flag name flags

  -- pflag panics at a name that is defined, which is none here.
  unfoldable pub register_flag :
      Bytes → Bytes → Bytes → FieldType → List ServiceFlag → Option (List ServiceFlag)
  register_flag name def help t flags =
      if has_flag name flags
      then none
      else some (
          flags
          ++ record { name = name; usage = usage_of t help; default_value = flag_value t def } ∷ [])

  abbrev pub is_annotated : ServiceField → Bool
  is_annotated f = not (bytes_eq f.help [] || bytes_eq f.def [])

  abbrev pub then_add :
      Option (List ServiceFlag)
      → (List ServiceFlag → Option (List ServiceFlag))
      → Option (List ServiceFlag)
  then_add none k = none
  then_add (some flags) k = k flags

  -- viper.GetDuration and so on, at the name of a flag.
  pub record Viper : Type 0 where
    pub get_duration : Bytes → L.Duration
    pub get_string : Bytes → Bytes
    pub get_int64 : Bytes → ℤ
    pub get_bool : Bytes → Bool
    pub get_float64 : Bytes → L.Float

  module _ (U : Unicode) where
    abbrev pub add_field : ServiceField → List ServiceFlag → Option (List ServiceFlag)
    unfolding register_flag
    add_field f flags =
        if is_annotated f
        then register_flag (dashed_name U f.field_name) f.def f.help f.type flags
        else some flags

    unfoldable pub add_field_flags :
        List ServiceField → List ServiceFlag → Option (List ServiceFlag)
    unfolding register_flag
    add_field_flags [] flags = some flags
    add_field_flags (f ∷ fs) flags = then_add (add_field f flags) (add_field_flags fs)

    -- A service that is no struct has no fields.
    unfoldable pub add_service_flags :
        List (List ServiceField) → List ServiceFlag → Option (List ServiceFlag)
    unfolding add_field_flags
    add_service_flags [] flags = some flags
    add_service_flags (fs ∷ services) flags =
        then_add (add_field_flags fs flags) (add_service_flags services)

    abbrev pub or_keep : Option Value → Value → Value
    or_keep none v = v
    or_keep (some w) v = w

    abbrev pub time_from : Bytes → Option Value
    time_from text = elim (L.parse_rfc3339 text) [
      | some t ↦ some (time_value t)
      | none ↦ elim (L.parse_date text) [ some t ↦ some (time_value t) | none ↦ none ]
    ]

    abbrev pub addr_from : Bytes → Option Value
    addr_from text = elim (L.parse_addr text) [ some a ↦ some (addr_value a) | none ↦ none ]

    -- A text that is no date or address is only logged, and the field keeps its value.
    abbrev pub set_value : Viper → Bytes → FieldType → Value → Value
    set_value V name duration v = duration_value (V.get_duration name)
    set_value V name time v = or_keep (time_from (V.get_string name)) v
    set_value V name addr v = or_keep (addr_from (V.get_string name)) v
    set_value V name of_string v = string_value (V.get_string name)
    set_value V name of_int v = int_value (V.get_int64 name)
    set_value V name of_int64 v = int_value (V.get_int64 name)
    set_value V name of_bool v = bool_value (V.get_bool name)
    set_value V name of_float32 v = float_value (L.to_float32 (V.get_float64 name))
    set_value V name of_float64 v = float_value (V.get_float64 name)
    set_value V name other v = v

    abbrev pub sync_field : Viper → ServiceField → ServiceField
    sync_field V f =
        if is_annotated f && f.can_set
        then record f { value = set_value V (dashed_name U f.field_name) f.type f.value }
        else f

    unfoldable pub sync_fields : Viper → List ServiceField → List ServiceField
    sync_fields V [] = []
    sync_fields V (f ∷ fs) = sync_field V f ∷ sync_fields V fs

    unfoldable pub sync_service_configs :
        Viper → List (List ServiceField) → List (List ServiceField)
    unfolding sync_fields
    sync_service_configs V [] = []
    sync_service_configs V (fs ∷ services) = sync_fields V fs ∷ sync_service_configs V services
