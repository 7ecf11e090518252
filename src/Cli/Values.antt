-- ===== src/Cli/Values.antt =====
-- parseValue of kettlingar/default_main.go, and the loop of doCall that makes a method's parameters from
-- the command line. The order of the arguments is that of the map's iteration.
pub mod Types
pub mod Typed
use kettlingar_go.Prelude.{
  Bool, true, false, ◌||◌, List, [], ◌∷◌, ◌++◌, if◌then◌else◌, Bytes, bytes_eq, codes, Option, none,
  some, ℤ,
}
use kettlingar_go.Dict.{Dict}
use kettlingar_go.Text.Dashed.{Unicode, dashed_name}
use kettlingar_go.Rpc.Method.{MethodDesc}
use kettlingar_go.Cli.Commands.{is_positional_args}

-- netip.ParseAddr, strconv.ParseInt to 64 bits, ParseBool, ParseFloat and json.Unmarshal, none for an
-- error.
pub record Parsers : Type 1 where
  pub Addr : Type 0
  pub Float : Type 0
  pub Json : Type 0
  pub parse_addr : Bytes → Option Addr
  pub parse_int : Bytes → Option ℤ
  pub parse_bool : Bytes → Option Bool
  pub parse_float : Bytes → Option Float
  pub parse_json : Bytes → Option Json

-- What parseValue goes by.
pub data Kind : Type 0 where
  of_string of_addr of_int of_int64 of_bool of_float of_json : Kind

unfoldable pub kind_of : Bytes → Kind
kind_of t =
    if bytes_eq t (codes "string")
    then of_string
    else if bytes_eq t (codes "netip.Addr")
    then of_addr
    else if bytes_eq t (codes "int")
    then of_int
    else if bytes_eq t (codes "int64")
    then of_int64
    else if bytes_eq t (codes "bool")
    then of_bool
    else if bytes_eq t (codes "float64")
    then of_float
    else of_json

module _ (P : Parsers) where
  -- The dynamic type of an interface{}, with its value.
  pub data Value : Type 0 where
    string_value : Bytes → Value
    addr_value : P.Addr → Value
    int_value int64_value : ℤ → Value
    bool_value : Bool → Value
    float_value : P.Float → Value
    json_value : P.Json → Value

  abbrev pub wrap {ℓ} : {A : Type ℓ} → (A → Value) → Option A → Option Value
  wrap f none = none
  wrap f (some a) = some (f a)

  abbrev pub parse_kind : Bytes → Kind → Option Value
  parse_kind s of_string = some (string_value s)
  parse_kind s of_addr = wrap addr_value (P.parse_addr s)
  parse_kind s of_int = wrap int_value (P.parse_int s)
  parse_kind s of_int64 = wrap int64_value (P.parse_int s)
  parse_kind s of_bool = wrap bool_value (P.parse_bool s)
  parse_kind s of_float = wrap float_value (P.parse_float s)
  parse_kind s of_json = wrap json_value (P.parse_json s)

  unfoldable pub parse_value : Bytes → Bytes → Option Value
  unfolding kind_of
  parse_value s type_name = parse_kind s (kind_of type_name)

  pub data Param : Type 0 where
    positional : List Bytes → Param
    valued : Value → Param

  -- doCall stops at a flag that it cannot parse, before it sends anything.
  pub data Params : Type 0 where
    bad_flag : Bytes → Params
    params : Dict Param → Params

  abbrev pub with_param : Bytes → Param → Params → Params
  with_param name p (bad_flag flag) = bad_flag flag
  with_param name p (params ps) = params ((name, p) ∷ ps)

  abbrev pub with_value : Bytes → Bytes → Option Value → Params → Params
  with_value name flag none rest = bad_flag flag
  with_value name flag (some v) rest = with_param name (valued v) rest

  abbrev pub with_text : Bytes → Bytes → Bytes → Bytes → Params → Params
  with_text name flag type_name [] rest = rest
  with_text name flag type_name (c ∷ s) rest =
      with_value name flag (parse_value (c ∷ s) type_name) rest

  abbrev pub with_positional : Bytes → List Bytes → Params → Params
  with_positional name [] rest = rest
  with_positional name (a ∷ pos_args) rest = with_param name (positional (a ∷ pos_args)) rest

  -- `get_string` is viper.GetString.
  module _ (U : Unicode) (get_string : Bytes → Bytes) (m : MethodDesc) (pos_args : List Bytes) where
    abbrev pub flag_text : Bytes → Bytes
    flag_text name = get_string (m.name ++ codes "." ++ dashed_name U name)

    abbrev pub with_arg : Bytes → Bytes → Params → Params
    with_arg name type_name rest =
        if is_positional_args name type_name
        then with_positional name pos_args rest
        else with_text name (dashed_name U name) type_name (flag_text name) rest

    unfoldable pub call_params : Dict Bytes → Params
    unfolding parse_value is_positional_args dashed_name
    call_params [] = params []
    call_params ((name, type_name) ∷ args) = with_arg name type_name (call_params args)
