-- ===== src/Tests/CommandTests.antt =====
-- The commands of kettlingar/default_main.go made from a concrete manifest.
use kettlingar_go.Prelude.{
  some, bytes_eq, pos, ◌≡◌, refl, arith, false, ◌==◌, leb, ◌&&◌, ◌+◌, if◌then◌else◌, [], ◌∷◌, ◌++◌,
  Bytes, codes, none,
}
use kettlingar_go.Text.Search.{Lacks}
use kettlingar_go.Text.Dashed.{Unicode, dashed_name}
use kettlingar_go.Rpc.Method.{MethodDesc}
use kettlingar_go.Cli.Commands.{Group, Root, Tools, flags_of, create_rpc_command}
use kettlingar_go.Cli.Values.{
  Parsers, params, bad_flag, positional, valued, int_value, call_params, kind_of,
}
use kettlingar_go.Cli.Values.Typed.{AreTyped, call_params-AreTyped}
use kettlingar_go.Cli.Commands.Complete.{NamesByFirstWord}

abbrev first_word : Bytes → Bytes
first_word [] = []
first_word (c ∷ s) = let rest = first_word s in if c == b' ' then [] else c ∷ rest

abbrev ascii : Unicode
ascii = record {
  is_upper = λ r. leb b'A' r && leb r b'Z';
  is_lower = λ r. leb b'a' r && leb r b'z';
  is_digit = λ r. leb b'0' r && leb r b'9';
  to_lower = λ r. if leb b'A' r && leb r b'Z' then r + 32 else r;
}

abbrev pub tools : Tools
tools = record { unicode = ascii; name_of = first_word; renders = λ t. none }

first_word-whole : (name : Bytes) → Lacks b' ' name → first_word name ≡ name
first_word-whole [] h = refl
first_word-whole (c ∷ name) h = ground (arith, h.0, first_word-whole name h.1)

first_word-before : (name rest : Bytes) → Lacks b' ' name → first_word (name ++ b' ' ∷ rest) ≡ name
first_word-before [] rest h = ground arith
first_word-before (c ∷ name) rest h = ground (arith, h.0, first_word-before name rest h.1)

pub names : NamesByFirstWord tools
names name rest h = (first_word-whole name h, first_word-before name rest h)

abbrev pub send : MethodDesc
send = record {
  name = codes "send";
  help = [];
  docs = [];
  args = (codes "Args", []) ∷ (codes "MaxConns", codes "int") ∷ [];
  arg_defaults = (codes "MaxConns", codes "3") ∷ [];
  default_mime = [];
  return_type = none;
  returns = [];
  is_generator = false;
  is_public = false;
  group = codes "mail";
}

abbrev other : MethodDesc
other = record send { name = codes "x"; group = codes "none" }

abbrev bare : Root
bare = record { groups = []; commands = [] }

abbrev pub mail : Group
mail = record { id = codes "mail"; title = codes "Mail:" }

-- Positional arguments are no flag.
send_flags :
    flags_of tools send send.args []
    ≡ some (
        record {
          flag_name = codes "max-conns";
          default_text = codes "3";
          usage = codes "(int)";
          viper_key = codes "send.max-conns";
        }
        ∷ [])
unfolding flags_of dashed_name
send_flags = refl

-- Two arguments with one dashed name.
redefined_flag :
    create_rpc_command tools [] (record send {
      args = (codes "MaxConns", codes "int") ∷ (codes "maxConns", codes "int") ∷ [];
    })
    ≡ none
unfolding create_rpc_command dashed_name
redefined_flag = refl

abbrev pub parsers : Parsers
parsers = record {
  Addr = Bytes;
  Float = Bytes;
  Json = Bytes;
  parse_addr = λ s. none;
  parse_int = λ s. if bytes_eq s (codes "3") then some (pos 3) else none;
  parse_bool = λ s. none;
  parse_float = λ s. some s;
  parse_json = λ s. some s;
}

abbrev viper : Bytes → Bytes
viper key = if bytes_eq key (codes "send.max-conns") then codes "3" else []

call_params-AreTyped_example : AreTyped parsers ascii viper send (codes "a" ∷ []) send.args (
    params (
      (codes "Args", positional (codes "a" ∷ []))
      ∷ (codes "MaxConns", valued (int_value (pos 3)))
      ∷ []))
unfolding call_params kind_of dashed_name
call_params-AreTyped_example =
    call_params-AreTyped parsers ascii viper send (codes "a" ∷ []) send.args

refused_flag :
    call_params parsers ascii (λ key. codes "x") send [] send.args ≡ bad_flag (codes "max-conns")
unfolding call_params kind_of dashed_name
refused_flag = refl
