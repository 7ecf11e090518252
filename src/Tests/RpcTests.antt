-- ===== src/Tests/RpcTests.antt =====
-- kettlingar/service.go on concrete requests and methods.
use kettlingar_go.Prelude.{
  not, List, bytes_eq, ◌&&◌, ◌||◌, ◌==◌, ℕ, ◌≡◌, ◌↔◌, ◌⊎◌, refl, arith, All, Bool, true, false, [],
  ◌∷◌, Bytes, codes, Option, none, some,
}
use kettlingar_go.Text.Dashed.{ascii, dashed_name, without_dashes, spaced, dashed_name_lem}
use kettlingar_go.Text.Decimal.{decimal}
use kettlingar_go.Msgpack.Convert.{Printers, new_json_converter}
use kettlingar_go.Metrics.Registry.{Registries, new_metrics}
use kettlingar_go.Rpc.Auth.{Request, authenticate, gate, not_found, call}
use kettlingar_go.Rpc.Auth.Grants.{HasToken, HasSecretPath, authenticate_iff, gate_lem}
use kettlingar_go.Rpc.Method.{MethodDesc, GoType, pointer, request_info, basic}
use kettlingar_go.Rpc.Response.{Reflected, Response}
use kettlingar_go.Rpc.Call.{Function, function, handle_rpc}
use kettlingar_go.Rpc.Call.Answer.{call_status, handle_rpc-status}
use kettlingar_go.Rpc.Mux.{Service, registered, crashed}
use kettlingar_go.Rpc.Registration.{GoMethod, register_service}
use kettlingar_go.Rpc.Registration.Routes.{
  RoutesMatch, register_service-RoutesMatch, void_method, register_service-crashed,
}
use kettlingar_go.Rpc.Ping.{IsOpen, public_api_ping, public_api_ping-IsOpen}

abbrev req : Request
req = record {
  path = codes "/s3/help";
  authorization = [];
  content_type = codes "application/json";
  accept = codes "text/event-stream";
  remote_addr = [];
  body = none;
}

authenticate_iff_example :
    (authenticate (codes "s3") req (codes "help") ≡ true)
    ↔ (HasToken (codes "s3") req ⊎ HasSecretPath (codes "s3") (codes "help") req)
authenticate_iff_example =
    authenticate_iff (codes "s3") (codes "help") req (ground arith) (ground arith)

by_path : authenticate (codes "s3") req (codes "help") ≡ true
unfolding authenticate
by_path = refl

closed_to_others :
    ((gate (codes "s4") (codes "help") false req ≡ not_found)
      ↔ ((false ≡ false) × (authenticate (codes "s4") req (codes "help") ≡ false)))
    × ((authed : Bool)
        → gate (codes "s4") (codes "help") false req ≡ call authed
        → (authenticate (codes "s4") req (codes "help") ≡ authed)
          × ((false ≡ true) ⊎ (authed ≡ true)))
closed_to_others = gate_lem (codes "s4") (codes "help") false req

dashed_name_run :
    let name = dashed_name ascii (codes "HTTPProxy") in
    (without_dashes ascii name ≡ codes "httpproxy") × (spaced ascii true name ≡ true)
dashed_name_run = dashed_name_lem ascii (codes "HTTPProxy") (ground arith)

abbrev pub printers : Printers
printers = record {
  float32_g = λ bits. decimal bits;
  float64_g = λ bits. decimal bits;
  rfc3339_nano = λ sec nsec. [];
  is_print = λ r. true;
}

-- Values are numbers below 128, which MessagePack writes as themselves.
abbrev pub values : Reflected
values = record {
  V = ℕ;
  Args = ℕ;
  zero_args = 0;
  unmarshal = λ msgpack body. none;
  msgpack = λ v. v ∷ [];
  sorted_msgpack = λ v. some (v ∷ []);
  render = λ v. none;
  stamp = λ v. v;
}

abbrev pub desc : MethodDesc
desc = record {
  name = codes "help";
  help = [];
  docs = [];
  args = [];
  arg_defaults = [];
  default_mime = codes "application/json";
  return_type = none;
  returns = [];
  is_generator = false;
  is_public = true;
  group = [];
}

abbrev pub ks : Registries
ks = record { metrics = new_metrics; metrics_priv = new_metrics }

abbrev answers : Function values printers new_json_converter (codes "ks")
answers args r = (some (7 ∷ []), r)

abbrev in_json : Request
in_json = record req { accept = [] }

-- The same call, for its result.
abbrev answered :
    (r : Response) × (ks' : Registries) × (handle_rpc values printers new_json_converter
        (codes "ks")
        desc
        in_json
        true
        (function answers)
        0
        5
        ks
      ≡ some (r, ks'))
    × (r.http_code
        ≡ call_status values printers new_json_converter
            (codes "ks")
            desc
            in_json
            λ args. some (7 ∷ []))
answered =
    handle_rpc-status values printers new_json_converter (codes "ks") desc in_json true answers
      (λ args. some (7 ∷ [])) 0 5 ks λ args r. (refl, refl)

handle_rpc-status_example :
    (r : Response) × (ks' : Registries) × (handle_rpc values printers new_json_converter
        (codes "ks")
        desc
        in_json
        true
        (function answers)
        0
        5
        ks
      ≡ some (r, ks'))
    × (r.http_code
        ≡ call_status values printers new_json_converter
            (codes "ks")
            desc
            in_json
            λ args. some (7 ∷ []))
handle_rpc-status_example =
    handle_rpc-status values printers new_json_converter (codes "ks") desc in_json true answers
      (λ args. some (7 ∷ [])) 0 5 ks λ args r. (refl, refl)

abbrev pub streams : MethodDesc
streams = record desc { is_generator = true }

abbrev pub no_renderer : GoType → Option Bytes
no_renderer t = none

-- A mux that takes literal patterns, and none twice.
abbrev pub is_literal : Bytes → Bool
is_literal [] = true
is_literal (c ∷ s) =
    not (c == b'{' || (c == b'}' || (c == b' ' || (c == 9 || c == b'%')))) && is_literal s

abbrev pub is_there : Bytes → List Bytes → Bool
is_there p [] = false
is_there p (q ∷ ps) = bytes_eq q p || is_there p ps

abbrev pub takes : List Bytes → Bytes → Bool
takes ps p = is_literal p && not (is_there p ps)

abbrev fresh_service : Service
fresh_service = record { secret = codes "s3"; registry = []; mux = []; takes = takes }

abbrev pub help_method : GoMethod
help_method = record {
  method_name = codes "PublicApiHelp";
  ins = pointer request_info ∷ [];
  outs = pointer (basic (codes "HelpText")) ∷ [];
}

abbrev with_help : Service
with_help = record {
  takes = takes;
  secret = codes "s3";
  registry =
      record desc { return_type = some (basic (codes "HelpText")); returns = codes "HelpText" }
      ∷ [];
  mux =
      record { pattern = codes "/s3/help"; m_name = codes "help"; is_public = true }
      ∷ record { pattern = codes "/help"; m_name = codes "help"; is_public = true }
      ∷ [];
}

registers :
    register_service ascii no_renderer [] (help_method ∷ []) fresh_service ≡ registered with_help
unfolding register_service dashed_name
registers = refl

registers_with_routes : (with_help.secret ≡ codes "s3") × RoutesMatch with_help
unfolding register_service dashed_name
registers_with_routes =
    register_service-RoutesMatch ascii no_renderer [] (help_method ∷ []) fresh_service with_help
      refl refl

registers_no_void :
    register_service ascii no_renderer []
      (void_method ascii no_renderer (codes "Stop") ∷ help_method ∷ [])
      fresh_service
    ≡ crashed fresh_service
registers_no_void =
    register_service-crashed ascii no_renderer [] (help_method ∷ []) fresh_service (codes "Stop")
      refl

public_api_ping-IsOpen_example :
    All
      (IsOpen (codes "s3"))
      (public_api_ping
        (codes "1")
        (desc ∷ record desc { is_public = false } ∷ [])
        true
        false).methods
public_api_ping-IsOpen_example =
    public_api_ping-IsOpen (codes "s3") (codes "1") (desc ∷ record desc { is_public = false } ∷ [])
      true
