-- ===== src/Rpc/Mux.antt =====
-- The registry and the http.ServeMux of a service, as RegisterService of kettlingar/service.go
-- fills them.
use kettlingar_go.Prelude.{Bool, List, [], ◌∷◌, ◌++◌, if◌then◌else◌, Bytes, bytes_eq, codes, map}
use kettlingar_go.Dict.{Dict}
use kettlingar_go.Rpc.Method.{MethodDesc}

-- A method's part in registration: passed over, described, refused with an error, or a panic.
pub data Verdict : Type 0 where
  skipped : Verdict
  described : MethodDesc → Verdict
  refused : Bytes → Verdict
  panics : Verdict

-- A route of the http.ServeMux: its pattern, and the method name and the flag of its handler.
pub record Route : Type 0 where
  pub pattern : Bytes
  pub m_name : Bytes
  pub is_public : Bool

-- `takes` is net/http's: whether HandleFunc of a mux that has the patterns of the list takes a pattern.
pub record Service : Type 0 where
  pub secret : Bytes
  pub registry : List MethodDesc
  pub mux : List Route
  pub takes : List Bytes → Bytes → Bool

pub data Registered : Type 0 where
  registered : Service → Registered
  failed : Bytes → Service → Registered
  crashed : Service → Registered

abbrev pub patterns : List Route → List Bytes
patterns rs = map (λ r. r.pattern) rs

-- HandleFunc panics at a pattern that it does not take: one that is not valid, or that conflicts with
-- one that the mux has.
unfoldable pub handle_func : Route → Service → Registered
handle_func r ks =
    if ks.takes (patterns ks.mux) r.pattern
    then registered (record ks { mux = ks.mux ++ r ∷ [] })
    else crashed ks

abbrev pub and_then : Registered → (Service → Registered) → Registered
and_then (registered ks) k = k ks
and_then (failed e ks) k = failed e ks
and_then (crashed ks) k = crashed ks

abbrev pub routes_of : Bytes → MethodDesc → List Route
routes_of secret desc =
    record {
      pattern = codes "/" ++ (secret ++ (codes "/" ++ desc.name));
      m_name = desc.name;
      is_public = desc.is_public;
    }
    ∷ record { pattern = codes "/" ++ desc.name; m_name = desc.name; is_public = desc.is_public }
    ∷ []

abbrev pub handle_funcs : List Route → Service → Registered
handle_funcs [] ks = registered ks
handle_funcs (r ∷ rs) ks = and_then (handle_func r ks) (handle_funcs rs)

unfoldable pub register_method : Verdict → Service → Registered
unfolding handle_func
register_method skipped ks = registered ks
register_method (refused e) ks = failed e ks
register_method panics ks = crashed ks
register_method (described desc) ks =
    handle_funcs (routes_of ks.secret desc) (record ks { registry = ks.registry ++ desc ∷ [] })

abbrev pub regroup_desc : Bytes → Bytes → MethodDesc → MethodDesc
regroup_desc name [] desc = desc
regroup_desc name (g ∷ gs) desc =
    if bytes_eq desc.name name then record desc { group = g ∷ gs } else desc

-- The range over `docs`; each of its names is there once.
unfoldable pub regroup : Dict MethodDesc → List MethodDesc → List MethodDesc
regroup [] registry = registry
regroup ((name, d) ∷ docs) registry = regroup docs (map (regroup_desc name d.group) registry)
