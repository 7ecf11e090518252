-- ===== src/Rpc/Make.antt =====
-- MakeService of kettlingar/service.go: the secret, the three registrations, the version and the first
-- metrics. What InstallLogging does is in LogSetup. `api_hash` is sha256 over the JSON of a registry,
-- `takes` what HandleFunc takes.
pub mod Secret
pub mod Registers
pub mod Succeeds
pub mod Makes
use kettlingar_go.Prelude.{
  ℕ, Bool, true, false, List, [], ◌∷◌, ◌++◌, if◌then◌else◌, take, Bytes, bytes_eq, codes, Option,
  none, some,
}
use kettlingar_go.Dict.{Dict, insert}
use kettlingar_go.Text.Hex.{hex}
use kettlingar_go.Text.Dashed.{Unicode}
use kettlingar_go.Metrics.Registry.{
  Metrics, Registries, new_metrics, metrics_guage, metrics_info, public_metric, private_metric,
}
use kettlingar_go.Rpc.Method.{MethodDesc, Field, GoType, request_info, pointer, struct, basic}
use kettlingar_go.Rpc.Mux.{Route, Service, Registered, registered, failed, crashed}
use kettlingar_go.Rpc.Registration.{GoMethod, no_desc, register_service}
use kettlingar_go.Rpc.Make.Secret.{generate_secret}

abbrev field : Bytes → Bytes → Bytes → Bytes → Field
field name type_name tag def = record {
  field_name = name;
  type_name = type_name;
  is_netip_addr = false;
  msgpack_tag = tag;
  default_tag = def;
}

-- Reflection lists the methods of a type by name.
abbrev get_docs : GoMethod
get_docs = record { method_name = codes "GetDocs"; ins = []; outs = basic [] ∷ [] }

abbrev pub ping_fields : List Field
ping_fields =
    field (codes "Timestamp") (codes "Time") (codes "timestamp") []
    ∷ field (codes "Version") (codes "string") (codes "version") []
    ∷ field (codes "Methods") [] (codes "methods") []
    ∷ []

abbrev pub metrics_fields : List Field
metrics_fields =
    field (codes "Timestamp") (codes "Time") (codes "timestamp") []
    ∷ field (codes "PubMetrics") (codes "Metrics") (codes "public_metrics") []
    ∷ field (codes "PrivMetrics") (codes "Metrics") (codes "private_metrics") []
    ∷ []

unfoldable pub default_methods : List GoMethod
default_methods =
    get_docs
    ∷ record {
      method_name = codes "PublicApiPing";
      ins =
          pointer request_info
          ∷ struct (codes "PingArguments")
              (field (codes "Methods") (codes "bool") [] (codes "false") ∷ [])
          ∷ [];
      outs = struct (codes "PingResponse") ping_fields ∷ [];
    }
    ∷ []

unfoldable pub default_docs : Dict MethodDesc
default_docs =
    (
      codes "ping",
      record no_desc {
        help = codes "Checks server status and returns the API manifest";
        docs = codes "This endpoint provides the complete list of registered methods";
        group = codes "service";
      },
    )
    ∷ []

unfoldable pub metrics_methods : List GoMethod
metrics_methods =
    get_docs
    ∷ record {
      method_name = codes "PublicApiMetrics";
      ins = pointer request_info ∷ [];
      outs = struct (codes "MetricsResponse") metrics_fields ∷ [];
    }
    ∷ []

unfoldable pub metrics_docs : Dict MethodDesc
metrics_docs =
    (
      codes "metrics",
      record no_desc {
        help = codes "Return internal service metrics";
        docs = codes "This endpoint returns the internal service metrics";
        group = codes "service";
      },
    )
    ∷ []

pub record KettlingarService : Type 0 where
  pub name : Bytes
  pub version : Bytes
  pub service : Service
  pub registries : Registries

-- A nil service, with what is logged, or a panic of a registration.
pub data Made : Type 0 where
  made : KettlingarService → Made
  no_service : List Bytes → Made
  panicked : Made

abbrev pub failed_as : Bytes → Bytes → Registered → (Service → Made) → Made
failed_as name which (registered ks) k = k ks
failed_as name which (failed e ks) k =
    no_service ((name ++ codes ": failed to register " ++ which ++ codes " methods") ∷ [])
failed_as name which (crashed ks) k = panicked

abbrev pub with_secret : Option Bytes → (Bytes → Made) → Made
with_secret none k = no_service []
with_secret (some secret) k = k secret

unfoldable pub first_metrics : ℕ → Bytes → Bytes → Registries
unfolding new_metrics metrics_guage metrics_info
first_metrics now name version =
    let helped : Metrics = record new_metrics {
      help = insert (codes "rpc_calls_time_us") (codes "RPC runtime in microseconds") (
          insert (codes "rpc_calls_total") (codes "Total processed RPC requests") (
            insert (codes "start_ts") (codes "Service start time, Unix timestamp")
              (insert (codes "started") (codes "Service information") [])));
    } in
    metrics_info (codes "started") name public_metric ((codes "version", version) ∷ []) (
      metrics_guage (codes "start_ts") now private_metric []
        (record { metrics = helped; metrics_priv = new_metrics }))

module _ (U : Unicode) (renders : GoType → Option Bytes) (api_hash : List MethodDesc → Bytes)
    (takes : List Bytes → Bytes → Bool) where
  abbrev pub started_service : ℕ → Bytes → Service → KettlingarService
  started_service now name ks =
      let version = codes "v0.0.1." ++ hex (take 4 (api_hash ks.registry)) in
      record {
        name = name;
        version = version;
        service = ks;
        registries = first_metrics now name version;
      }

  unfoldable pub make_with : ℕ → Bytes → Bytes → List Route → Dict MethodDesc → List GoMethod → Made
  unfolding register_service default_methods default_docs metrics_methods metrics_docs first_metrics
  make_with now name secret mux docs ms =
      failed_as name (codes "default")
        (register_service U renders default_docs default_methods
          (record { secret = secret; registry = []; mux = mux; takes = takes }))
        λ ks.
          failed_as name (codes "metrics")
            (register_service U renders metrics_docs metrics_methods ks)
            λ ks'.
              failed_as name (codes "service") (register_service U renders docs ms ks')
                λ ks''. made (started_service now name ks'')

  -- `rand` is what rand.Read gives, and `mux` what the caller's mux has.
  unfoldable pub make_service :
      Option Bytes → ℕ → Bytes → Bytes → List Route → Dict MethodDesc → List GoMethod → Made
  unfolding make_with generate_secret
  make_service rand now name [] mux docs ms =
      with_secret (generate_secret rand) λ secret. make_with now name secret mux docs ms
  make_service rand now name (c ∷ secret) mux docs ms = make_with now name (c ∷ secret) mux docs ms
