-- ===== src/Rpc/Response.antt =====
-- What one RPC leaves behind: the response that the functions of kettlingar/service.go write through
-- RequestInfo, and the metrics that handleRPC counts. `Reflected` stands for the values that methods
-- take and return and for what the msgpack package and the values' own methods do with them.
use kettlingar_go.Prelude.{
  ℕ, ◌%◌, Bool, not, List, [], ◌∷◌, ◌++◌, ◌==◌, if◌then◌else◌, Bytes, codes, Option,
}
use kettlingar_go.Dict.{Dict, insert}
use kettlingar_go.Slog.{Level}
use kettlingar_go.Text.Decimal.{decimal}
use kettlingar_go.Metrics.Registry.{Registries, metrics_count, metrics_sample, u64}
use kettlingar_go.Rpc.Method.{MethodDesc}
use kettlingar_go.Rpc.Mime.{WriterOp, http_error}

-- `msgpack` is what an encoder writes; `sorted_msgpack` the same with sorted keys, none on an
-- error; `render` is present for a DataRenderer; `stamp` sets a progress report's timestamp.
pub record Reflected : Type 1 where
  pub V : Type 0
  pub Args : Type 0
  pub zero_args : Args
  pub unmarshal : Bool → Bytes → Option Args
  pub msgpack : V → Bytes
  pub sorted_msgpack : V → Option Bytes
  pub render : V → Option (Bytes → Bytes × Option Bytes)
  pub stamp : V → V

-- What the service and a method write of a request: RequestInfo.HttpCode, the calls on the
-- writer, and the level and message of each call of the logger.
pub record Response : Type 0 where
  pub http_code : ℕ
  pub writer : List WriterOp
  pub logged : List (Level × Bytes)

pub data Step : Type 0 where
  returned : Response → Step
  panicked : Response → Step

unfoldable pub emit : List WriterOp → Response → Response
emit ops r = record r { writer = r.writer ++ ops }

unfoldable pub log_at : Level → Bytes → Response → Response
log_at l message r = record r { logged = r.logged ++ (l, message) ∷ [] }

-- `ri.HttpCode = code; http.Error(ri.Writer, text, code)`
unfoldable pub refuse : Bytes → ℕ → Response → Response
refuse text code r = record r { http_code = code; writer = r.writer ++ http_error text code ∷ [] }

abbrev pub default_code : Response → Response
default_code r = if r.http_code == 0 then record r { http_code = 200 } else r

abbrev pub call_labels : MethodDesc → Response → Dict Bytes
call_labels desc r =
    insert (codes "method") desc.name (insert (codes "status") (decimal r.http_code) [])

-- What the deferred function records: `private` and `elapsed` as it computes them.
unfoldable pub measured : MethodDesc → ℕ → ℕ → Response → Registries → Registries
measured desc now elapsed r ks =
    let labels = call_labels desc r in
    let private = not desc.is_public in
    let counted = metrics_count (codes "rpc_calls_total") 1 private labels ks in
    if desc.is_generator
    then counted
    else metrics_sample now (codes "rpc_calls_time_us") (elapsed % u64) private labels counted
