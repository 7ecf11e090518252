-- ===== src/EndToEnd.antt =====
-- A call from the command line (doCall of kettlingar/default_main.go) or from a client of MakeClient
-- (kettlingar/client.go) through the handler of its method (handleRPC of kettlingar/service.go) and
-- back to what is shown or received.
pub mod Lines
pub mod Packed
pub mod ClientStream
pub mod ClientCall
use kettlingar_go.Prelude.{ℕ, Bool, true, List, [], Bytes, Option, none, some}
use kettlingar_go.Msgpack.Convert.{Printers, MsgpackJsonConverter}
use kettlingar_go.Metrics.Registry.{Registries}
use kettlingar_go.Rpc.Auth.{Request}
use kettlingar_go.Rpc.Method.{MethodDesc}
use kettlingar_go.Rpc.Response.{Reflected, Response}
use kettlingar_go.Rpc.Call.{Method, handle_rpc}
use kettlingar_go.Cli.Call.{Post, Answer, no_answer, answered}
use kettlingar_go.Cli.Call.Wire.{reply_of}

-- The request as the service has it; `path_of` is the path of a URL.
abbrev pub request_of : (Bytes → Bytes) → Post → Request
request_of path_of post = record {
  path = path_of post.url;
  authorization = [];
  content_type = post.content_type;
  accept = post.accept;
  remote_addr = [];
  body = some post.payload;
}

-- The client waits for an answer that has not ended; this is no answer here.
abbrev pub answer_of : Option (Response × Registries) → Answer
answer_of none = no_answer []
answer_of (some (r, ks)) = answered (reply_of r.writer)

module _ (R : Reflected) (lib : Printers) (conv : MsgpackJsonConverter) (ks_name : Bytes) where
  -- The service that has the method, behind its gate.
  abbrev pub service :
      (Bytes → Bytes) → MethodDesc → Method R lib conv ks_name → ℕ → ℕ → Registries → Post → Answer
  service path_of desc method now elapsed ks post =
      answer_of
        (handle_rpc R lib conv ks_name desc (request_of path_of post) true method now elapsed ks)
