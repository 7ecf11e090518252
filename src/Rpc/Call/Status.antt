-- ===== src/Rpc/Call/Status.antt =====
-- The status that an RPC ends with and what is counted of it.
use kettlingar_go.Prelude.{◌≡◌, arith, Bytes}
use kettlingar_go.Dict.{Dict}
use kettlingar_go.Msgpack.Convert.{Printers, MsgpackJsonConverter}
use kettlingar_go.Rpc.Method.{MethodDesc}
use kettlingar_go.Rpc.Response.{Reflected, Response, log_at}
use kettlingar_go.Rpc.Call.{Method, logged_call}

module _ (R : Reflected) (lib : Printers) (conv : MsgpackJsonConverter) (ks_name : Bytes) where
  pub logged_call-code :
      (desc : MethodDesc) (r : Response)
      → (logged_call R lib conv ks_name desc r).http_code ≡ r.http_code
  unfolding logged_call log_at
  logged_call-code desc r = ground arith

  pub logged_call-writer :
      (desc : MethodDesc) (r : Response) → (logged_call R lib conv ks_name desc r).writer ≡ r.writer
  unfolding logged_call log_at
  logged_call-writer desc r = ground arith
