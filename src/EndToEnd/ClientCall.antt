-- ===== src/EndToEnd/ClientCall.antt =====
-- A client of MakeClient (kettlingar/client.go) that calls a function of a service.
use kettlingar_go.Prelude.{ℕ, ◌≡◌, ap, ◌∙◌, true, false, List, [], ◌∷◌, Bytes, Option, some}
use kettlingar_go.Msgpack.Convert.{Printers, MsgpackJsonConverter}
use kettlingar_go.Metrics.Registry.{Registries}
use kettlingar_go.Rpc.Method.{MethodDesc}
use kettlingar_go.Rpc.Mime.{write, mime_headers, chosen_format}
use kettlingar_go.Rpc.Response.{Reflected, Response, emit, default_code}
use kettlingar_go.Rpc.Call.{
  Function, function, function_step, respond, finish, recovered, received_rpc, read_args,
  handle_rpc, handle_function, send_results,
}
use kettlingar_go.Rpc.Call.Status.{logged_call-writer}
use kettlingar_go.Rpc.Call.Lines.{packed}
use kettlingar_go.Cli.Call.{answered}
use kettlingar_go.Cli.Call.Wire.{reply_of}
use kettlingar_go.Client.{
  Decoder, CallResult, answer_to, decode_one, client_call, endpoint_of, post_to,
}
use kettlingar_go.Client
use kettlingar_go.Client.Loop.{Decodes}
use kettlingar_go.EndToEnd.{request_of, answer_of, service}

module _ (R : Reflected) (lib : Printers) (conv : MsgpackJsonConverter) (ks_name : Bytes)
    (D : Decoder) (recv : R.V → D.V) where
  -- The response to a function that only returns results, in MessagePack.
  abbrev sent : R.V → Response
  sent v = default_code (
      emit (write (R.msgpack v) ∷ [])
        (emit (mime_headers packed) (received_rpc R lib conv ks_name)))

  -- A client's call of a function whose arguments are understood, that returns a value and does not
  -- write to the response itself: the call returns what the encoded value decodes to.
  pub client_call-returned :
      (desc : MethodDesc) (path_of : Bytes → Bytes) (name url method_name payload : Bytes)
      (method : Function R lib conv ks_name) (args : R.Args) (v : R.V) (rest : List R.V)
      (now elapsed : ℕ) (ks : Registries)
      → read_args R lib conv ks_name desc
          (request_of path_of (post_to (endpoint_of url method_name) payload))
        ≡ some args
      → ((r : Response) → method args r ≡ (some (v ∷ rest), r))
      → Decodes D (recv v) (R.msgpack v)
      → client_call D
          (service R lib conv ks_name path_of desc (function method) now elapsed ks)
          name
          url
          method_name
          false
          payload
        ≡ Client.returned (recv v)
  unfolding client_call post_to handle_rpc finish handle_function send_results recovered reply_of
      mime_headers emit chosen_format
  client_call-returned desc path_of name url method_name payload method args v rest now elapsed ks
        understood plain decodes =
      let req = request_of path_of (post_to (endpoint_of url method_name) payload) in
      let show =
        λ (o : Option (Response × Registries)). answer_to D name method_name false (answer_of o) in
      ap
        (λ a. show (
          finish R lib conv ks_name desc now elapsed ks (
            respond R lib conv ks_name desc req true (function method) a
              (received_rpc R lib conv ks_name))))
        understood
      ∙ ap
          (λ o. show (
            finish R lib conv ks_name desc now elapsed ks
              (some (function_step R lib conv ks_name packed o))))
          (plain (emit (mime_headers packed) (received_rpc R lib conv ks_name)))
      ∙ ap (λ ops. answer_to D name method_name false (answered (reply_of ops)))
          (logged_call-writer R lib conv ks_name desc (sent v))
      ∙ ap (λ d. Client.returned (decode_one D d)) (decodes.1 [])
