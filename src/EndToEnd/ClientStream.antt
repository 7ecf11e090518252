-- ===== src/EndToEnd/ClientStream.antt =====
-- A client of MakeClient (kettlingar/client.go) that calls a generator of a service.
use kettlingar_go.Prelude.{
  ℕ, ◌≡◌, ap, ◌∙◌, true, false, All, List, [], ◌∷◌, ◌++◌, append-nil, map, length, suc, Bytes, some,
}
use kettlingar_go.Msgpack.Convert.{Printers, MsgpackJsonConverter}
use kettlingar_go.Metrics.Registry.{Registries}
use kettlingar_go.Rpc.Method.{MethodDesc}
use kettlingar_go.Rpc.Mime.{WriterOp, mime_headers}
use kettlingar_go.Rpc.Response.{Reflected}
use kettlingar_go.Rpc.Call.{generator, Selected, read_args, ok}
use kettlingar_go.Rpc.Call.Framed.{received_all, frames, last_words, handle_rpc-frames}
use kettlingar_go.Rpc.Call.Lines.{packed, packed_frame, packed-Frames, chosen_format-packed}
use kettlingar_go.Cli.Call.{answered}
use kettlingar_go.Cli.Call.Wire.{body_of, reply_of}
use kettlingar_go.Client.{
  Decoder, at_eof, streamed, answer_to, stream_loop, client_call, endpoint_of, post_to,
}
use kettlingar_go.Client.Loop.{Decodes, stream_loop-flat}
use kettlingar_go.EndToEnd.{request_of, answer_of, service}
use kettlingar_go.EndToEnd.Packed.{body_of-texts}

module _ (R : Reflected) (lib : Printers) (conv : MsgpackJsonConverter) (ks_name : Bytes)
    (D : Decoder) (recv : R.V → D.V) where
  -- What the service encodes for a value decodes to what the client receives for it.
  abbrev pub AreReceived : List R.V → Type 0
  AreReceived vs = All (λ v. Decodes D (recv v) (R.msgpack (R.stamp v))) vs

  received-streamed :
      (name method_name : Bytes) (v : R.V) (vs : List R.V) (ops : List WriterOp)
      → D.next [] ≡ at_eof
      → AreReceived (v ∷ vs)
      → ops
        ≡ mime_headers packed
          ++ (frames R lib conv ks_name (packed_frame R lib conv ks_name) (v ∷ vs)
              ++ last_words R lib conv ks_name (v ∷ vs))
      → answer_to D name method_name true (answered (reply_of ops))
        ≡ streamed (some (map recv (v ∷ vs)))
  unfolding reply_of mime_headers
  received-streamed name method_name v vs ops ends decodes e =
      let body = frames R lib conv ks_name (packed_frame R lib conv ks_name) (v ∷ vs) in
      ap (λ o. answer_to D name method_name true (answered (reply_of o))) e
      ∙ ap (λ b. streamed (stream_loop D (suc (length b)) b))
          (ap body_of (append-nil body) ∙ body_of-texts R lib conv ks_name (v ∷ vs))
      ∙ ap streamed (stream_loop-flat D (λ w. R.msgpack (R.stamp w)) recv (v ∷ vs) ends decodes)

  -- A client's streaming call of a generator whose arguments are understood and that sends at least
  -- one value before its channel is closed or the request ends: the client's channel receives what
  -- each value decodes to, once and in their order, and is closed. The decoder gives the encoded
  -- values of a stream back one by one, and io.EOF at its end.
  pub client_call-streamed :
      (desc : MethodDesc) (path_of : Bytes → Bytes) (name url method_name payload : Bytes)
      (args : R.Args) (v : R.V) (vs : List R.V) (end : Selected R lib conv ks_name)
      (more : List (Selected R lib conv ks_name)) (now elapsed : ℕ) (ks : Registries)
      → read_args R lib conv ks_name desc
          (request_of path_of (post_to (endpoint_of url method_name) payload))
        ≡ some args
      → ok R lib conv ks_name end ≡ false
      → D.next [] ≡ at_eof
      → AreReceived (v ∷ vs)
      → client_call D
          (service R lib conv ks_name path_of desc
            (generator (received_all R lib conv ks_name (v ∷ vs) end more))
            now
            elapsed
            ks)
          name
          url
          method_name
          true
          payload
        ≡ streamed (some (map recv (v ∷ vs)))
  unfolding client_call post_to
  client_call-streamed desc path_of name url method_name payload args v vs end more now elapsed ks
        understood ended ends decodes =
      let post = post_to (endpoint_of url method_name) payload in
      let k =
        handle_rpc-frames R lib conv ks_name packed (packed_frame R lib conv ks_name)
          (packed-Frames R lib conv ks_name) desc (request_of path_of post) args (v ∷ vs) end more
          now elapsed ks understood (chosen_format-packed desc.default_mime) ended in
      ap (λ o. answer_to D name method_name true (answer_of o)) k.2
      ∙ received-streamed name method_name v vs k.0.writer ends decodes k.3
