-- ===== src/EndToEnd/Packed.antt =====
-- A generator whose values come as MessagePack, for every output format but JSON.
use kettlingar_go.Prelude.{
  ℕ, ◌≡◌, refl, ap, ◌∙◌, true, false, List, [], ◌∷◌, ◌++◌, append-nil, map, length, suc, bytes_eq,
  if◌then◌else◌, Bytes, codes, Option, some,
}
use kettlingar_go.Dict.{Dict}
use kettlingar_go.Msgpack.Convert.{Printers, MsgpackJsonConverter}
use kettlingar_go.Metrics.Registry.{Registries}
use kettlingar_go.Rpc.Method.{MethodDesc}
use kettlingar_go.Rpc.Mime.{WriterOp, mime_headers, chosen_format}
use kettlingar_go.Rpc.Response.{Reflected}
use kettlingar_go.Rpc.Call.{generator, Selected, read_args, ok}
use kettlingar_go.Rpc.Call.Framed.{received_all, frames, last_words, handle_rpc-frames}
use kettlingar_go.Rpc.Call.Lines.{packed, packed_frame, packed-Frames, chosen_format-packed}
use kettlingar_go.Cli.Output.{Out, Shown, print_output}
use kettlingar_go.Cli.Values.{Parsers, Param, params}
use kettlingar_go.Cli.Call.{Raw, raw_loop, show_reply, show_answer, show_stream, send_call, post_of}
use kettlingar_go.Cli.Call.Wire.{body_of, reply_of}
use kettlingar_go.Cli.Call.Streams.{flat, Splits, raw_loop-joined}
use kettlingar_go.EndToEnd.{request_of, answer_of, service}

module _ (R : Reflected) (lib : Printers) (conv : MsgpackJsonConverter) (ks_name : Bytes) where
  -- What the encoder writes for each value.
  abbrev pub texts : List R.V → List Bytes
  texts vs = map (λ v. R.msgpack (R.stamp v)) vs

  pub body_of-texts :
      (vs : List R.V)
      → body_of (frames R lib conv ks_name (packed_frame R lib conv ks_name) vs)
        ≡ flat (λ v. R.msgpack (R.stamp v)) vs
  unfolding body_of
  body_of-texts [] = refl
  body_of-texts (v ∷ vs) = ap (λ b. R.msgpack (R.stamp v) ++ b) (body_of-texts vs)

  texts-flat : (vs : List R.V) → flat (λ v. R.msgpack (R.stamp v)) vs ≡ flat (λ t. t) (texts vs)
  texts-flat [] = refl
  texts-flat (v ∷ vs) = ap (λ b. R.msgpack (R.stamp v) ++ b) (texts-flat vs)

  module _ (S : Shown) (next_raw : Bytes → Option Raw) (out_format : Bytes)
      (desc : MethodDesc) where
    abbrev pub outputs : List R.V → List Out
    outputs vs =
        flat (λ t. print_output S out_format desc t (codes "application/msgpack")) (texts vs)

    reply-shown :
        (v : R.V) (vs : List R.V) (ops : List WriterOp)
        → desc.is_generator ≡ true
        → Splits S next_raw out_format desc (texts (v ∷ vs))
        → ops
          ≡ mime_headers packed
            ++ (frames R lib conv ks_name (packed_frame R lib conv ks_name) (v ∷ vs)
                ++ last_words R lib conv ks_name (v ∷ vs))
        → show_reply S next_raw out_format desc (reply_of ops) ≡ some (outputs (v ∷ vs))
    unfolding reply_of mime_headers show_stream
    reply-shown v vs ops streams h e =
        let body = frames R lib conv ks_name (packed_frame R lib conv ks_name) (v ∷ vs) in
        ap (λ o. show_reply S next_raw out_format desc (reply_of o)) e
        ∙ rw streams refl
        ∙ ap
            (λ b.
              raw_loop S next_raw out_format desc (suc (length b)) (codes "application/msgpack") b)
            (ap body_of (append-nil body) ∙ body_of-texts (v ∷ vs) ∙ texts-flat (v ∷ vs))
        ∙ raw_loop-joined S next_raw out_format desc (codes "application/msgpack") (texts (v ∷ vs))
            h

    module _ (P : Parsers) (marshal : Dict (Param P) → Bytes) (path_of : Bytes → Bytes) where
      -- A generator that is called with any -f but json, whose arguments are understood and that sends
      -- at least one value before its channel is closed or the request ends: the command line shows
      -- the MessagePack of each value, as it was encoded, once and in their order. The decoder
      -- gives the encoded values of a stream back one by one.
      pub send_call-packed :
          (url : Bytes) (ps : Dict (Param P)) (args : R.Args) (v : R.V) (vs : List R.V)
          (end : Selected R lib conv ks_name) (more : List (Selected R lib conv ks_name))
          (now elapsed : ℕ) (ks : Registries)
          → bytes_eq out_format (codes "json") ≡ false
          → desc.is_generator ≡ true
          → read_args R lib conv ks_name desc
              (request_of path_of (post_of P marshal out_format desc url ps))
            ≡ some args
          → ok R lib conv ks_name end ≡ false
          → Splits S next_raw out_format desc (texts (v ∷ vs))
          → send_call S next_raw out_format desc P marshal
              (service R lib conv ks_name path_of desc
                (generator (received_all R lib conv ks_name (v ∷ vs) end more))
                now
                elapsed
                ks)
              url
              (params ps)
            ≡ some (outputs (v ∷ vs))
      unfolding send_call post_of
      send_call-packed url ps args v vs end more now elapsed ks other streams understood ended h =
          let post = post_of P marshal out_format desc url ps in
          let accepts : post.accept ≡ codes "application/msgpack" =
            ap (λ b. if b then codes "application/json" else codes "application/msgpack") other in
          let k =
            handle_rpc-frames R lib conv ks_name packed (packed_frame R lib conv ks_name)
              (packed-Frames R lib conv ks_name) desc (request_of path_of post) args (v ∷ vs) end
              more now elapsed ks understood
              (ap (λ a. chosen_format true a desc.default_mime) accepts
                ∙ chosen_format-packed desc.default_mime)
              ended in
          ap (λ o. show_answer S next_raw out_format desc (answer_of o)) k.2
          ∙ reply-shown v vs k.0.writer streams h k.3
