-- ===== src/EndToEnd/Lines.antt =====
-- A generator that is called for lines of JSON.
use kettlingar_go.Prelude.{
  ℕ, ◌≡◌, refl, ap, ap₂, ◌∙◌, arith, true, false, All, List, [], ◌∷◌, ◌++◌, append_assoc,
  append-nil, map, Bytes, codes, Option, some,
}
use kettlingar_go.Dict.{Dict}
use kettlingar_go.Text.Search.{Lacks}
use kettlingar_go.Msgpack.Convert.{Printers, MsgpackJsonConverter}
use kettlingar_go.Metrics.Registry.{Registries}
use kettlingar_go.Rpc.Method.{MethodDesc}
use kettlingar_go.Rpc.Mime.{WriterOp, mime_headers}
use kettlingar_go.Rpc.Response.{Reflected}
use kettlingar_go.Rpc.Call.{forgiving_json, generator, Selected, read_args, ok}
use kettlingar_go.Rpc.Call.Framed.{received_all, frames, last_words, handle_rpc-frames}
use kettlingar_go.Rpc.Call.Lines.{
  json_lines, line_frame, json_lines-Frames, chosen_format-json_lines,
}
use kettlingar_go.Cli.Output.{Out, stdout, Shown, trim_line, keep_end, print_output}
use kettlingar_go.Cli.Values.{Parsers, Param, params}
use kettlingar_go.Cli.Call.{
  Raw, scan_lines, text_lines, show_reply, show_answer, show_stream, send_call, post_of,
}
use kettlingar_go.Cli.Call.Wire.{body_of, reply_of}
use kettlingar_go.Cli.Call.Streams.{IsLine, body_lines, flat, text_lines-body_lines}
use kettlingar_go.EndToEnd.{request_of, answer_of, service}

trim_line-lacking : (l : Bytes) → Lacks b'\n' l → Lacks b'\r' l → trim_line l ≡ l
unfolding trim_line
trim_line-lacking [] h g = refl
trim_line-lacking (c ∷ l) h g = ap (keep_end c) (trim_line-lacking l h.1 g.1) ∙ kept l
  where
    kept : (t : Bytes) → keep_end c t ≡ c ∷ t
    kept [] = ground (arith, h.0, g.0)
    kept (d ∷ t) = refl

module _ (R : Reflected) (lib : Printers) (conv : MsgpackJsonConverter) (ks_name : Bytes) where
  -- The JSON of a value is one line.
  abbrev pub HasLine : (R.V → Bytes) → R.V → Type 0
  HasLine line v =
      ((forgiving_json R lib conv ks_name (R.stamp v)).0 ≡ line v ++ b'\n' ∷ []) × IsLine (line v)

  lines-IsLine :
      (line : R.V → Bytes) (vs : List R.V) → All (HasLine line) vs → All IsLine (map line vs)
  lines-IsLine line [] h = tt
  lines-IsLine line (v ∷ vs) h = (h.0.1, lines-IsLine line vs h.1)

  body_of-lines :
      (line : R.V → Bytes) (vs : List R.V)
      → All (HasLine line) vs
      → body_of (frames R lib conv ks_name (line_frame R lib conv ks_name) vs)
        ≡ body_lines (map line vs)
  unfolding body_of
  body_of-lines line [] h = refl
  body_of-lines line (v ∷ vs) h =
      let body = body_of (frames R lib conv ks_name (line_frame R lib conv ks_name) vs) in
      ap (λ j. j ++ b'\n' ∷ body) h.0.0
      ∙ append_assoc (line v) (b'\n' ∷ []) (b'\n' ∷ body)
      ∙ ap (λ b. line v ++ b'\n' ∷ b'\n' ∷ b) (body_of-lines line vs h.1)

  -- The lines on stdout, one for each value.
  abbrev pub printed : (R.V → Bytes) → List R.V → List Out
  printed line vs = map (λ v. stdout (line v ++ b'\n' ∷ [])) vs

  module _ (S : Shown) (next_raw : Bytes → Option Raw) (desc : MethodDesc) where
    shown-printed :
        (line : R.V → Bytes) (vs : List R.V)
        → All (HasLine line) vs
        → flat (λ l. print_output S (codes "json") desc l (codes "application/json")) (map line vs)
          ≡ printed line vs
    unfolding print_output
    shown-printed line [] h = refl
    shown-printed line (v ∷ vs) h =
        ap₂ (λ l outs. stdout (l ++ b'\n' ∷ []) ∷ outs)
          (trim_line-lacking (line v) h.0.1.one h.0.1.no_cr) (shown-printed line vs h.1)

    reply-printed :
        (line : R.V → Bytes) (v : R.V) (vs : List R.V) (ops : List WriterOp)
        → desc.is_generator ≡ true
        → All (HasLine line) (v ∷ vs)
        → ops
          ≡ mime_headers json_lines
            ++ (frames R lib conv ks_name (line_frame R lib conv ks_name) (v ∷ vs)
                ++ last_words R lib conv ks_name (v ∷ vs))
        → show_reply S next_raw (codes "json") desc (reply_of ops) ≡ some (printed line (v ∷ vs))
    unfolding reply_of mime_headers show_stream
    reply-printed line v vs ops streams h e =
        let body = frames R lib conv ks_name (line_frame R lib conv ks_name) (v ∷ vs) in
        ap (λ o. show_reply S next_raw (codes "json") desc (reply_of o)) e
        ∙ rw streams refl
        ∙ ap
            (λ b.
              some (
                text_lines S next_raw (codes "json") desc (codes "application/json")
                  (scan_lines b)))
            (ap body_of (append-nil body) ∙ body_of-lines line (v ∷ vs) h)
        ∙ ap some (
            text_lines-body_lines S next_raw (codes "json") desc (codes "application/json")
              (map line (v ∷ vs)) (lines-IsLine line (v ∷ vs) h)
            ∙ shown-printed line (v ∷ vs) h)

    module _ (P : Parsers) (marshal : Dict (Param P) → Bytes) (path_of : Bytes → Bytes) where
      -- A generator that is called with -f json, whose arguments are understood and that sends at least
      -- one value before its channel is closed or the request ends: the command line prints exactly
      -- one line on stdout for each value, in their order, with the JSON of the value. The JSON of
      -- each is a line that is not blank and shorter than 8 MiB.
      pub send_call-json :
          (url : Bytes) (ps : Dict (Param P)) (args : R.Args) (line : R.V → Bytes) (v : R.V)
          (vs : List R.V) (end : Selected R lib conv ks_name)
          (more : List (Selected R lib conv ks_name)) (now elapsed : ℕ) (ks : Registries)
          → desc.is_generator ≡ true
          → read_args R lib conv ks_name desc
              (request_of path_of (post_of P marshal (codes "json") desc url ps))
            ≡ some args
          → ok R lib conv ks_name end ≡ false
          → All (HasLine line) (v ∷ vs)
          → send_call S next_raw
              (codes "json")
              desc
              P
              marshal
              (service R lib conv ks_name path_of desc
                (generator (received_all R lib conv ks_name (v ∷ vs) end more))
                now
                elapsed
                ks)
              url
              (params ps)
            ≡ some (printed line (v ∷ vs))
      unfolding send_call post_of
      send_call-json url ps args line v vs end more now elapsed ks streams understood ended h =
          let post = post_of P marshal (codes "json") desc url ps in
          let k =
            handle_rpc-frames R lib conv ks_name json_lines (line_frame R lib conv ks_name)
              (json_lines-Frames R lib conv ks_name) desc (request_of path_of post) args (v ∷ vs)
              end more now elapsed ks understood (chosen_format-json_lines desc.default_mime)
              ended in
          ap (λ o. show_answer S next_raw (codes "json") desc (answer_of o)) k.2
          ∙ reply-printed line v vs k.0.writer streams h k.3
