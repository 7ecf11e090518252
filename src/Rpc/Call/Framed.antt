-- ===== src/Rpc/Call/Framed.antt =====
-- What a generator's values become on the wire, in any format that writes the same for a value
-- wherever it stands: event streams, lines of JSON and MessagePack.
use kettlingar_go.Prelude.{
  ℕ, ◌≡◌, refl, sym, ap, ◌∙◌, arith, Bool-cases, inl, inr, Bool, true, false, List, [], ◌∷◌, ◌++◌,
  append_assoc, append-nil, if◌then◌else◌, ◌==◌, Bytes, codes, some,
}
use kettlingar_go.Msgpack.Convert.{Printers, MsgpackJsonConverter}
use kettlingar_go.Metrics.Registry.{Registries}
use kettlingar_go.Rpc.Auth.{Request}
use kettlingar_go.Rpc.Method.{MethodDesc}
use kettlingar_go.Rpc.Mime.{WriterOp, flush, http_error, Format, chosen_format, mime_headers}
use kettlingar_go.Rpc.Response.{
  Reflected, Response, returned, emit, log_at, refuse, default_code, measured,
}
use kettlingar_go.Rpc.Call.{
  Selected, received, channel_closed, context_done, stop, send_value, generator_loop,
  handle_generator, generator, read_args, recovered, handle_rpc, finish, received_rpc, ok,
  logged_call,
}
use kettlingar_go.Rpc.Call.Status.{logged_call-code, logged_call-writer}

module _ (R : Reflected) (lib : Printers) (conv : MsgpackJsonConverter) (ks_name : Bytes) where
  -- What select receives: the values, and then the end of the channel or of the request.
  abbrev pub received_all :
      List R.V
      → Selected R lib conv ks_name
      → List (Selected R lib conv ks_name)
      → List (Selected R lib conv ks_name)
  received_all [] end more = end ∷ more
  received_all (v ∷ vs) end more = received v ∷ received_all vs end more

  stop_returned :
      (first : Bool) (s : Selected R lib conv ks_name) (r : Response)
      → ok R lib conv ks_name s ≡ false
      → stop R lib conv ks_name first s r ≡ returned r
  unfolding stop
  stop_returned true s r e = rw e refl
  stop_returned false s r e = refl

  -- A format sends `frame v` for a value, and goes on.
  pub record Frames (f : Format) (frame : R.V → List WriterOp) : Type 0 where
    pub sends :
        (first : Bool) (v : R.V) (r : Response)
        → (send_value R lib conv ks_name f first v r).0 ≡ true
    pub writes :
        (first : Bool) (v : R.V) (r : Response)
        → (send_value R lib conv ks_name f first v r).1.writer ≡ r.writer ++ frame v
    pub keeps :
        (first : Bool) (v : R.V) (r : Response)
        → (send_value R lib conv ks_name f first v r).1.http_code ≡ r.http_code

  abbrev pub last_words : List R.V → List WriterOp
  last_words [] = http_error (codes "503 Internal Server Error") 500 ∷ []
  last_words (v ∷ vs) = []

  abbrev pub stream_code : List R.V → ℕ
  stream_code [] = 500
  stream_code (v ∷ vs) = 200

  recovered-stream :
      (vs : List R.V) (r : Response)
      → r.http_code ≡ elim vs [ [] ↦ 0 | v ∷ rest ↦ 200 ]
      → ((recovered R lib conv ks_name (returned r)).writer ≡ r.writer ++ last_words vs)
        × ((recovered R lib conv ks_name (returned r)).http_code ≡ stream_code vs)
  unfolding recovered refuse log_at
  recovered-stream [] r h = rw h (refl, refl)
  recovered-stream (v ∷ vs) r h = rw h (sym (append-nil r.writer), refl)

  default_code-writer : (r : Response) → (default_code r).writer ≡ r.writer
  default_code-writer r = elim (Bool-cases (r.http_code == 0)) [
    | inl e ↦ rw e refl
    | inr e ↦ rw e refl
  ]

  -- Each frame is flushed when it is written.
  abbrev pub frames : (R.V → List WriterOp) → List R.V → List WriterOp
  frames frame [] = []
  frames frame (v ∷ vs) = (frame (R.stamp v) ++ flush ∷ []) ++ frames frame vs

  module _ (f : Format) (frame : R.V → List WriterOp) (framed : Frames f frame) where
    after_value : Bool → R.V → Response → Response
    after_value first v r =
        default_code (emit (flush ∷ []) (send_value R lib conv ks_name f first v r).1)

    after_value-code :
        (first : Bool) (v : R.V) (r : Response)
        → (after_value first v r).http_code ≡ (if r.http_code == 0 then 200 else r.http_code)
    unfolding after_value emit
    after_value-code first v r = ground (arith, framed.keeps first v r)

    after_value-writer :
        (first : Bool) (v : R.V) (r : Response)
        → (after_value first v r).writer ≡ r.writer ++ (frame v ++ flush ∷ [])
    unfolding after_value emit
    after_value-writer first v r =
        let r' = (send_value R lib conv ks_name f first v r).1 in
        default_code-writer (emit (flush ∷ []) r')
        ∙ ap (λ ops. ops ++ flush ∷ []) (framed.writes first v r)
        ∙ append_assoc r.writer (frame v) (flush ∷ [])

    loop_frames :
        (first : Bool) (vs : List R.V) (end : Selected R lib conv ks_name)
        (more : List (Selected R lib conv ks_name)) (r : Response)
        → ok R lib conv ks_name end ≡ false
        → (r' : Response) × (generator_loop R lib conv ks_name f true first
              (received_all vs end more)
              r
            ≡ some (returned r'))
          × (r'.writer ≡ r.writer ++ frames frame vs)
          × (r'.http_code
              ≡ (if r.http_code == 0 then elim vs [ [] ↦ 0 | v ∷ rest ↦ 200 ] else r.http_code))
    unfolding generator_loop after_value
    loop_frames first [] channel_closed more r e = (
      r,
      ap some (stop_returned first channel_closed r e),
      sym (append-nil r.writer),
      ground arith,
    )
    loop_frames first [] context_done more r e =
        (r, ap some (stop_returned first context_done r e), sym (append-nil r.writer), ground arith)
    loop_frames first [] (received v) more r e = ground arith
    loop_frames first (v ∷ vs) end more r e =
        let r1 = after_value first (R.stamp v) r in
        let k = loop_frames false vs end more r1 e in
        (
          k.0,
          rw (framed.sends first (R.stamp v) r) k.1,
          k.2
              ∙ ap (λ ops. ops ++ frames frame vs) (after_value-writer first (R.stamp v) r)
              ∙ append_assoc r.writer (frame (R.stamp v) ++ flush ∷ []) (frames frame vs),
          k.3 ∙ rw (after_value-code first (R.stamp v) r) (ground arith),
        )

    -- What a generator is answered whose arguments are understood, once its channel is closed or
    -- the request has ended. The writer flushes.
    pub handle_rpc-frames :
        (desc : MethodDesc) (req : Request) (args : R.Args) (vs : List R.V)
        (end : Selected R lib conv ks_name) (more : List (Selected R lib conv ks_name))
        (now elapsed : ℕ) (ks : Registries)
        → read_args R lib conv ks_name desc req ≡ some args
        → chosen_format true req.accept desc.default_mime ≡ f
        → ok R lib conv ks_name end ≡ false
        → (r : Response) × (ks' : Registries) × (handle_rpc R lib conv ks_name desc req true
              (generator (received_all vs end more))
              now
              elapsed
              ks
            ≡ some (r, ks'))
          × (r.writer ≡ mime_headers f ++ (frames frame vs ++ last_words vs))
          × (r.http_code ≡ stream_code vs)
    unfolding handle_rpc finish handle_generator emit
    handle_rpc-frames desc req args vs end more now elapsed ks understood chosen e =
        let k =
          loop_frames true vs end more (emit (mime_headers f) (received_rpc R lib conv ks_name))
            e in
        let answer = recovered R lib conv ks_name (returned k.0) in
        let last = recovered-stream vs k.0 k.3 in
        (
          logged_call R lib conv ks_name desc answer,
          measured desc now elapsed answer ks,
          rw (understood, chosen) (ap (finish R lib conv ks_name desc now elapsed ks) k.1),
          logged_call-writer R lib conv ks_name desc answer
              ∙ last.0
              ∙ rw k.2 (append_assoc (mime_headers f) (frames frame vs) (last_words vs)),
          logged_call-code R lib conv ks_name desc answer ∙ last.1,
        )
