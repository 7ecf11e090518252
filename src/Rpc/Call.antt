-- ===== src/Rpc/Call.antt =====
-- One RPC from its arguments to its response: handleRPC, handleFunction, handleGenerator and
-- ForgivingJSON of kettlingar/service.go. A method is a function that may change the response, which
-- it reaches through its RequestInfo; a generator's goroutine is the sequence of what the service's
-- select receives, and leaves the response alone.
pub mod Status
pub mod Framed
pub mod Sse
pub mod Lines
pub mod Answer
use kettlingar_go.Prelude.{
  ℕ, zero, ◌%◌, Bool, true, false, ◌&&◌, ◌||◌, not, List, [], ◌∷◌, ◌++◌, length, ◌==◌,
  if◌then◌else◌, Bytes, codes, Option, none, some, bytes_eq, negsuc,
}
use kettlingar_go.Dict.{Dict, insert}
use kettlingar_go.Slog.{Level, level_debug, level_error}
use kettlingar_go.Text.Decimal.{decimal}
use kettlingar_go.Text.Search.{contains}
use kettlingar_go.Msgpack.Reader.{Outcome, done, fail}
use kettlingar_go.Msgpack.Convert.{Printers, MsgpackJsonConverter, convert}
use kettlingar_go.Metrics.Registry.{Registries, metrics_count, metrics_sample, u64}
use kettlingar_go.Rpc.Auth.{Request}
use kettlingar_go.Rpc.Method.{MethodDesc}
use kettlingar_go.Rpc.Mime.{
  WriterOp, set_header, write, http_error, flush, Format, chosen_format, mime_headers,
}
use kettlingar_go.Rpc.Response.{
  Reflected, Response, Step, returned, panicked, emit, log_at, refuse, default_code, call_labels,
  measured,
}

module _ (R : Reflected) (lib : Printers) (conv : MsgpackJsonConverter) (ks_name : Bytes) where
  -- What Convert left, or nothing, with the message that is logged.
  abbrev json_of : Outcome → Bytes × List (Level × Bytes)
  json_of (done io) = (io.output, [])
  json_of (fail fault io) =
      ([], (level_error, ks_name ++ codes ": msgpack->json convert failed") ∷ [])

  unfoldable pub forgiving_json : R.V → Bytes × List (Level × Bytes)
  forgiving_json v = elim (R.sorted_msgpack v) [
    | none ↦ ([], (level_error, ks_name ++ codes ": msgpack encode failed") ∷ [])
    | some packed ↦ json_of (convert lib conv packed)
  ]

  -- A value's JSON between two texts, written by as many calls as the code makes.
  unfoldable pub write_json : (Bytes → List WriterOp) → R.V → Response → Response
  unfolding forgiving_json
  write_json ops v r =
      let (json, logs) = forgiving_json v in
      record r { writer = r.writer ++ ops json; logged = r.logged ++ logs }

  unfoldable pub send_rendered : Format → R.V → Response → Step
  unfolding refuse emit
  send_rendered f v r = elim (R.render v) [
    | none ↦ returned (refuse (codes "400 Bad Request: Please request JSON or msgpack") 400 r)
    | some render ↦
        let (mt, text) = render f.accept in
        elim text [
          | none ↦
              returned (refuse (codes "400 Bad Request: Accept requested the impossible") 400 r)
          | some bytes ↦
              returned
                (default_code (emit (set_header (codes "Content-Type") mt ∷ write bytes ∷ []) r))
        ]
  ]

  -- handleFunction once the method has returned.
  unfoldable pub send_results : Format → List R.V → Response → Step
  unfolding emit write_json send_rendered
  send_results f [] r = returned (default_code r)
  send_results f (v ∷ rest) r =
      if f.send_msgpack
      then returned (default_code (emit (write (R.msgpack v) ∷ []) r))
      else if f.send_json
      then returned (default_code (write_json (λ json. write json ∷ []) v r))
      else send_rendered f v r

  -- A method's results, or none where it or reflect's call of it panics, and the response as it
  -- leaves it.
  abbrev pub Function : Type 0
  Function = R.Args → Response → Option (List R.V) × Response

  abbrev pub function_step : Format → Option (List R.V) × Response → Step
  function_step f (none, r) = panicked r
  function_step f (some results, r) = send_results f results r

  unfoldable pub handle_function : MethodDesc → Request → Function → R.Args → Response → Step
  unfolding send_results emit
  handle_function desc req method args r =
      let f = chosen_format false req.accept desc.default_mime in
      function_step f (method args (emit (mime_headers f) r))

  -- reflect.Select over the generator's channel and ctx.Done(), and its `ok`.
  pub data Selected : Type 0 where
    received : R.V → Selected
    channel_closed : Selected
    context_done : Selected

  abbrev pub ok : Selected → Bool
  ok (received v) = true
  ok _ = false

  -- The end of the loop: `if first && ok` answers 204.
  unfoldable pub stop : Bool → Selected → Response → Step
  unfolding refuse
  stop first s r =
      if first && ok s
      then returned (refuse (codes "204 No Content: Channel closed") 204 r)
      else returned r

  -- What is sent for one value; the Boolean says that the loop goes on.
  unfoldable pub send_value : Format → Bool → R.V → Response → Bool × Response
  unfolding refuse emit write_json
  send_value f first v r =
      if f.use_sse
      then (
        true,
        write_json (λ json. write (codes "data: " ++ (json ++ b'\n' ∷ b'\n' ∷ [])) ∷ []) v r,
      )
      else if f.send_msgpack
      then (true, emit (write (R.msgpack v) ∷ []) r)
      else if f.send_json
      then (true, write_json (λ json. write json ∷ write (b'\n' ∷ []) ∷ []) v r)
      else elim (R.render v) [
        | none ↦ (true, r)
        | some render ↦
            let (mt, text) = render f.accept in
            elim text [
              | none ↦
                  if first
                  then (
                    false,
                    refuse (codes "400 Bad Request: Accept requested the impossible") 400 r,
                  )
                  else (true, emit (write [] ∷ []) r)
              | some bytes ↦ (
                true,
                emit
                    ((if first then set_header (codes "Content-Type") mt ∷ [] else [])
                      ++ write bytes ∷ [])
                    r,
              )
            ]
      ]

  -- The loop of handleGenerator over what its rounds select; none while it waits for more.
  -- `can_flush` says that the writer is an http.Flusher; the call on a nil one panics.
  unfoldable pub generator_loop : Format → Bool → Bool → List Selected → Response → Option Step
  unfolding stop send_value emit
  generator_loop f can_flush first [] r = none
  generator_loop f can_flush first (received v ∷ more) r =
      let (on, r') = send_value f first (R.stamp v) r in
      let rest = generator_loop f can_flush false more (default_code (emit (flush ∷ []) r')) in
      if not on then some (returned r') else if can_flush then rest else some (panicked r')
  generator_loop f can_flush first (channel_closed ∷ more) r = some (stop first channel_closed r)
  generator_loop f can_flush first (context_done ∷ more) r = some (stop first context_done r)

  unfoldable pub handle_generator :
      MethodDesc → Request → Bool → List Selected → Response → Option Step
  unfolding generator_loop emit
  handle_generator desc req can_flush selected r =
      let f = chosen_format true req.accept desc.default_mime in
      generator_loop f can_flush true selected (emit (mime_headers f) r)

  -- How the registered Go method behaves.
  pub data Method : Type 0 where
    function : Function → Method
    generator : List Selected → Method

  -- The arguments: zero ones where the body cannot be read or is empty, none where it is not
  -- understood.
  unfoldable pub read_args : MethodDesc → Request → Option R.Args
  read_args desc req = elim desc.args [
    | [] ↦ some R.zero_args
    | a ∷ more ↦ elim req.body [
      | none ↦ some R.zero_args
      | some [] ↦ some R.zero_args
      | some (c ∷ cs) ↦ R.unmarshal (contains req.content_type (codes "msgpack")) (c ∷ cs)
    ]
  ]

  abbrev pub respond : MethodDesc → Request → Bool → Method → Option R.Args → Response → Option Step
  respond desc req can_flush method none r = some (
      returned (
        refuse (codes "400 Bad Request: Invalid Argument Structure") 400
          (log_at level_debug (ks_name ++ codes ": rpc bad request") r)))
  respond desc req can_flush (function method) (some args) r =
      some (handle_function desc req method args r)
  respond desc req can_flush (generator selected) (some args) r =
      handle_generator desc req can_flush selected r

  -- The deferred function, its recover and its answer where no status was set.
  unfoldable pub recovered : Step → Response
  unfolding refuse log_at
  recovered step =
      let failed : Response → Response = λ r.
        log_at level_error (ks_name ++ codes ": rpc handler panic")
          (refuse (codes "503 Internal Server Error") 500 r) in
      elim step [ returned r ↦ if r.http_code == 0 then failed r else r | panicked r ↦ failed r ]

  unfoldable pub logged_call : MethodDesc → Response → Response
  unfolding log_at
  logged_call desc r =
      if bytes_eq desc.name (codes "ping")
      then r
      else log_at level_debug (ks_name ++ codes ": rpc handled") r

  -- The deferred function.
  unfoldable pub finish :
      MethodDesc → ℕ → ℕ → Registries → Option Step → Option (Response × Registries)
  unfolding recovered measured logged_call
  finish desc now elapsed ks none = none
  finish desc now elapsed ks (some step) =
      let r = recovered step in some (logged_call desc r, measured desc now elapsed r ks)

  -- RequestInfo as the handler makes it, behind the first line of the log.
  abbrev pub received_rpc : Response
  received_rpc = record {
    http_code = 0;
    writer = [];
    logged = (negsuc 7, ks_name ++ codes ": rpc received") ∷ [];
  }

  -- handleRPC; none while a generator runs.
  unfoldable pub handle_rpc :
      MethodDesc → Request → Bool → Method → ℕ → ℕ → Registries → Option (Response × Registries)
  unfolding finish read_args handle_function handle_generator refuse log_at
  handle_rpc desc req can_flush method now elapsed ks =
      finish desc now elapsed ks
        (respond desc req can_flush method (read_args desc req) received_rpc)
