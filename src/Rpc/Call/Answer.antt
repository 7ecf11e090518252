-- ===== src/Rpc/Call/Answer.antt =====
-- The status of a call of a method that is no generator.
use kettlingar_go.Prelude.{
  ℕ, ◌≡◌, inl, inr, refl, ap, ◌∙◌, arith, Option-cases, Bool, true, false, List, [], ◌∷◌,
  if◌then◌else◌, Bytes, Option, none, some,
}
use kettlingar_go.Msgpack.Convert.{Printers, MsgpackJsonConverter}
use kettlingar_go.Metrics.Registry.{Registries}
use kettlingar_go.Rpc.Auth.{Request}
use kettlingar_go.Rpc.Method.{MethodDesc}
use kettlingar_go.Rpc.Mime.{Format, chosen_format, mime_headers}
use kettlingar_go.Rpc.Response.{Reflected, Response, Step, emit, log_at, refuse, measured}
use kettlingar_go.Rpc.Call.{
  send_rendered, send_results, Function, handle_function, function, read_args, recovered,
  logged_call, handle_rpc, write_json, finish, respond, received_rpc, function_step,
}
use kettlingar_go.Rpc.Call.Status.{logged_call-code}

module _ (R : Reflected) (lib : Printers) (conv : MsgpackJsonConverter) (ks_name : Bytes) where
  -- Whether a result can be sent in the format: a method that returns nothing needs no format.
  abbrev pub sendable : Format → List R.V → Bool
  sendable f [] = true
  sendable f (v ∷ rest) =
      if f.send_msgpack then true else if f.send_json then true else elim (R.render v) [
        | none ↦ false
        | some render ↦ elim (render f.accept).1 [ none ↦ false | some bytes ↦ true ]
      ]

  -- The status by what the method returns, none for a panic.
  abbrev pub status_of : Format → Option (List R.V) → ℕ
  status_of f none = 500
  status_of f (some results) = if sendable f results then 200 else 400

  abbrev pub call_status : MethodDesc → Request → (R.Args → Option (List R.V)) → ℕ
  call_status desc req outcome = elim (read_args R lib conv ks_name desc req) [
    | none ↦ 400
    | some args ↦ status_of (chosen_format false req.accept desc.default_mime) (outcome args)
  ]

  -- The method returns `outcome` and does not set the status.
  abbrev pub Keeps : Function R lib conv ks_name → (R.Args → Option (List R.V)) → Type 0
  Keeps method outcome =
      (args : R.Args) (r : Response)
      → ((method args r).0 ≡ outcome args) × ((method args r).1.http_code ≡ r.http_code)

  send_rendered-status :
      (f : Format) (v : R.V) (rest : List R.V) (r : Response)
      → r.http_code ≡ 0
      → f.send_msgpack ≡ false
      → f.send_json ≡ false
      → (recovered R lib conv ks_name (send_rendered R lib conv ks_name f v r)).http_code
        ≡ (if sendable f (v ∷ rest) then 200 else 400)
  unfolding send_rendered recovered refuse emit
  send_rendered-status f v rest r h m j = elim (Option-cases (R.render v)) [
    | inl e ↦ ground (arith, e)
    | inr (render, e) ↦ elim (Option-cases (render f.accept).1) [
      | inl e' ↦ ground (arith, e, e')
      | inr (bytes, e') ↦ ground (arith, e, e')
    ]
  ]

  send_results-status :
      (f : Format) (vs : List R.V) (r : Response)
      → r.http_code ≡ 0
      → (recovered R lib conv ks_name (send_results R lib conv ks_name f vs r)).http_code
        ≡ status_of f (some vs)
  unfolding send_results recovered emit write_json
  send_results-status f [] r h = ground arith
  send_results-status f (v ∷ vs) r h = ground (arith, send_rendered-status f v vs r h)

  function-status :
      (f : Format) (results : Option (List R.V) × Response)
      → results.1.http_code ≡ 0
      → (recovered R lib conv ks_name (function_step R lib conv ks_name f results)).http_code
        ≡ status_of f results.0
  unfolding recovered refuse log_at
  function-status f (none, r) h = refl
  function-status f (some vs, r) h = send_results-status f vs r h

  respond-status :
      (desc : MethodDesc) (req : Request) (can_flush : Bool) (method : Function R lib conv ks_name)
      (outcome : R.Args → Option (List R.V)) (o : Option R.Args)
      → Keeps method outcome
      → (s : Step) × (respond R lib conv ks_name desc req can_flush
            (function method)
            o
            (received_rpc R lib conv ks_name)
          ≡ some s)
        × ((recovered R lib conv ks_name s).http_code ≡ elim o [
          | none ↦ 400
          | some args ↦ status_of (chosen_format false req.accept desc.default_mime) (outcome args)
        ])
  unfolding handle_function recovered refuse log_at emit
  respond-status desc req can_flush method outcome none keeps = (_, refl, refl)
  respond-status desc req can_flush method outcome (some args) keeps =
      let f = chosen_format false req.accept desc.default_mime in
      let start = emit (mime_headers f) (received_rpc R lib conv ks_name) in
      (
        _,
        refl,
        function-status f (method args start) (keeps args start).1
            ∙ ap (status_of f) (keeps args start).0,
      )

  -- A method that is no generator and leaves RequestInfo.HttpCode alone always gets an answer. Its
  -- status is 400 where the arguments are not understood, 500 where the method panics, 400 where
  -- its result can be sent in no format that the caller accepts, and 200 otherwise.
  pub handle_rpc-status :
      (desc : MethodDesc) (req : Request) (can_flush : Bool) (method : Function R lib conv ks_name)
      (outcome : R.Args → Option (List R.V)) (now elapsed : ℕ) (ks : Registries)
      → Keeps method outcome
      → (r : Response) × (ks' : Registries) × (handle_rpc R lib conv ks_name desc req can_flush
            (function method)
            now
            elapsed
            ks
          ≡ some (r, ks'))
        × (r.http_code ≡ call_status desc req outcome)
  unfolding handle_rpc finish
  handle_rpc-status desc req can_flush method outcome now elapsed ks keeps =
      let args = read_args R lib conv ks_name desc req in
      let e = respond-status desc req can_flush method outcome args keeps in
      let r = recovered R lib conv ks_name e.0 in
      (
        logged_call R lib conv ks_name desc r,
        measured desc now elapsed r ks,
        ap (finish R lib conv ks_name desc now elapsed ks) e.1,
        logged_call-code R lib conv ks_name desc r ∙ e.2,
      )
