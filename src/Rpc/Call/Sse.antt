-- ===== src/Rpc/Call/Sse.antt =====
-- What a generator's values become in an event stream.
use kettlingar_go.Prelude.{◌≡◌, refl, true, List, [], ◌∷◌, ◌++◌, Bytes, codes}
use kettlingar_go.Msgpack.Convert.{Printers, MsgpackJsonConverter}
use kettlingar_go.Rpc.Mime.{WriterOp, write, flush, Format}
use kettlingar_go.Rpc.Response.{Reflected, Response}
use kettlingar_go.Rpc.Call.{forgiving_json, write_json, send_value}
use kettlingar_go.Rpc.Call.Framed.{Frames}

module _ (R : Reflected) (lib : Printers) (conv : MsgpackJsonConverter) (ks_name : Bytes) where
  -- One event of the stream, sent at once.
  abbrev pub event : R.V → List WriterOp
  event v =
      write (codes "data: " ++ ((forgiving_json R lib conv ks_name v).0 ++ b'\n' ∷ b'\n' ∷ []))
      ∷ flush
      ∷ []

  abbrev pub events : List R.V → List WriterOp
  events [] = []
  events (v ∷ vs) = event (R.stamp v) ++ events vs

  abbrev pub sse_frame : R.V → List WriterOp
  sse_frame v =
      write (codes "data: " ++ ((forgiving_json R lib conv ks_name v).0 ++ b'\n' ∷ b'\n' ∷ [])) ∷ []

  pub sse-Frames : (f : Format) → f.use_sse ≡ true → Frames R lib conv ks_name f sse_frame
  unfolding send_value write_json
  sse-Frames f sse = record {
    sends = λ first v r. rw (send_value, sse) refl;
    writes = λ first v r. rw (send_value, sse) refl;
    keeps = λ first v r. rw (send_value, sse) refl;
  }
