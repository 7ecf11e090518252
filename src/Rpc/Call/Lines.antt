-- ===== src/Rpc/Call/Lines.antt =====
-- A generator's values as lines of JSON and as a MessagePack stream, to a caller that asks for one
-- of these by its Accept header.
use kettlingar_go.Prelude.{◌≡◌, refl, true, false, List, [], ◌∷◌, Bytes, codes}
use kettlingar_go.Msgpack.Convert.{Printers, MsgpackJsonConverter}
use kettlingar_go.Rpc.Mime.{WriterOp, write, Format, chosen_format}
use kettlingar_go.Rpc.Response.{Reflected, emit}
use kettlingar_go.Rpc.Call.{forgiving_json, write_json, send_value}
use kettlingar_go.Rpc.Call.Framed.{Frames}

abbrev pub json_lines : Format
json_lines = record {
  accept = codes "application/json";
  use_sse = false;
  send_json = true;
  send_msgpack = false;
}

abbrev pub packed : Format
packed = record {
  accept = codes "application/msgpack";
  use_sse = false;
  send_json = false;
  send_msgpack = true;
}

pub chosen_format-json_lines :
    (default_mime : Bytes) → chosen_format true (codes "application/json") default_mime ≡ json_lines
unfolding chosen_format
chosen_format-json_lines default_mime = refl

pub chosen_format-packed :
    (default_mime : Bytes) → chosen_format true (codes "application/msgpack") default_mime ≡ packed
unfolding chosen_format
chosen_format-packed default_mime = refl

module _ (R : Reflected) (lib : Printers) (conv : MsgpackJsonConverter) (ks_name : Bytes) where
  abbrev pub line_frame : R.V → List WriterOp
  line_frame v = write (forgiving_json R lib conv ks_name v).0 ∷ write (b'\n' ∷ []) ∷ []

  abbrev pub packed_frame : R.V → List WriterOp
  packed_frame v = write (R.msgpack v) ∷ []

  pub json_lines-Frames : Frames R lib conv ks_name json_lines line_frame
  unfolding send_value write_json
  json_lines-Frames = record {
    sends = λ first v r. refl;
    writes = λ first v r. refl;
    keeps = λ first v r. refl;
  }

  pub packed-Frames : Frames R lib conv ks_name packed packed_frame
  unfolding send_value emit
  packed-Frames = record {
    sends = λ first v r. refl;
    writes = λ first v r. refl;
    keeps = λ first v r. refl;
  }
