-- ===== src/Msgpack/Stream.antt =====
-- Convert on whole streams: documents in a row, and an array that is cut short.
use kettlingar_go.Prelude.{
  ℕ, zero, suc, ◌<◌, ◌≡◌, refl, ◌∙◌, arith, Bytes, List, [], ◌∷◌, ◌++◌, length, length-append,
  append_assoc, append-nil, codes, All,
}
use kettlingar_go.Msgpack.Reader.{done, fail, eof}
use kettlingar_go.Msgpack.Convert.{
  Printers, MsgpackJsonConverter, decode_next, convert_from, convert,
}
use kettlingar_go.Msgpack.Document.{Doc, encode, IsLegal, render}
use kettlingar_go.Msgpack.RoundTrip.{decode_next-encode, encode_pos}

abbrev pub wire : List Doc → Bytes
wire [] = []
wire (d ∷ ds) = encode d ++ wire ds

module _ (lib : Printers) (c : MsgpackJsonConverter) where
  -- One line for each document.
  abbrev pub lines : List Doc → Bytes
  lines [] = []
  lines (d ∷ ds) = render lib c d ++ (codes "\n" ++ lines ds)

  pub decode_next_end :
      (fuel : ℕ) (out : Bytes)
      → 0 < fuel
      → decode_next lib c fuel (record { input = []; output = out })
        ≡ fail eof (record { input = []; output = out })
  unfolding decode_next
  decode_next_end zero out h = elim h [ ]
  decode_next_end (suc fuel) out h = refl

  convert_from-wire :
      (ds : List Doc) (depth rounds : ℕ) (out : Bytes)
      → length (wire ds) < depth
      → length (wire ds) < rounds
      → All IsLegal ds
      → convert_from lib c depth rounds (record { input = wire ds; output = out })
        ≡ done (record { input = []; output = out ++ lines ds })
  unfolding convert_from
  convert_from-wire [] depth zero out f r h = elim r [ ]
  convert_from-wire [] depth (suc rounds) out f r h =
      rw (decode_next_end depth out f, append-nil) refl
  convert_from-wire (d ∷ ds) depth zero out f r h = elim r [ ]
  convert_from-wire (d ∷ ds) depth (suc rounds) out f r h =
      let len = length-append (encode d) (wire ds) in
      rw (decode_next-encode lib c d depth (wire ds) out (omega (arith, len)) h.0) (
        convert_from-wire ds depth rounds ((out ++ render lib c d) ++ codes "\n")
          (omega (arith, len)) (omega (arith, len, encode_pos d)) h.1
        ∙ simp append_assoc)

  -- Convert writes each legal document of a stream on a line of its own, and returns nil.
  pub convert-wire :
      (ds : List Doc)
      → All IsLegal ds
      → convert lib c (wire ds) ≡ done (record { input = []; output = lines ds })
  unfolding convert
  convert-wire ds h =
      convert_from-wire ds (suc (length (wire ds))) (suc (length (wire ds))) [] (omega arith)
        (omega arith) h
