-- ===== src/Msgpack/Truncated.antt =====
-- Streams that end too early: an io.EOF inside an array is taken for the end of the stream.
use kettlingar_go.Prelude.{
  ℕ, zero, suc, ◌-◌, ◌<◌, ◌≡◌, refl, ap, ◌∙◌, arith, Bool, true, false, Bytes, [], ◌++◌, length,
  length-append, append_assoc, codes,
}
use kettlingar_go.Msgpack.Reader.{done, fail, eof, after, print}
use kettlingar_go.Msgpack.Convert.{
  Printers, MsgpackJsonConverter, array_items, decode_array, decode_next, convert_round,
  convert_from, convert,
}
use kettlingar_go.Msgpack.Document.{
  Items, no_items, item, Header, header, Fits, encode, encode_items, count_items, AreLegal, render,
  render_items,
}
use kettlingar_go.Msgpack.RoundTrip.{next-enter, separator, separate, shorter, one, doc-enter}
use kettlingar_go.Msgpack.RoundTrip.Headers.{arr-header}
use kettlingar_go.Msgpack.Stream.{decode_next_end}

-- The separator that stands in front of the element after `xs`.
abbrev pub next_separator : Bool → Items → Bytes
next_separator first no_items = separator first
next_separator first (item d xs) = codes ", "

next_separator-false : (xs : Items) → next_separator false xs ≡ codes ", "
next_separator-false no_items = refl
next_separator-false (item d xs) = refl

module _ (lib : Printers) (c : MsgpackJsonConverter) where
  items_short :
      (xs : Items) (left fuel : ℕ) (first : Bool) (out : Bytes)
      → length (encode_items xs) < fuel
      → AreLegal xs
      → count_items xs < left
      → array_items lib c
          (decode_next lib c fuel)
          first
          left
          (record { input = encode_items xs; output = out })
        ≡ fail eof (record {
          input = [];
          output = out ++ (render_items lib c first xs ++ next_separator first xs);
        })
  unfolding array_items encode_items AreLegal render_items
  items_short xs zero fuel first out f h lt = elim lt [ ]
  items_short no_items (suc left) fuel first out f h lt =
      ap (λ o. after o (array_items lib c (decode_next lib c fuel) false left))
        (ap (decode_next lib c fuel) (separate lib c first [] out)
          ∙ decode_next_end lib c fuel (out ++ separator first) (omega arith))
  items_short (item d xs) (suc left) fuel first out f h lt =
      let len = length-append (encode d) (encode_items xs) in
      let out' = (out ++ separator first) ++ render lib c d in
      ap (λ o. after o (array_items lib c (decode_next lib c fuel) false left))
        (one lib c first (encode d ++ encode_items xs) (encode_items xs) out (render lib c d) fuel
          (omega arith)
          (doc-enter lib c d (fuel - 1) (encode_items xs) (out ++ separator first)
            (omega (arith, len)) h.0))
      ∙ items_short xs left fuel false out' (omega (arith, len)) h.1 (omega arith)
      ∙ rw (next_separator-false xs) (simp append_assoc)

  decode_array_short :
      (h : Header) (left : ℕ) (xs : Items) (fuel : ℕ)
      → Fits 16 0 h left
      → AreLegal xs
      → count_items xs < left
      → length (header 0x90 0 0xdc 0xdd h left ++ encode_items xs) < fuel
      → decode_next lib c fuel
          (record { input = header 0x90 0 0xdc 0xdd h left ++ encode_items xs; output = [] })
        ≡ fail eof (record {
          input = [];
          output = codes "[" ++ (render_items lib c true xs ++ next_separator true xs);
        })
  unfolding decode_array
  decode_array_short h left xs fuel fits legal lt f =
      next-enter lib c fuel _ [] (omega arith)
      ∙ arr-header lib c (decode_next lib c (fuel - 1)) h left (encode_items xs) [] fits
      ∙ ap (λ o. after o (λ io. done (print (codes "]") io)))
          (items_short xs left (fuel - 1) true (codes "[")
            (shorter 0x90 0 0xdc 0xdd h left (encode_items xs) (fuel - 1) (omega arith)) legal lt)

  -- A stream that announces `left` elements and ends after fewer, between two elements, is not an
  -- error to Convert: it returns nil, having written the open array and the elements that came.
  pub convert_truncated :
      (h : Header) (left : ℕ) (xs : Items)
      → Fits 16 0 h left
      → AreLegal xs
      → count_items xs < left
      → convert lib c (header 0x90 0 0xdc 0xdd h left ++ encode_items xs)
        ≡ done (record {
          input = [];
          output = codes "[" ++ (render_items lib c true xs ++ next_separator true xs);
        })
  unfolding convert convert_from convert_round
  convert_truncated h left xs fits legal lt =
      let stream = header 0x90 0 0xdc 0xdd h left ++ encode_items xs in
      rw (decode_array_short h left xs (suc (length stream)) fits legal lt (omega arith)) refl
