-- ===== src/Metrics/Labels/Escape.antt =====
-- A reader of the exposition format gets back the value that was escaped.
use kettlingar_go.Prelude.{
  ℕ, ◌≡◌, ◌≢◌, ◌∙◌, arith, Bool, true, false, [], ◌∷◌, ◌++◌, ◌==◌, if◌then◌else◌, Bytes, Option,
  none, some, All, All-append, append_assoc, append-nil,
}
use kettlingar_go.Metrics.Labels.{escape_byte, escape_label}

-- Reads a quoted label value up to its closing quote: the value and what is behind the quote.
-- The flag says that the byte before was a backslash that opens an escape.
abbrev pub read_value : Bool → Bytes → Bytes → Option (Bytes × Bytes)
read_value escaped got [] = none
read_value true got (c ∷ cs) = read_value false (got ++ (if c == b'n' then b'\n' else c) ∷ []) cs
read_value false got (c ∷ cs) =
    let stop = read_value true got cs in
    let copy = read_value false (got ++ c ∷ []) cs in
    if c == b'"' then some (got, cs) else if c == b'\\' then stop else copy

read-escape_byte :
    (c : ℕ) (got rest : Bytes)
    → read_value false got (escape_byte c ++ rest) ≡ read_value false (got ++ c ∷ []) rest
read-escape_byte c got rest = ground arith

read-escape_label :
    (v got rest : Bytes)
    → read_value false got (escape_label v ++ (b'"' ∷ rest)) ≡ some (got ++ v, rest)
unfolding escape_label
read-escape_label [] got rest = rw append-nil
read-escape_label (c ∷ v) got rest =
    rw append_assoc (read-escape_byte c got (escape_label v ++ (b'"' ∷ rest)))
    ∙ read-escape_label v (got ++ c ∷ []) rest
    ∙ rw append_assoc

escape_byte_no_newline : (c : ℕ) → All (λ d. d ≢ b'\n') (escape_byte c)
escape_byte_no_newline c = ground arith

no_newline : (v : Bytes) → All (λ c. c ≢ b'\n') (escape_label v)
unfolding escape_label
no_newline [] = tt
no_newline (c ∷ v) =
    All-append _ (escape_byte c) (escape_label v) (escape_byte_no_newline c) (no_newline v)

-- An escaped value holds no newline, and a reader that takes it up to its closing quote gets the
-- value that was escaped and goes on behind the quote.
pub escape_label-read_value :
    (v rest : Bytes)
    → All (λ c. c ≢ b'\n') (escape_label v)
      × (read_value false [] (escape_label v ++ (b'"' ∷ rest)) ≡ some (v, rest))
escape_label-read_value v rest = (no_newline v, read-escape_label v [] rest)
