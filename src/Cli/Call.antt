-- ===== src/Cli/Call.antt =====
-- doCall of kettlingar/default_main.go from its request on: what is asked of the service, and what is
-- shown of its answer. The http client and the decoder of MessagePack streams are parameters.
pub mod Wire
pub mod Streams
use kettlingar_go.Prelude.{
  ℕ, zero, suc, Bool, true, false, not, List, [], ◌∷◌, ◌++◌, ltb, length, ◌==◌, if◌then◌else◌,
  Bytes, bytes_eq, codes, Option, none, some,
}
use kettlingar_go.Dict.{Dict}
use kettlingar_go.Text.Search.{contains, has_prefix, trim_prefix, split}
use kettlingar_go.Text.Space.{trim_space}
use kettlingar_go.Rpc.Method.{MethodDesc}
use kettlingar_go.Cli.Output.{Out, stdout, stderr, Shown, print_output}
use kettlingar_go.Cli.Values.{Parsers, Param, Params, bad_flag, params}

pub record Post : Type 0 where
  pub url : Bytes
  pub content_type : Bytes
  pub accept : Bytes
  pub payload : Bytes

-- A body, and whether reading it ends with io.EOF.
pub record Reply : Type 0 where
  pub content_type : Bytes
  pub body : Bytes
  pub ends_well : Bool

pub data Answer : Type 0 where
  no_answer : Bytes → Answer
  answered : Reply → Answer

-- One round of msgpack.Decoder.Decode into a RawMessage: the bytes of one value and the rest.
pub data Raw : Type 0 where
  raw : Bytes → Bytes → Raw
  raw_error : Bytes → Raw

-- bufio.Scanner with ScanLines and a buffer of at most `max_token` bytes. A line that does not fit
-- ends the scan, and doCall does not ask for the error.
abbrev pub max_token : ℕ
max_token = 8388608

abbrev pub nonempty_line : Bytes → List Bytes
nonempty_line [] = []
nonempty_line (c ∷ l) = (c ∷ l) ∷ []

abbrev pub keep_line : Bytes → List Bytes → List Bytes → List Bytes
keep_line l [] rest = nonempty_line l
keep_line l (k ∷ ks) rest = l ∷ rest

-- An empty text behind the last newline is no line.
abbrev pub raw_lines : List Bytes → List Bytes
raw_lines [] = []
raw_lines (l ∷ ls) = keep_line l ls (raw_lines ls)

abbrev pub drop_cr : ℕ → Bytes → Bytes
drop_cr c [] = if c == b'\r' then [] else c ∷ []
drop_cr c (d ∷ l) = c ∷ drop_cr d l

abbrev pub without_cr : Bytes → Bytes
without_cr [] = []
without_cr (c ∷ l) = drop_cr c l

abbrev pub scanned : List Bytes → List Bytes
scanned [] = []
scanned (l ∷ ls) =
    let rest = scanned ls in if ltb (length l) max_token then without_cr l ∷ rest else []

unfoldable pub scan_lines : Bytes → List Bytes
scan_lines body = scanned (raw_lines (split b'\n' body))

unfoldable pub accept_of : Bytes → Bytes
accept_of out_format =
    if bytes_eq out_format (codes "json")
    then codes "application/json"
    else codes "application/msgpack"

unfoldable pub post_of :
    (P : Parsers) (marshal : Dict (Param P) → Bytes)
    → Bytes
    → MethodDesc
    → Bytes
    → Dict (Param P)
    → Post
unfolding accept_of
post_of P marshal out_format m url ps = record {
  url = url ++ codes "/" ++ m.name;
  content_type = codes "application/msgpack";
  accept = accept_of out_format;
  payload = marshal ps;
}

module _ (S : Shown) (next_raw : Bytes → Option Raw) (out_format : Bytes) (m : MethodDesc) where
  abbrev pub show : Bytes → Bytes → List Out
  show text content_type = print_output S out_format m text content_type

  -- `next_raw` is none for io.EOF. The result is none where the fuel is used up.
  unfoldable pub raw_loop : ℕ → Bytes → Bytes → Option (List Out)
  unfolding print_output
  raw_loop zero mime body = none
  raw_loop (suc fuel) mime body = elim (next_raw body) [
    | none ↦ some []
    | some (raw_error e) ↦ some (stdout (codes "Read error: " ++ e ++ b'\n' ∷ []) ∷ [])
    | some (raw text rest) ↦ elim (raw_loop fuel mime rest) [
      | none ↦ none
      | some outs ↦ some (show text mime ++ outs)
    ]
  ]

  -- The event stream.
  unfoldable pub event_lines : List Bytes → List Out
  unfolding print_output
  event_lines [] = []
  event_lines (l ∷ ls) =
      let rest = event_lines ls in
      if has_prefix l (codes "data: ")
      then show (trim_prefix l (codes "data: ")) (codes "application/json") ++ rest
      else rest

  abbrev pub unless_blank : Bytes → Bytes → Bytes → List Out → List Out
  unless_blank [] l mime rest = rest
  unless_blank (c ∷ s) l mime rest = show l mime ++ rest

  -- Lines of JSON, or of any other text.
  unfoldable pub text_lines : Bytes → List Bytes → List Out
  unfolding print_output trim_space
  text_lines mime [] = []
  text_lines mime (l ∷ ls) = unless_blank (trim_space l) l mime (text_lines mime ls)

  unfoldable pub show_stream : Reply → Option (List Out)
  unfolding raw_loop event_lines text_lines scan_lines
  show_stream r =
      if contains r.content_type (codes "msgpack")
      then raw_loop (suc (length r.body)) r.content_type r.body
      else if contains r.content_type (codes "event-stream")
      then some (event_lines (scan_lines r.body))
      else some (text_lines r.content_type (scan_lines r.body))

  abbrev pub show_reply : Reply → Option (List Out)
  show_reply r =
      if m.is_generator
      then show_stream r
      else if r.ends_well
      then some (show r.body r.content_type)
      else some (stderr (codes "Error reading") ∷ [])

  abbrev pub show_answer : Answer → Option (List Out)
  show_answer (no_answer e) = some (stdout (codes "Error: " ++ e ++ b'\n' ∷ []) ∷ [])
  show_answer (answered r) = show_reply r

  -- doCall behind the loop over the arguments. The text of a parse error is left out.
  unfoldable pub send_call :
      (P : Parsers) (marshal : Dict (Param P) → Bytes) (do_post : Post → Answer)
      → Bytes
      → Params P
      → Option (List Out)
  unfolding post_of show_stream print_output
  send_call P marshal do_post url (bad_flag flag) =
      some (stderr (codes "Error: flag --" ++ flag ++ b'\n' ∷ []) ∷ [])
  send_call P marshal do_post url (params ps) =
      show_answer (do_post (post_of P marshal out_format m url ps))
