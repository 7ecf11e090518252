-- ===== src/Client.antt =====
-- MakeClient of kettlingar/client.go: the endpoints of a client's function fields, and a call of one.
-- Reflection, the encoder and the decoder of MessagePack, and the http client are parameters.
pub mod Loop
use kettlingar_go.Prelude.{
  ℕ, zero, suc, Bool, true, false, List, [], ◌∷◌, ◌++◌, ◌==◌, if◌then◌else◌, length, Bytes, codes,
  Option, none, some,
}
use kettlingar_go.Text.Dashed.{Unicode, dashed_name}
use kettlingar_go.Cli.Call.{Post, Answer, no_answer, answered}

-- A field of the client's struct, and whether it is a function.
pub record ClientField : Type 0 where
  pub field_name : Bytes
  pub is_func : Bool

-- strings.TrimSuffix(url, "/")
unfoldable pub trim_slash : Bytes → Bytes
trim_slash [] = []
trim_slash (c ∷ []) = if c == b'/' then [] else c ∷ []
trim_slash (c ∷ d ∷ s) = c ∷ trim_slash (d ∷ s)

unfoldable pub endpoint_of : Bytes → Bytes → Bytes
unfolding trim_slash
endpoint_of url method_name = trim_slash url ++ (codes "/" ++ method_name)

-- For each field its endpoint; none for a field that is left as it is.
unfoldable pub make_client : Unicode → Bytes → List ClientField → List (Option Bytes)
unfolding endpoint_of
make_client U url [] = []
make_client U url (f ∷ fields) =
    (if f.is_func then some (endpoint_of url (dashed_name U f.field_name)) else none)
    ∷ make_client U url fields

-- Decode into a new value: io.EOF, another error, or a value, the latter two with what the decoder
-- has left to read.
pub data NextValue {ℓ} (V : Type ℓ) : Type ℓ where
  at_eof : NextValue V
  bad : Bytes → NextValue V
  value : V → Bytes → NextValue V

pub record Decoder : Type 1 where
  pub V : Type 0
  pub zero_value : V
  pub next : Bytes → NextValue V

unfoldable pub post_to : Bytes → Bytes → Post
post_to endpoint payload = record {
  url = endpoint;
  content_type = codes "application/msgpack";
  accept = codes "application/msgpack";
  payload = payload;
}

module _ (D : Decoder) where
  -- The values that are sent on the channel until it is closed; none where the fuel is used up.
  unfoldable pub stream_loop : ℕ → Bytes → Option (List D.V)
  stream_loop zero body = none
  stream_loop (suc fuel) body = elim (D.next body) [
    | at_eof ↦ some []
    | bad rest ↦ stream_loop fuel rest
    | value v rest ↦ elim (stream_loop fuel rest) [ none ↦ none | some vs ↦ some (v ∷ vs) ]
  ]

  pub data CallResult : Type 0 where
    panicked : Bytes → CallResult
    streamed : Option (List D.V) → CallResult
    returned : D.V → CallResult

  -- The error of the one Decode is dropped.
  abbrev pub decode_one : NextValue D.V → D.V
  decode_one (value v rest) = v
  decode_one (bad rest) = D.zero_value
  decode_one at_eof = D.zero_value

  abbrev pub answer_to : Bytes → Bytes → Bool → Answer → CallResult
  answer_to name method_name is_streaming (no_answer e) =
      panicked (name ++ codes ": " ++ method_name ++ codes " call failed: " ++ e)
  answer_to name method_name true (answered r) = streamed (stream_loop (suc (length r.body)) r.body)
  answer_to name method_name false (answered r) = returned (decode_one (D.next r.body))

  -- A call of a function field; `is_streaming` is for one whose first argument is a channel.
  unfoldable pub client_call :
      (do_post : Post → Answer) → Bytes → Bytes → Bytes → Bool → Bytes → CallResult
  unfolding post_to endpoint_of stream_loop
  client_call do_post name url method_name is_streaming payload =
      answer_to name method_name is_streaming
        (do_post (post_to (endpoint_of url method_name) payload))
