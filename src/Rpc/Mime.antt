-- ===== src/Rpc/Mime.antt =====
-- isExactMimeType and setMimeType of kettlingar/service.go.
use kettlingar_go.Prelude.{
  ℕ, ◌≡◌, refl, Bool, true, false, ◌&&◌, ◌||◌, not, List, [], ◌∷◌, leb, ◌==◌, if◌then◌else◌, Bytes,
  codes,
}
use kettlingar_go.Text.Search.{contains, split}

-- The calls on the http.ResponseWriter of a request, in their order.
pub data WriterOp : Type 0 where
  set_header : Bytes → Bytes → WriterOp
  write : Bytes → WriterOp
  http_error : Bytes → ℕ → WriterOp
  flush : WriterOp

-- [a-zA-Z0-9.+_-]
unfoldable pub mime_char : ℕ → Bool
mime_char c =
    (leb b'a' c && leb c b'z')
    || (leb b'A' c && leb c b'Z')
    || (leb b'0' c && leb c b'9')
    || c == b'.'
    || c == b'+'
    || c == b'_'
    || c == b'-'

unfoldable pub mime_chars : Bytes → Bool
unfolding mime_char
mime_chars [] = true
mime_chars (c ∷ cs) = mime_char c && mime_chars cs

abbrev mime_token : Bytes → Bool
mime_token [] = false
mime_token (c ∷ cs) = mime_chars (c ∷ cs)

-- The regular expression ^[a-zA-Z0-9.+_-]+\/[a-zA-Z0-9.+_-]+$: two tokens around the only slash.
unfoldable pub is_exact_mime_type : Bytes → Bool
unfolding mime_chars
is_exact_mime_type accept = elim (split b'/' accept) [
  | type ∷ subtype ∷ [] ↦ mime_token type && mime_token subtype
  | _ ↦ false
]

pub record Format : Type 0 where
  pub accept : Bytes
  pub use_sse : Bool
  pub send_json : Bool
  pub send_msgpack : Bool

-- `accept`, and the format that it asks for.
unfoldable pub format_of : Bool → Bytes → Format
format_of allow_sse accept =
    let sse = allow_sse && contains accept (codes "text/event-stream") in
    let json = sse || contains accept (codes "/json") in
    record {
      accept = accept;
      use_sse = sse;
      send_json = json;
      send_msgpack = not json && contains accept (codes "/msgpack");
    }

unfoldable pub chosen_format : Bool → Bytes → Bytes → Format
unfolding format_of is_exact_mime_type
chosen_format allow_sse accept default_mime =
    format_of allow_sse (if is_exact_mime_type accept then accept else default_mime)

-- The headers that setMimeType sets.
unfoldable pub mime_headers : Format → List WriterOp
mime_headers f =
    set_header (codes "Cache-Control") (codes "no-cache")
    ∷ (if f.use_sse
        then set_header (codes "Content-Type") (codes "text/event-stream")
          ∷ set_header (codes "Connection") (codes "keep-alive")
          ∷ []
        else if f.send_msgpack
        then set_header (codes "Content-Type") (codes "application/msgpack") ∷ []
        else if f.send_json
        then set_header (codes "Content-Type") (codes "application/json") ∷ []
        else set_header (codes "Content-Type") f.accept ∷ [])

chosen :
    let f = chosen_format false (codes "text/event-stream, */*") (codes "application/json") in
    (f.use_sse ≡ false) × (f.send_json ≡ true) × (f.accept ≡ codes "application/json")
unfolding chosen_format
chosen = (refl, refl, refl)
