-- ===== src/Cli/Call/Wire.antt =====
-- What the calls on an http.ResponseWriter are to the client, as net/http documents it: a header set
-- before the first write holds, and http.Error sets its own content type and writes its text as a
-- line.
use kettlingar_go.Prelude.{
  ◌≡◌, refl, ap, ◌∙◌, sym, true, List, [], ◌∷◌, ◌++◌, append_assoc, if◌then◌else◌, Bytes, bytes_eq,
  codes,
}
use kettlingar_go.Rpc.Mime.{WriterOp, set_header, write, http_error, flush}
use kettlingar_go.Cli.Call.{Reply}

unfoldable pub content_type_of : Bytes → List WriterOp → Bytes
content_type_of ct [] = ct
content_type_of ct (set_header key value ∷ ops) =
    content_type_of (if bytes_eq key (codes "Content-Type") then value else ct) ops
content_type_of ct (write text ∷ ops) = ct
content_type_of ct (flush ∷ ops) = ct
content_type_of ct (http_error text code ∷ ops) = codes "text/plain; charset=utf-8"

unfoldable pub body_of : List WriterOp → Bytes
body_of [] = []
body_of (write text ∷ ops) = text ++ body_of ops
body_of (http_error text code ∷ ops) = text ++ b'\n' ∷ body_of ops
body_of (set_header key value ∷ ops) = body_of ops
body_of (flush ∷ ops) = body_of ops

unfoldable pub reply_of : List WriterOp → Reply
unfolding content_type_of body_of
reply_of ops = record {
  content_type = content_type_of [] ops;
  body = body_of ops;
  ends_well = true;
}

pub body_of-append : (a b : List WriterOp) → body_of (a ++ b) ≡ body_of a ++ body_of b
unfolding body_of
body_of-append [] b = refl
body_of-append (write text ∷ a) b =
    ap (λ t. text ++ t) (body_of-append a b) ∙ sym (append_assoc text (body_of a) (body_of b))
body_of-append (http_error text code ∷ a) b =
    ap (λ t. text ++ b'\n' ∷ t) (body_of-append a b)
    ∙ sym (append_assoc text (b'\n' ∷ body_of a) (body_of b))
body_of-append (set_header key value ∷ a) b = body_of-append a b
body_of-append (flush ∷ a) b = body_of-append a b
