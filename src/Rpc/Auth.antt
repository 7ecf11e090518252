-- ===== src/Rpc/Auth.antt =====
-- `authenticate` of kettlingar/service.go and the gate that a method's handler opens with.
pub mod Grants
use kettlingar_go.Prelude.{
  Bool, true, false, ◌&&◌, ◌||◌, not, List, [], ◌∷◌, if◌then◌else◌, Bytes, bytes_eq, codes, Option,
}
use kettlingar_go.Text.Search.{has_prefix, trim_prefix, trim, split}

-- The parts of http.Request that the service reads. `body` is none where io.ReadAll fails.
pub record Request : Type 0 where
  pub path : Bytes
  pub authorization : Bytes
  pub content_type : Bytes
  pub accept : Bytes
  pub remote_addr : Bytes
  pub body : Option Bytes

-- `len(parts) >= 2 && parts[0] == ks.Secret && parts[1] == methodName`
unfoldable pub names_method : Bytes → Bytes → List Bytes → Bool
names_method secret method_name (first ∷ second ∷ parts) =
    bytes_eq first secret && bytes_eq second method_name
names_method secret method_name _ = false

unfoldable pub authenticate : Bytes → Request → Bytes → Bool
unfolding names_method
authenticate secret r method_name =
    let auth = r.authorization in
    if has_prefix auth (codes "Bearer ") && bytes_eq (trim_prefix auth (codes "Bearer ")) secret
    then true
    else names_method secret method_name (split b'/' (trim b'/' r.path))

-- What the handler of a registered method does first: refuse, or call with `authed`.
pub data Gate : Type 0 where
  not_found : Gate
  call : Bool → Gate

unfoldable pub gate : Bytes → Bytes → Bool → Request → Gate
unfolding authenticate
gate secret m_name is_public r =
    let authed = authenticate secret r m_name in
    if not is_public && not authed then not_found else call authed
