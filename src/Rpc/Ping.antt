-- ===== src/Rpc/Ping.antt =====
-- `ping` of kettlingar/default_methods.go, without its timestamp.
use kettlingar_go.Prelude.{
  ◌≡◌, ◌≢◌, subst, sym, arith, All, Bool-cases, inl, inr, Bool, true, false, List, [], ◌∷◌,
  if◌then◌else◌, Bytes,
}
use kettlingar_go.Rpc.Auth.{Request, gate, not_found}
use kettlingar_go.Rpc.Auth.Grants.{gate_lem}
use kettlingar_go.Rpc.Method.{MethodDesc}

pub record PingResponse : Type 0 where
  pub version : Bytes
  pub methods : List MethodDesc

unfoldable pub pub_methods : List MethodDesc → List MethodDesc
pub_methods [] = []
pub_methods (m ∷ ms) = let rest = pub_methods ms in if m.is_public then m ∷ rest else rest

-- The first Boolean is args.Methods, the second ri.IsAuthed; a nil list is empty.
unfoldable pub public_api_ping : Bytes → List MethodDesc → Bool → Bool → PingResponse
unfolding pub_methods
public_api_ping version registry wants authed = record {
  version = version;
  methods = if wants then if authed then registry else pub_methods registry else [];
}

-- Whether a method is open to every request.
abbrev pub IsOpen : Bytes → MethodDesc → Type 0
IsOpen secret m = (r : Request) → gate secret m.name m.is_public r ≢ not_found

IsOpen-gate : (secret : Bytes) (m : MethodDesc) → m.is_public ≡ true → IsOpen secret m
IsOpen-gate secret m p r e = ground (arith, (gate_lem secret m.name m.is_public r).0.0 e)

pub_methods-IsOpen : (secret : Bytes) (ms : List MethodDesc) → All (IsOpen secret) (pub_methods ms)
unfolding pub_methods
pub_methods-IsOpen secret [] = tt
pub_methods-IsOpen secret (m ∷ ms) = elim (Bool-cases m.is_public) [
  | inl e ↦
      subst (λ b. All (IsOpen secret) (if b then m ∷ pub_methods ms else pub_methods ms)) (sym e)
        (IsOpen-gate secret m e, pub_methods-IsOpen secret ms)
  | inr e ↦
      subst (λ b. All (IsOpen secret) (if b then m ∷ pub_methods ms else pub_methods ms)) (sym e)
        (pub_methods-IsOpen secret ms)
]

-- Every method that ping lists to a caller who is not authenticated is open: the gate in front of
-- it answers 404 Not Found to no request.
pub public_api_ping-IsOpen :
    (secret version : Bytes) (registry : List MethodDesc) (wants : Bool)
    → All (IsOpen secret) (public_api_ping version registry wants false).methods
unfolding public_api_ping
public_api_ping-IsOpen secret version registry true = pub_methods-IsOpen secret registry
public_api_ping-IsOpen secret version registry false = tt
