-- ===== src/Rpc/Auth/Grants.antt =====
-- Which requests authenticate, and what the gate lets through.
use kettlingar_go.Prelude.{
  ◌≡◌, ◌↔◌, ◌⊎◌, inl, inr, sym, ap, ◌∙◌, arith, Bool, true, false, ◌&&◌, List, [], ◌∷◌, ◌++◌, Bytes,
  bytes_eq, bytes_eq_iff, codes, if◌then◌else◌, not,
}
use kettlingar_go.Text.Search.{
  has_prefix, trim_prefix, trim, split, join, Lacks, split-append, split_lacking, join-split,
  trim_prefix_iff,
}
use kettlingar_go.Rpc.Auth.{Request, names_method, authenticate, not_found, call, gate}

-- The header `Authorization: Bearer SECRET`.
abbrev pub HasToken : Bytes → Request → Type 0
HasToken secret r = r.authorization ≡ codes "Bearer " ++ secret

-- A path SECRET/METHOD with perhaps more segments, between slashes.
abbrev pub HasSecretPath : Bytes → Bytes → Request → Type 0
HasSecretPath secret method r =
    (parts : List Bytes) × (trim b'/' r.path ≡ join b'/' (secret ∷ method ∷ parts))

names_method-parts :
    (secret method : Bytes) (ps : List Bytes)
    → names_method secret method ps ≡ true
    → (parts : List Bytes) × (ps ≡ secret ∷ method ∷ parts)
unfolding names_method
names_method-parts secret method [] h = ground arith
names_method-parts secret method (p ∷ []) h = ground arith
names_method-parts secret method (p ∷ q ∷ ps) h =
    (ps, ground (arith, bytes_eq_iff p secret, bytes_eq_iff q method))

path-names_method :
    (secret method : Bytes) (parts : List Bytes)
    → Lacks b'/' secret
    → Lacks b'/' method
    → names_method secret method (split b'/' (join b'/' (secret ∷ method ∷ parts))) ≡ true
unfolding names_method
path-names_method secret method [] hs hm =
    rw (split-append b'/' secret method hs, split_lacking b'/' method hm)
      (ground (arith, bytes_eq_iff secret secret, bytes_eq_iff method method))
path-names_method secret method (p ∷ ps) hs hm =
    rw (split-append b'/' secret _ hs, split-append b'/' method (join b'/' (p ∷ ps)) hm)
      (ground (arith, bytes_eq_iff secret secret, bytes_eq_iff method method))

names_method_iff :
    (secret method : Bytes) (path : Bytes)
    → Lacks b'/' secret
    → Lacks b'/' method
    → (names_method secret method (split b'/' path) ≡ true)
      ↔ ((parts : List Bytes) × (path ≡ join b'/' (secret ∷ method ∷ parts)))
names_method_iff secret method path hs hm = (
  (λ h.
      let e = names_method-parts secret method (split b'/' path) h in
      (e.0, sym (join-split b'/' path) ∙ ap (join b'/') e.1)),
  (λ e.
      ap (λ t. names_method secret method (split b'/' t)) e.1
      ∙ path-names_method secret method e.0 hs hm),
)

if_iff : (a b : Bool) → ((if a then true else b) ≡ true) ↔ ((a ≡ true) ⊎ (b ≡ true))
if_iff true b = ground arith
if_iff false b = ground arith

-- For a secret and a method name without slashes, a request is authenticated for the method
-- exactly when it has the secret as its bearer token or its path is SECRET/METHOD, with perhaps
-- more segments behind and any slashes around.
pub authenticate_iff :
    (secret method : Bytes) (r : Request)
    → Lacks b'/' secret
    → Lacks b'/' method
    → (authenticate secret r method ≡ true) ↔ (HasToken secret r ⊎ HasSecretPath secret method r)
unfolding authenticate
authenticate_iff secret method r hs hm =
    let either =
      if_iff
        (has_prefix r.authorization (codes "Bearer ")
          && bytes_eq (trim_prefix r.authorization (codes "Bearer ")) secret)
        (names_method secret method (split b'/' (trim b'/' r.path))) in
    let token = trim_prefix_iff r.authorization (codes "Bearer ") secret in
    let path = names_method_iff secret method (trim b'/' r.path) hs hm in
    (
      (λ h. elim (either.0 h) [ inl t ↦ inl (token.0 t) | inr p ↦ inr (path.0 p) ]),
      (λ h. elim h [ inl t ↦ either.1 (inl (token.1 t)) | inr p ↦ either.1 (inr (path.1 p)) ]),
    )

gate-Bool :
    (p a : Bool)
    → (((if not p && not a then not_found else call a) ≡ not_found) ↔ ((p ≡ false) × (a ≡ false)))
      × ((authed : Bool)
          → (if not p && not a then not_found else call a) ≡ call authed
          → (a ≡ authed) × ((p ≡ true) ⊎ (authed ≡ true)))
gate-Bool true true = ground arith
gate-Bool true false = ground arith
gate-Bool false true = ground arith
gate-Bool false false = ground arith

-- A method that is not public is called only for an authenticated request; any other request for
-- it is answered 404 Not Found. A public method is called for every request. The call is told
-- whether the request is authenticated.
pub gate_lem :
    (secret method : Bytes) (is_public : Bool) (r : Request)
    → ((gate secret method is_public r ≡ not_found)
        ↔ ((is_public ≡ false) × (authenticate secret r method ≡ false)))
      × ((authed : Bool)
          → gate secret method is_public r ≡ call authed
          → (authenticate secret r method ≡ authed) × ((is_public ≡ true) ⊎ (authed ≡ true)))
unfolding gate
gate_lem secret method is_public r = gate-Bool is_public (authenticate secret r method)
