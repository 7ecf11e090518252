-- ===== src/Rpc/Make/Registers.antt =====
-- When a registration succeeds: the names of a service's methods.
use kettlingar_go.Prelude.{
  ℕ, ◌≡◌, ◌≢◌, refl, sym, ap, ◌∙◌, subst, arith, All, All-append, Bool, true, List, [], ◌∷◌, ◌++◌,
  length, drop, get_or, map, Bytes, codes,
}
use kettlingar_go.Text.Search.{Lacks, split, split-append, split_lacking}
use kettlingar_go.Rpc.Method.{MethodDesc}
use kettlingar_go.Rpc.Mux.{
  Verdict, skipped, described, refused, panics, Route, Service, Registered, registered, handle_func,
  register_method, patterns,
}
use kettlingar_go.Rpc.Registration.Routes.{all_routes, RoutesMatch}

abbrev pub names : List MethodDesc → List Bytes
names ds = map (λ d. d.name) ds

-- A character that has no meaning in a pattern of an http.ServeMux: no brace, blank, tab or percent
-- sign.
abbrev pub IsPlain : ℕ → Type 0
IsPlain c = (c ≢ b'{') × (c ≢ b'}') × (c ≢ b' ') × (c ≢ 9) × (c ≢ b'%')

abbrev pub IsPattern : Bytes → Type 0
IsPattern [] = ⊥
IsPattern (c ∷ s) = (c ≡ b'/') × All IsPlain s

-- HandleFunc takes each literal pattern that starts with a slash and is none of those that are there,
-- which are of the same form.
abbrev pub TakesPlain : (List Bytes → Bytes → Bool) → Type 0
TakesPlain takes =
    (ps : List Bytes) (p : Bytes)
    → All IsPattern ps
    → IsPattern p
    → All (λ q. q ≢ p) ps
    → takes ps p ≡ true

-- A segment of a path, literal in a pattern.
abbrev pub IsSegment : Bytes → Type 0
IsSegment = All (λ c. IsPlain c × (c ≢ b'/'))

Segment-Lacks : (s : Bytes) → IsSegment s → Lacks b'/' s
Segment-Lacks [] h = tt
Segment-Lacks (c ∷ s) h = (h.0.1, Segment-Lacks s h.1)

Segment-Plain : (s : Bytes) → IsSegment s → All IsPlain s
Segment-Plain [] h = tt
Segment-Plain (c ∷ s) h = (h.0.0, Segment-Plain s h.1)

-- No name is among `seen` or there twice, and all are segments.
abbrev pub AreNew : List Bytes → List Bytes → Type 0
AreNew seen [] = Unit
AreNew seen (n ∷ ns) = IsSegment n × All (λ m. m ≢ n) seen × AreNew (seen ++ n ∷ []) ns

-- The methods that reflection gives are described, with these names in their order.
abbrev pub Describes : List Verdict → List Bytes → Type 0
Describes [] [] = Unit
Describes [] (n ∷ ns) = ⊥
Describes (skipped ∷ vs) ns = Describes vs ns
Describes (described d ∷ vs) [] = ⊥
Describes (described d ∷ vs) (n ∷ ns) = (d.name ≡ n) × Describes vs ns
Describes (refused e ∷ vs) ns = ⊥
Describes (panics ∷ vs) ns = ⊥

split-secret : (s n : Bytes) → Lacks b'/' s → Lacks b'/' n → split b'/' (s ++ b'/' ∷ n) ≡ s ∷ n ∷ []
split-secret s n hs hn = split-append b'/' s n hs ∙ ap (◌∷◌ s) (split_lacking b'/' n hn)

-- The patterns /N, /S/N and /S/M differ.
plain-secret : (s n m : Bytes) → Lacks b'/' s → Lacks b'/' n → Lacks b'/' m → n ≢ s ++ b'/' ∷ m
plain-secret s n m hs hn hm e =
    let sizes : 1 ≡ 2 =
      ap length (sym (split_lacking b'/' n hn) ∙ ap (split b'/') e ∙ split-secret s m hs hm) in
    omega (arith, sizes)

secret-injective :
    (s n m : Bytes)
    → Lacks b'/' s
    → Lacks b'/' n
    → Lacks b'/' m
    → s ++ b'/' ∷ n ≡ s ++ b'/' ∷ m
    → n ≡ m
secret-injective s n m hs hn hm e =
    ap (λ ps. get_or ps 1 [])
      (sym (split-secret s n hs hn) ∙ ap (split b'/') e ∙ split-secret s m hs hm)

abbrev pub plain : Bytes → Bytes
plain n = codes "/" ++ n

abbrev pub secretly : Bytes → Bytes → Bytes
secretly s n = codes "/" ++ (s ++ (codes "/" ++ n))

secretly-IsPattern : (s n : Bytes) → IsSegment s → IsSegment n → IsPattern (secretly s n)
secretly-IsPattern s n hs hn =
    (refl, All-append IsPlain s (b'/' ∷ n) (Segment-Plain s hs) (ground arith, Segment-Plain n hn))

plain-IsPattern : (n : Bytes) → IsSegment n → IsPattern (plain n)
plain-IsPattern n hn = (refl, Segment-Plain n hn)

All-patterns :
    (P : Bytes → Type 0) (a b : List Route)
    → All P (patterns a)
    → All P (patterns b)
    → All P (patterns (a ++ b))
All-patterns P [] b h g = g
All-patterns P (r ∷ a) b h g = (h.0, All-patterns P a b h.1 g)

all_routes-IsPattern :
    (s : Bytes) (ds : List MethodDesc)
    → IsSegment s
    → All IsSegment (names ds)
    → All IsPattern (patterns (all_routes s ds))
all_routes-IsPattern s [] hs h = tt
all_routes-IsPattern s (d ∷ ds) hs h = (
  secretly-IsPattern s d.name hs h.0,
  (plain-IsPattern d.name h.0, all_routes-IsPattern s ds hs h.1),
)

module _ (s n : Bytes) (hs : IsSegment s) (hn : IsSegment n) where
  all_routes-secretly :
      (ds : List MethodDesc)
      → All IsSegment (names ds)
      → All (λ m. m ≢ n) (names ds)
      → All (λ q. q ≢ secretly s n) (patterns (all_routes s ds))
  all_routes-secretly [] h g = tt
  all_routes-secretly (d ∷ ds) h g = (
    λ e. g.0 (
        secret-injective s d.name n (Segment-Lacks s hs) (Segment-Lacks d.name h.0)
          (Segment-Lacks n hn) (ap (drop 1) e)),
    (
      λ e.
          plain-secret s d.name n (Segment-Lacks s hs) (Segment-Lacks d.name h.0)
            (Segment-Lacks n hn) (ap (drop 1) e),
      all_routes-secretly ds h.1 g.1,
    ),
  )

  all_routes-plain :
      (ds : List MethodDesc)
      → All IsSegment (names ds)
      → All (λ m. m ≢ n) (names ds)
      → All (λ q. q ≢ plain n) (patterns (all_routes s ds))
  all_routes-plain [] h g = tt
  all_routes-plain (d ∷ ds) h g = (
    λ e.
        plain-secret s n d.name (Segment-Lacks s hs) (Segment-Lacks n hn) (Segment-Lacks d.name h.0)
          (sym (ap (drop 1) e)),
    (λ e. g.0 (ap (drop 1) e), all_routes-plain ds h.1 g.1),
  )

-- A service with the methods of these names.
pub record Has (secret : Bytes) (ns : List Bytes) (ks : Service) : Type 0 where
  pub same_secret : ks.secret ≡ secret
  pub routes : RoutesMatch ks
  pub named : names ks.registry ≡ ns
  pub literal : TakesPlain ks.takes

-- A registration that succeeds.
pub record Serves (secret : Bytes) (ns : List Bytes) (x : Registered) : Type 0 where
  pub service : Service
  pub done : x ≡ registered service
  pub has : Has secret ns service

abbrev pub secret_route : Bytes → MethodDesc → Route
secret_route s d = record { pattern = secretly s d.name; m_name = d.name; is_public = d.is_public }

abbrev pub plain_route : MethodDesc → Route
plain_route d = record { pattern = plain d.name; m_name = d.name; is_public = d.is_public }

pub register_method-new :
    (d : MethodDesc) (ks : Service)
    → TakesPlain ks.takes
    → RoutesMatch ks
    → IsSegment ks.secret
    → IsSegment d.name
    → All IsSegment (names ks.registry)
    → All (λ m. m ≢ d.name) (names ks.registry)
    → register_method (described d) ks
      ≡ registered (record ks {
        registry = ks.registry ++ d ∷ [];
        mux = (ks.mux ++ secret_route ks.secret d ∷ []) ++ plain_route d ∷ [];
      })
unfolding register_method handle_func
register_method-new d ks literal match hs hn clean new =
    let s = ks.secret in
    let there : All IsPattern (patterns ks.mux) =
      subst (λ rs. All IsPattern (patterns rs)) (sym match)
        (all_routes-IsPattern s ks.registry hs clean) in
    let first : ks.takes (patterns ks.mux) (secretly s d.name) ≡ true =
      literal (patterns ks.mux) (secretly s d.name) there (secretly-IsPattern s d.name hs hn) (
        subst (λ rs. All (λ q. q ≢ secretly s d.name) (patterns rs)) (sym match)
          (all_routes-secretly s d.name hs hn ks.registry clean new)) in
    let second : ks.takes (patterns (ks.mux ++ secret_route s d ∷ [])) (plain d.name) ≡ true =
      literal (patterns (ks.mux ++ secret_route s d ∷ [])) (plain d.name)
        (All-patterns IsPattern ks.mux (secret_route s d ∷ []) there
          (secretly-IsPattern s d.name hs hn, tt))
        (plain-IsPattern d.name hn)
        (All-patterns (λ q. q ≢ plain d.name) ks.mux (secret_route s d ∷ [])
          (subst (λ rs. All (λ q. q ≢ plain d.name) (patterns rs)) (sym match)
            (all_routes-plain s d.name hs hn ks.registry clean new))
          (
            λ e.
                plain-secret s d.name d.name (Segment-Lacks s hs) (Segment-Lacks d.name hn)
                  (Segment-Lacks d.name hn) (sym (ap (drop 1) e)),
            tt,
          )) in
    rw first (rw second refl)
