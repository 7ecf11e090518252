-- ===== src/Rpc/Make/Makes.antt =====
-- MakeService makes a service with the program's own methods and those it is given.
use kettlingar_go.Prelude.{
  ℕ, ◌≡◌, ◌≢◌, ◌<◌, refl, arith, sym, subst, All, Option-cases, inl, inr, Bool, true, false, List,
  [], ◌∷◌, length, Bytes, codes, if◌then◌else◌, Option, some,
}
use kettlingar_go.Dict.{Dict, insert, lookup_or}
use kettlingar_go.Text.Dashed.{Unicode, dashed_name}
use kettlingar_go.Rpc.Method.{MethodDesc, GoType, struct, request_info}
use kettlingar_go.Rpc.Mux.{Service}
use kettlingar_go.Rpc.Registration.{
  GoMethod, describe, describe_as, with_ins, with_info, with_args, with_return, add_fields,
  get_indirect_type, no_desc,
}
use kettlingar_go.Rpc.Make.{
  Made, made, KettlingarService, make_service, make_with, started_service, with_secret,
  default_docs, default_methods, metrics_docs, metrics_methods, ping_fields, metrics_fields,
}
use kettlingar_go.Rpc.Make.Secret.{generate_secret, generate_secret-All, url_digit}
use kettlingar_go.Rpc.Make.Registers.{IsPlain, TakesPlain, IsSegment, AreNew, Describes, Has}
use kettlingar_go.Rpc.Make.Succeeds.{verdicts, register_service-Serves}

-- A service that is made with a secret, its methods' names, and a route for each.
pub record Makes (secret : Bytes) (ns : List Bytes) (x : Made) : Type 0 where
  pub ks : KettlingarService
  pub done : x ≡ made ks
  pub has : Has secret ns ks.service

-- The characters of a generated secret.
digit-IsSegment : (d : ℕ) → IsPlain (url_digit d) × (url_digit d ≢ b'/')
digit-IsSegment d = ground arith

-- The secret of a service: the one that is given, or else one that is generated.
abbrev pub IsSecretOf : Bytes → Bytes → Bytes → Type 0
IsSecretOf [] rand secret = generate_secret (some rand) ≡ some secret
IsSecretOf (c ∷ given) rand secret = secret ≡ c ∷ given

module _ (U : Unicode) (renders : GoType → Option Bytes) where
  abbrev pub ping : Bytes
  ping = dashed_name U (codes "Ping")

  abbrev pub metrics : Bytes
  metrics = dashed_name U (codes "Metrics")

  with_return-Describes :
      (t : GoType) (desc : MethodDesc)
      → Describes (with_return U renders (some t) desc ∷ []) (desc.name ∷ [])
  unfolding with_return
  with_return-Describes t desc = elim (Option-cases (renders (get_indirect_type t))) [
    | inl e ↦ rw (Describes, e) (refl, tt)
    | inr (mt, e) ↦ rw (Describes, e) (refl, tt)
  ]

  either-Describes :
      (generates : Bool) (t u : GoType) (desc : MethodDesc)
      → Describes
          (with_return U renders (if generates then some t else some u) desc ∷ [])
          (desc.name ∷ [])
  either-Describes true t u desc = with_return-Describes t desc
  either-Describes false t u desc = with_return-Describes u desc

  default_methods-Describes :
      Describes (verdicts U renders default_docs default_methods) (ping ∷ [])
  unfolding describe describe_as with_ins with_info with_args add_fields default_methods
  default_methods-Describes =
      either-Describes (lookup_or ping no_desc default_docs).is_generator request_info
        (struct (codes "PingResponse") ping_fields)
        (record (lookup_or ping no_desc default_docs) {
          name = ping;
          args = insert (codes "Methods") (codes "bool") [];
          arg_defaults = insert (codes "Methods") (codes "false") [];
          is_public = true;
          returns = codes "void";
          default_mime = codes "application/json";
        })

  metrics_methods-Describes :
      Describes (verdicts U renders metrics_docs metrics_methods) (metrics ∷ [])
  unfolding describe describe_as with_ins with_info with_args metrics_methods
  metrics_methods-Describes =
      either-Describes (lookup_or metrics no_desc metrics_docs).is_generator request_info
        (struct (codes "MetricsResponse") metrics_fields)
        (record (lookup_or metrics no_desc metrics_docs) {
          name = metrics;
          args = [];
          arg_defaults = [];
          is_public = true;
          returns = codes "void";
          default_mime = codes "application/json";
        })

  module _ (api_hash : List MethodDesc → Bytes) (takes : List Bytes → Bytes → Bool) (now : ℕ)
      (name : Bytes) where
    make_with-Makes :
        (secret : Bytes) (docs : Dict MethodDesc) (ms : List GoMethod) (ns : List Bytes)
        → TakesPlain takes
        → IsSegment secret
        → AreNew [] (ping ∷ metrics ∷ ns)
        → Describes (verdicts U renders docs ms) ns
        → Makes secret
            (ping ∷ metrics ∷ ns)
            (make_with U renders api_hash takes now name secret [] docs ms)
    unfolding make_with
    make_with-Makes secret docs ms ns literal hs new d =
        let empty : Service = record { secret = secret; registry = []; mux = []; takes = takes } in
        let first =
          register_service-Serves U renders default_docs default_methods secret hs empty []
            (ping ∷ [])
            (record { same_secret = refl; routes = refl; named = refl; literal = literal }) tt
            (new.0, tt, tt) default_methods-Describes in
        let second =
          register_service-Serves U renders metrics_docs metrics_methods secret hs first.service
            (ping ∷ []) (metrics ∷ []) first.has (new.0, tt) (new.2.0, new.2.1, tt)
            metrics_methods-Describes in
        let third =
          register_service-Serves U renders docs ms secret hs second.service (ping ∷ metrics ∷ [])
            ns second.has (new.0, (new.2.0, tt)) new.2.2 d in
        rw (first.done, second.done, third.done)
          (record {
            ks = started_service U renders api_hash takes now name third.service;
            done = refl;
            has = third.has;
          })

    -- MakeService with an empty mux, a secret without slashes, blanks, tabs, braces and percent signs
    -- or none and 32 random bytes, for a service whose methods are all described, with names that have
    -- none of these characters and are different from one another and from those of ping and metrics:
    -- it makes a service, where HandleFunc takes patterns without wildcards that differ, as net/http
    -- has it. Its secret is the one that is given, or else the one generated, which has none of these
    -- characters; its registry has ping, metrics and the service's methods, in this order, and its mux
    -- the two routes of each.
    pub make_service-Makes :
        (given rand : Bytes) (docs : Dict MethodDesc) (ms : List GoMethod) (ns : List Bytes)
        → TakesPlain takes
        → IsSegment given
        → length rand ≡ 32
        → All (λ c. c < 256) rand
        → AreNew [] (ping ∷ metrics ∷ ns)
        → Describes (verdicts U renders docs ms) ns
        → (secret : Bytes) × IsSecretOf given rand secret
          × IsSegment secret
          × Makes secret
              (ping ∷ metrics ∷ ns)
              (make_service U renders api_hash takes (some rand) now name given [] docs ms)
    unfolding make_service
    make_service-Makes [] rand docs ms ns literal hs size bytes new d =
        let s = generate_secret-All (λ c. IsPlain c × (c ≢ b'/')) rand digit-IsSegment in
        let names = ping ∷ metrics ∷ ns in
        let make =
          λ (secret : Bytes). make_with U renders api_hash takes now name secret [] docs ms in
        (
          s.0,
          s.1,
          s.2,
          subst (λ o. Makes s.0 names (with_secret o make)) (sym s.1)
              (make_with-Makes s.0 docs ms ns literal s.2 new d),
        )
    make_service-Makes (c ∷ given) rand docs ms ns literal hs size bytes new d =
        (c ∷ given, refl, hs, make_with-Makes (c ∷ given) docs ms ns literal hs new d)
