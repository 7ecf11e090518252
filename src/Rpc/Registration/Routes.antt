-- ===== src/Rpc/Registration/Routes.antt =====
-- The routes of a service and its registry.
use kettlingar_go.Prelude.{
  ◌≡◌, refl, subst, sym, ap, ◌∙◌, Bool-cases, inl, inr, true, List, [], ◌∷◌, ◌++◌, append_assoc,
  append-nil, Bytes, bytes_eq, codes, Option, none, map,
}
use kettlingar_go.Dict.{Dict, lookup, lookup_or}
use kettlingar_go.Text.Dashed.{Unicode, dashed_name}
use kettlingar_go.Rpc.Method.{MethodDesc, GoType, pointer, request_info}
use kettlingar_go.Rpc.Mux.{
  Verdict, skipped, described, refused, panics, Route, Service, Registered, registered, failed,
  crashed, handle_func, and_then, routes_of, handle_funcs, register_method, regroup, regroup_desc,
  patterns,
}
use kettlingar_go.Rpc.Registration.{
  GoMethod, describe, register_methods, register_service, describe_as, no_desc, with_ins, with_info,
  with_args, with_return,
}

abbrev pub all_routes : Bytes → List MethodDesc → List Route
all_routes secret [] = []
all_routes secret (d ∷ ds) = routes_of secret d ++ all_routes secret ds

-- The mux has the two routes of each method of the registry, in order, and no other.
abbrev pub RoutesMatch : Service → Type 0
RoutesMatch ks = ks.mux ≡ all_routes ks.secret ks.registry

-- What a registration that succeeds keeps.
abbrev pub Keeps : Registered → Bytes → Type 0
Keeps (registered ks) secret = (ks.secret ≡ secret) × RoutesMatch ks
Keeps _ secret = Unit

pub all_routes-append :
    (secret : Bytes) (ds es : List MethodDesc)
    → all_routes secret (ds ++ es) ≡ all_routes secret ds ++ all_routes secret es
all_routes-append secret [] es = refl
all_routes-append secret (d ∷ ds) es =
    ap (λ rs. routes_of secret d ++ rs) (all_routes-append secret ds es)

and_then-Keeps :
    (x : Registered) (k : Service → Registered) (secret : Bytes)
    → Keeps x secret
    → ((ks : Service) → ks.secret ≡ secret → RoutesMatch ks → Keeps (k ks) secret)
    → Keeps (and_then x k) secret
and_then-Keeps (registered ks) k secret h step = step ks h.0 h.1
and_then-Keeps (failed e ks) k secret h step = tt
and_then-Keeps (crashed ks) k secret h step = tt

handle_funcs-Keeps :
    (rs : List Route) (ks : Service) (secret : Bytes)
    → ks.secret ≡ secret
    → ks.mux ++ rs ≡ all_routes ks.secret ks.registry
    → Keeps (handle_funcs rs ks) secret
unfolding handle_func
handle_funcs-Keeps [] ks secret s h = (s, sym (append-nil ks.mux) ∙ h)
handle_funcs-Keeps (r ∷ rs) ks secret s h =
    elim (Bool-cases (ks.takes (patterns ks.mux) r.pattern)) [
      | inr e ↦ rw (handle_func, e) tt
      | inl e ↦
          rw (handle_func, e)
            (handle_funcs-Keeps rs (record ks { mux = ks.mux ++ r ∷ [] }) secret s
              (append_assoc ks.mux (r ∷ []) rs ∙ h))
    ]

register_method-Keeps :
    (v : Verdict) (ks : Service) (secret : Bytes)
    → ks.secret ≡ secret
    → RoutesMatch ks
    → Keeps (register_method v ks) secret
unfolding register_method
register_method-Keeps skipped ks secret s h = (s, h)
register_method-Keeps (refused e) ks secret s h = tt
register_method-Keeps panics ks secret s h = tt
register_method-Keeps (described desc) ks secret s h =
    handle_funcs-Keeps (routes_of ks.secret desc)
      (record ks { registry = ks.registry ++ desc ∷ [] }) secret s
      (ap (λ m. m ++ routes_of ks.secret desc) h
        ∙ sym (all_routes-append ks.secret ks.registry (desc ∷ [])))

regroup_desc-routes :
    (secret name g : Bytes) (ds : List MethodDesc)
    → all_routes secret (map (regroup_desc name g) ds) ≡ all_routes secret ds
regroup_desc-routes secret name g [] = refl
regroup_desc-routes secret name [] (d ∷ ds) =
    ap (λ rs. routes_of secret d ++ rs) (regroup_desc-routes secret name [] ds)
regroup_desc-routes secret name (c ∷ g) (d ∷ ds) = elim (Bool-cases (bytes_eq d.name name)) [
  | inl e ↦ rw e (ap (λ rs. routes_of secret d ++ rs) (regroup_desc-routes secret name (c ∷ g) ds))
  | inr e ↦ rw e (ap (λ rs. routes_of secret d ++ rs) (regroup_desc-routes secret name (c ∷ g) ds))
]

pub regroup-routes :
    (secret : Bytes) (docs : Dict MethodDesc) (ds : List MethodDesc)
    → all_routes secret (regroup docs ds) ≡ all_routes secret ds
unfolding regroup
regroup-routes secret [] ds = refl
regroup-routes secret ((name, d) ∷ docs) ds =
    regroup-routes secret docs (map (regroup_desc name d.group) ds)
    ∙ regroup_desc-routes secret name d.group ds

module _ (U : Unicode) (renders : GoType → Option Bytes) where
  register_methods-Keeps :
      (docs : Dict MethodDesc) (ms : List GoMethod) (ks : Service) (secret : Bytes)
      → ks.secret ≡ secret
      → RoutesMatch ks
      → Keeps (register_methods U renders docs ms ks) secret
  unfolding register_methods
  register_methods-Keeps docs [] ks secret s h = (s, h)
  register_methods-Keeps docs (m ∷ ms) ks secret s h =
      and_then-Keeps (register_method (describe U renders docs m) ks)
        (register_methods U renders docs ms) secret
        (register_method-Keeps (describe U renders docs m) ks secret s h)
        λ ks'. register_methods-Keeps docs ms ks' secret

  -- In a service whose routes match its registry, a registration that succeeds leaves the secret
  -- alone and the routes matching: the mux has, in the registry's order, the routes /SECRET/NAME
  -- and /NAME of each method and no other, each with the method's own name and public flag.
  pub register_service-RoutesMatch :
      (docs : Dict MethodDesc) (ms : List GoMethod) (ks ks' : Service)
      → RoutesMatch ks
      → register_service U renders docs ms ks ≡ registered ks'
      → (ks'.secret ≡ ks.secret) × RoutesMatch ks'
  unfolding register_service
  register_service-RoutesMatch docs ms ks ks' h e =
      let done : Keeps (register_service U renders docs ms ks) ks.secret =
        and_then-Keeps (register_methods U renders docs ms ks) _ ks.secret
          (register_methods-Keeps docs ms ks ks.secret refl h)
          λ ks1 s m. (s, m ∙ sym (regroup-routes ks1.secret docs ks1.registry)) in
      subst (λ x. Keeps x ks.secret) e done

  -- func (s *T) PublicApi...(ri *RequestInfo)
  abbrev pub void_method : Bytes → GoMethod
  void_method rest = record {
    method_name = codes "PublicApi" ++ rest;
    ins = pointer request_info ∷ [];
    outs = [];
  }

  describe-void :
      (docs : Dict MethodDesc) (name rest : Bytes)
      → lookup (dashed_name U rest) docs ≡ none
      → describe_as U renders docs
          (record { method_name = name; ins = pointer request_info ∷ []; outs = [] })
          true
          rest
        ≡ panics
  unfolding describe_as with_ins with_info with_args with_return
  describe-void docs name rest undocumented =
      let none_there : lookup_or (dashed_name U rest) no_desc docs ≡ no_desc =
        rw (lookup_or, undocumented) refl in
      rw none_there refl

  -- A method without a channel or arguments of its own that returns nothing and is in no docs
  -- makes the registration panic, before it is in the registry.
  pub register_service-crashed :
      (docs : Dict MethodDesc) (ms : List GoMethod) (ks : Service) (rest : Bytes)
      → lookup (dashed_name U rest) docs ≡ none
      → register_service U renders docs (void_method rest ∷ ms) ks ≡ crashed ks
  unfolding register_service register_methods describe register_method
  register_service-crashed docs ms ks rest undocumented =
      rw (describe-void docs (codes "PublicApi" ++ rest) rest undocumented) refl
