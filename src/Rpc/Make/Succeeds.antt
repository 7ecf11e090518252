-- ===== src/Rpc/Make/Succeeds.antt =====
-- A service whose methods are described and have new names registers.
use kettlingar_go.Prelude.{
  ◌≡◌, ◌≢◌, refl, sym, ap, ◌∙◌, subst, All, All-append, Bool-cases, inl, inr, List, [], ◌∷◌, ◌++◌,
  append_assoc, append-nil, map, Bytes, bytes_eq, Option,
}
use kettlingar_go.Dict.{Dict}
use kettlingar_go.Text.Dashed.{Unicode}
use kettlingar_go.Rpc.Method.{MethodDesc, GoType}
use kettlingar_go.Rpc.Mux.{
  Verdict, skipped, described, refused, panics, Service, Registered, registered, and_then,
  routes_of, register_method, regroup, regroup_desc,
}
use kettlingar_go.Rpc.Registration.{GoMethod, describe, register_methods, register_service}
use kettlingar_go.Rpc.Registration.Routes.{all_routes-append, regroup-routes}
use kettlingar_go.Rpc.Make.Registers.{
  names, IsSegment, AreNew, Describes, Has, Serves, secret_route, plain_route, register_method-new,
}

names-append : (ds es : List MethodDesc) → names (ds ++ es) ≡ names ds ++ names es
names-append [] es = refl
names-append (d ∷ ds) es = ap (◌∷◌ d.name) (names-append ds es)

-- The service with one more method.
abbrev joined_by : MethodDesc → Service → Service
joined_by d ks = record ks {
  registry = ks.registry ++ d ∷ [];
  mux = (ks.mux ++ secret_route ks.secret d ∷ []) ++ plain_route d ∷ [];
}

joined_by-Has :
    (d : MethodDesc) (ks : Service) (secret : Bytes) (seen : List Bytes)
    → Has secret seen ks
    → Has secret (seen ++ d.name ∷ []) (joined_by d ks)
joined_by-Has d ks secret seen h = record {
  same_secret = h.same_secret;
  literal = h.literal;
  routes =
      append_assoc ks.mux (secret_route ks.secret d ∷ []) (plain_route d ∷ [])
      ∙ ap (λ m. m ++ routes_of ks.secret d) h.routes
      ∙ sym (all_routes-append ks.secret ks.registry (d ∷ []));
  named = names-append ks.registry (d ∷ []) ∙ ap (λ ns. ns ++ d.name ∷ []) h.named;
}

-- What is left of a registration serves whatever it is given.
abbrev Continues : Bytes → List Verdict → (Service → Registered) → Type 0
Continues secret vs k =
    (ks : Service) (seen ns : List Bytes)
    → Has secret seen ks
    → All IsSegment seen
    → AreNew seen ns
    → Describes vs ns
    → Serves secret (seen ++ ns) (k ks)

and_then-Serves :
    (v : Verdict) (vs : List Verdict) (secret : Bytes) (k : Service → Registered)
    → IsSegment secret
    → Continues secret vs k
    → Continues secret (v ∷ vs) (λ ks. and_then (register_method v ks) k)
unfolding register_method
and_then-Serves skipped vs secret k hs more ks seen ns h clean new d = more ks seen ns h clean new d
and_then-Serves (refused e) vs secret k hs more ks seen ns h clean new d = absurd d
and_then-Serves panics vs secret k hs more ks seen ns h clean new d = absurd d
and_then-Serves (described desc) vs secret k hs more ks seen [] h clean new d = absurd d
and_then-Serves (described desc) vs secret k hs more ks seen (n ∷ ns) h clean new d =
    let name = sym d.0 in
    let done =
      register_method-new desc ks h.literal h.routes (subst IsSegment (sym h.same_secret) hs)
        (subst IsSegment name new.0) (subst (All IsSegment) (sym h.named) clean)
        (subst (λ ms. All (λ m. m ≢ desc.name) ms) (sym h.named)
          (subst (λ n'. All (λ m. m ≢ n') seen) name new.1)) in
    let rest : Serves secret ((seen ++ n ∷ []) ++ ns) (k (joined_by desc ks)) =
      more (joined_by desc ks) (seen ++ n ∷ []) ns
        (subst (λ n'. Has secret (seen ++ n' ∷ []) (joined_by desc ks)) d.0
          (joined_by-Has desc ks secret seen h))
        (All-append IsSegment seen (n ∷ []) clean (new.0, tt)) new.2 d.1 in
    subst (λ x. Serves secret (seen ++ n ∷ ns) (and_then x k)) (sym done)
      (subst (λ ms. Serves secret ms (k (joined_by desc ks))) (append_assoc seen (n ∷ []) ns) rest)

regroup_desc-names :
    (name g : Bytes) (ds : List MethodDesc) → names (map (regroup_desc name g) ds) ≡ names ds
regroup_desc-names name g [] = refl
regroup_desc-names name [] (d ∷ ds) = ap (◌∷◌ d.name) (regroup_desc-names name [] ds)
regroup_desc-names name (c ∷ g) (d ∷ ds) = elim (Bool-cases (bytes_eq d.name name)) [
  | inl e ↦ rw e (ap (◌∷◌ d.name) (regroup_desc-names name (c ∷ g) ds))
  | inr e ↦ rw e (ap (◌∷◌ d.name) (regroup_desc-names name (c ∷ g) ds))
]

regroup-names : (docs : Dict MethodDesc) (ds : List MethodDesc) → names (regroup docs ds) ≡ names ds
unfolding regroup
regroup-names [] ds = refl
regroup-names ((name, d) ∷ docs) ds =
    regroup-names docs (map (regroup_desc name d.group) ds) ∙ regroup_desc-names name d.group ds

regroup-Has :
    (docs : Dict MethodDesc) (ks : Service) (secret : Bytes) (ns : List Bytes)
    → Has secret ns ks
    → Has secret ns (record ks { registry = regroup docs ks.registry })
regroup-Has docs ks secret ns h = record {
  same_secret = h.same_secret;
  literal = h.literal;
  routes = h.routes ∙ sym (regroup-routes ks.secret docs ks.registry);
  named = regroup-names docs ks.registry ∙ h.named;
}

module _ (U : Unicode) (renders : GoType → Option Bytes) (docs : Dict MethodDesc) where
  abbrev pub verdicts : List GoMethod → List Verdict
  verdicts ms = map (describe U renders docs) ms

  register_methods-Serves :
      (ms : List GoMethod) (secret : Bytes)
      → IsSegment secret
      → Continues secret (verdicts ms) (register_methods U renders docs ms)
  unfolding register_methods
  register_methods-Serves [] secret hs ks seen [] h clean new d = record {
    service = ks;
    done = refl;
    has = subst (λ ns. Has secret ns ks) (sym (append-nil seen)) h;
  }
  register_methods-Serves [] secret hs ks seen (n ∷ ns) h clean new d = absurd d
  register_methods-Serves (m ∷ ms) secret hs ks seen ns h clean new d =
      and_then-Serves (describe U renders docs m) (verdicts ms) secret
        (register_methods U renders docs ms) hs (register_methods-Serves ms secret hs) ks seen ns h
        clean new d

  -- RegisterService succeeds where the service's methods are all described, and their names are
  -- without slashes, blanks, tabs, braces and percent signs, pairwise different, and not yet taken.
  pub register_service-Serves :
      (ms : List GoMethod) (secret : Bytes)
      → IsSegment secret
      → Continues secret (verdicts ms) (register_service U renders docs ms)
  unfolding register_service
  register_service-Serves ms secret hs ks seen ns h clean new d =
      let s = register_methods-Serves ms secret hs ks seen ns h clean new d in
      record {
        service = record s.service { registry = regroup docs s.service.registry };
        done =
            ap
              (λ x.
                and_then x λ ks'. registered (record ks' { registry = regroup docs ks'.registry }))
              s.done;
        has = regroup-Has docs s.service secret (seen ++ ns) s.has;
      }
