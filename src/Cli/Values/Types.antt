-- ===== src/Cli/Values/Types.antt =====
-- What parseValue reads, by the names of types.
use kettlingar_go.Prelude.{
  ◌≡◌, ◌≢◌, inl, inr, refl, ◌∙◌, ap, subst, arith, false, Bool-cases, All, List, [], ◌∷◌,
  if◌then◌else◌, Bytes, bytes_eq, bytes_eq_iff, codes, Option, none, some,
}
use kettlingar_go.Cli.Values.{
  Parsers, Kind, of_string, of_addr, of_int, of_int64, of_bool, of_float, of_json, kind_of, Value,
  string_value, addr_value, int_value, int64_value, bool_value, float_value, json_value, wrap,
  parse_kind, parse_value,
}

-- The types whose values are not sent as JSON.
abbrev pub own_types : List Bytes
own_types =
    codes "string"
    ∷ codes "netip.Addr"
    ∷ codes "int"
    ∷ codes "int64"
    ∷ codes "bool"
    ∷ codes "float64"
    ∷ []

-- The type names for which parseValue goes one way.
abbrev IsNameOf : Kind → Bytes → Type 0
IsNameOf of_string t = t ≡ codes "string"
IsNameOf of_addr t = t ≡ codes "netip.Addr"
IsNameOf of_int t = t ≡ codes "int"
IsNameOf of_int64 t = t ≡ codes "int64"
IsNameOf of_bool t = t ≡ codes "bool"
IsNameOf of_float t = t ≡ codes "float64"
IsNameOf of_json t = All (λ own. t ≢ own) own_types

if-IsNameOf :
    (t own : Bytes) (k other : Kind)
    → (t ≡ own → IsNameOf k t)
    → (t ≢ own → IsNameOf other t)
    → IsNameOf (if bytes_eq t own then k else other) t
if-IsNameOf t own k other named unnamed = elim (Bool-cases (bytes_eq t own)) [
  | inl e ↦ rw e (named ((bytes_eq_iff t own).0 e))
  | inr e ↦ rw e (unnamed λ same. ground (arith, e, (bytes_eq_iff t own).1 same))
]

kind_of-IsNameOf : (t : Bytes) → IsNameOf (kind_of t) t
unfolding kind_of
kind_of-IsNameOf t =
    if-IsNameOf t _ of_string _ (λ e. e)
      λ a.
        if-IsNameOf t _ of_addr _ (λ e. e)
          λ b.
            if-IsNameOf t _ of_int _ (λ e. e)
              λ c.
                if-IsNameOf t _ of_int64 _ (λ e. e)
                  λ d.
                    if-IsNameOf t _ of_bool _ (λ e. e)
                      λ f.
                        if-IsNameOf t _ of_float of_json (λ e. e)
                          λ g. (a, (b, (c, (d, (f, (g, tt))))))

no_own-kind_of : (t : Bytes) → All (λ own. t ≢ own) own_types → kind_of t ≡ of_json
unfolding kind_of
no_own-kind_of t h =
    let not_at : (own : Bytes) → t ≢ own → bytes_eq t own ≡ false = λ own other.
      elim (Bool-cases (bytes_eq t own)) [
        | inl e ↦ absurd (other ((bytes_eq_iff t own).0 e))
        | inr e ↦ e
      ] in
    rw
      (
        not_at (codes "string") h.0,
        not_at (codes "netip.Addr") h.1.0,
        not_at (codes "int") h.1.1.0,
        not_at (codes "int64") h.1.1.1.0,
        not_at (codes "bool") h.1.1.1.1.0,
        not_at (codes "float64") h.1.1.1.1.1.0,
      )
      refl

module _ (P : Parsers) where
  -- A value of the type that a manifest names, read from a text: a text itself for a string, what
  -- the parser of the type reads for the five other names, and JSON for any further name.
  abbrev pub IsTyped : Bytes → Bytes → Value P → Type 0
  IsTyped t s (string_value x) = (t ≡ codes "string") × (s ≡ x)
  IsTyped t s (addr_value a) = (t ≡ codes "netip.Addr") × (P.parse_addr s ≡ some a)
  IsTyped t s (int_value i) = (t ≡ codes "int") × (P.parse_int s ≡ some i)
  IsTyped t s (int64_value i) = (t ≡ codes "int64") × (P.parse_int s ≡ some i)
  IsTyped t s (bool_value b) = (t ≡ codes "bool") × (P.parse_bool s ≡ some b)
  IsTyped t s (float_value f) = (t ≡ codes "float64") × (P.parse_float s ≡ some f)
  IsTyped t s (json_value j) = All (λ own. t ≢ own) own_types × (P.parse_json s ≡ some j)

  wrap-some {ℓ} :
      {A : Type ℓ} (f : A → Value P) (o : Option A) (v : Value P) (Q : Value P → Type 0)
      → wrap P f o ≡ some v
      → ((a : A) → o ≡ some a → Q (f a))
      → Q v
  wrap-some f none v Q e h = ground (arith, e)
  wrap-some f (some a) v Q e h = subst Q (ground (arith, e)) (h a refl)

  parse_kind-IsTyped :
      (k : Kind) (t s : Bytes) (v : Value P)
      → IsNameOf k t
      → parse_kind P s k ≡ some v
      → IsTyped t s v
  parse_kind-IsTyped of_string t s v n e =
      subst (IsTyped t s) {x = string_value s} (ground (arith, e)) (n, refl)
  parse_kind-IsTyped of_addr t s v n e = wrap-some addr_value _ v (IsTyped t s) e (λ a r. (n, r))
  parse_kind-IsTyped of_int t s v n e = wrap-some int_value _ v (IsTyped t s) e (λ a r. (n, r))
  parse_kind-IsTyped of_int64 t s v n e = wrap-some int64_value _ v (IsTyped t s) e (λ a r. (n, r))
  parse_kind-IsTyped of_bool t s v n e = wrap-some bool_value _ v (IsTyped t s) e (λ a r. (n, r))
  parse_kind-IsTyped of_float t s v n e = wrap-some float_value _ v (IsTyped t s) e (λ a r. (n, r))
  parse_kind-IsTyped of_json t s v n e = wrap-some json_value _ v (IsTyped t s) e (λ a r. (n, r))

  of_kind :
      (t s : Bytes) (k : Kind) (v : Value P)
      → kind_of t ≡ k
      → parse_kind P s k ≡ some v
      → parse_value P s t ≡ some v
  unfolding parse_value
  of_kind t s k v e r = ap (parse_kind P s) e ∙ r

  IsTyped-parse_value : (t s : Bytes) (v : Value P) → IsTyped t s v → parse_value P s t ≡ some v
  unfolding kind_of
  IsTyped-parse_value t s (string_value x) (n, e) =
      of_kind t s of_string _ (ap kind_of n) (ap (λ y. some (string_value y)) e)
  IsTyped-parse_value t s (addr_value a) (n, e) =
      of_kind t s of_addr _ (ap kind_of n) (ap (wrap P addr_value) e)
  IsTyped-parse_value t s (int_value i) (n, e) =
      of_kind t s of_int _ (ap kind_of n) (ap (wrap P int_value) e)
  IsTyped-parse_value t s (int64_value i) (n, e) =
      of_kind t s of_int64 _ (ap kind_of n) (ap (wrap P int64_value) e)
  IsTyped-parse_value t s (bool_value b) (n, e) =
      of_kind t s of_bool _ (ap kind_of n) (ap (wrap P bool_value) e)
  IsTyped-parse_value t s (float_value f) (n, e) =
      of_kind t s of_float _ (ap kind_of n) (ap (wrap P float_value) e)
  IsTyped-parse_value t s (json_value j) (n, e) =
      of_kind t s of_json _ (no_own-kind_of t n) (ap (wrap P json_value) e)

  pub parse_value-IsTyped : (t s : Bytes) (v : Value P) → parse_value P s t ≡ some v → IsTyped t s v
  unfolding parse_value
  parse_value-IsTyped t s v e = parse_kind-IsTyped (kind_of t) t s v (kind_of-IsNameOf t) e

  -- No value of the type can be read.
  abbrev pub IsRefused : Bytes → Bytes → Type 0
  IsRefused t s = (v : Value P) → ¬ IsTyped t s v

  pub parse_value-IsRefused : (t s : Bytes) → parse_value P s t ≡ none → IsRefused t s
  parse_value-IsRefused t s e v typed = ground (arith, e, IsTyped-parse_value t s v typed)
