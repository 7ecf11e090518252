-- ===== src/Cli/Values/Typed.antt =====
-- The types of a call's parameters.
use kettlingar_go.Prelude.{
  ◌≡◌, ◌≢◌, ◌↔◌, ◌⊎◌, inl, inr, refl, sym, ap, arith, Bool, true, false, List, [], ◌∷◌, ◌++◌,
  if◌then◌else◌, Bytes, bytes_eq_iff, codes, Option, none, some,
}
use kettlingar_go.Dict.{Dict}
use kettlingar_go.Text.Dashed.{Unicode, dashed_name}
use kettlingar_go.Rpc.Method.{MethodDesc}
use kettlingar_go.Cli.Commands.{is_positional_args}
use kettlingar_go.Cli.Values.{
  Parsers, Value, parse_value, Param, positional, valued, Params, bad_flag, params, with_param,
  with_value, with_text, with_positional, call_params,
}
use kettlingar_go.Cli.Values.Types.{IsTyped, IsRefused, parse_value-IsTyped, parse_value-IsRefused}

-- An argument of a method, by its name and type.
abbrev pub IsArg : Bytes → Bytes → Dict Bytes → Type 0
IsArg name type_name [] = ⊥
IsArg name type_name (a ∷ args) = (a ≡ (name, type_name)) ⊎ IsArg name type_name args

module _ (P : Parsers) where
  module _ (U : Unicode) (get_string : Bytes → Bytes) (m : MethodDesc) (pos_args : List Bytes) where
    -- The text that viper has for an argument.
    abbrev pub text : Bytes → Bytes
    text name = get_string (m.name ++ codes "." ++ dashed_name U name)

    -- The argument that collects the positional ones.
    abbrev pub IsArgs : Bytes → Bytes → Type 0
    IsArgs name t = (name ≡ codes "Args") × (t ≡ [])

    -- An argument for which nothing is given.
    abbrev pub IsSilent : Bytes → Bytes → Type 0
    IsSilent name t = (IsArgs name t × (pos_args ≡ [])) ⊎ ((¬ IsArgs name t) × (text name ≡ []))

    -- What is sent for an argument.
    abbrev pub IsParam : Bytes → Bytes → Param P → Type 0
    IsParam name t (positional xs) = IsArgs name t × (pos_args ≢ []) × (xs ≡ pos_args)
    IsParam name t (valued v) = (¬ IsArgs name t) × (text name ≢ []) × IsTyped P t (text name) v

    -- The parameters of the arguments, in their order, but for those that are silent.
    pub data Sends : Dict Bytes → Dict (Param P) → Type 0 where
      nothing : Sends [] []
      passed :
          (name t : Bytes) (args : Dict Bytes) (ps : Dict (Param P))
          → IsSilent name t
          → Sends args ps
          → Sends ((name, t) ∷ args) ps
      given :
          (name t : Bytes) (p : Param P) (args : Dict Bytes) (ps : Dict (Param P))
          → IsParam name t p
          → Sends args ps
          → Sends ((name, t) ∷ args) ((name, p) ∷ ps)

    abbrev pub AreTyped : Dict Bytes → Params P → Type 0
    AreTyped args (params ps) = Sends args ps
    AreTyped args (bad_flag flag) =
        (name t : Bytes) × IsArg name t args
        × (dashed_name U name ≡ flag)
        × (¬ IsArgs name t)
        × (text name ≢ [])
        × IsRefused P t (text name)

    pass-AreTyped :
        (name t : Bytes) (args : Dict Bytes) (r : Params P)
        → IsSilent name t
        → AreTyped args r
        → AreTyped ((name, t) ∷ args) r
    pass-AreTyped name t args (params ps) s h = passed name t args ps s h
    pass-AreTyped name t args (bad_flag flag) s (n, u, i, f, o, c, g) = (n, u, inr i, f, o, c, g)

    with_param-AreTyped :
        (name t : Bytes) (p : Param P) (args : Dict Bytes) (r : Params P)
        → IsParam name t p
        → AreTyped args r
        → AreTyped ((name, t) ∷ args) (with_param P name p r)
    with_param-AreTyped name t p args (params ps) s h = given name t p args ps s h
    with_param-AreTyped name t p args (bad_flag flag) s (n, u, i, f, o, c, g) =
        (n, u, inr i, f, o, c, g)

    with_positional-AreTyped :
        (name t : Bytes) (args : Dict Bytes) (xs : List Bytes) (r : Params P)
        → IsArgs name t
        → pos_args ≡ xs
        → AreTyped args r
        → AreTyped ((name, t) ∷ args) (with_positional P name xs r)
    with_positional-AreTyped name t args [] r is same h =
        pass-AreTyped name t args r (inl (is, same)) h
    with_positional-AreTyped name t args (x ∷ xs) r is same h =
        with_param-AreTyped name t (positional (x ∷ xs)) args r
          (is, (λ e. ground (arith, e, same)), sym same) h

    with_value-AreTyped :
        (name t : Bytes) (args : Dict Bytes) (o : Option (Value P)) (r : Params P)
        → (¬ IsArgs name t)
        → text name ≢ []
        → parse_value P (text name) t ≡ o
        → AreTyped args r
        → AreTyped ((name, t) ∷ args) (with_value P name (dashed_name U name) o r)
    with_value-AreTyped name t args none r other some_text e h =
        (name, t, inl refl, refl, other, some_text, parse_value-IsRefused P t (text name) e)
    with_value-AreTyped name t args (some v) r other some_text e h =
        with_param-AreTyped name t (valued v) args r
          (other, some_text, parse_value-IsTyped P t (text name) v e) h

    with_text-AreTyped :
        (name t s : Bytes) (args : Dict Bytes) (r : Params P)
        → (¬ IsArgs name t)
        → text name ≡ s
        → AreTyped args r
        → AreTyped ((name, t) ∷ args) (with_text P name (dashed_name U name) t s r)
    with_text-AreTyped name t [] args r other same h =
        pass-AreTyped name t args r (inr (other, same)) h
    with_text-AreTyped name t (c ∷ s) args r other same h =
        with_value-AreTyped name t args (parse_value P (c ∷ s) t) r other
          (λ e. ground (arith, e, same)) (ap (λ s'. parse_value P s' t) same) h

    is_positional_args_iff : (name t : Bytes) → (is_positional_args name t ≡ true) ↔ IsArgs name t
    unfolding is_positional_args
    is_positional_args_iff name t =
        ground (arith, bytes_eq_iff name (codes "Args"), bytes_eq_iff t [])

    with_arg-AreTyped :
        (b : Bool) (args : Dict Bytes) (name t : Bytes) (r : Params P)
        → is_positional_args name t ≡ b
        → AreTyped args r
        → AreTyped ((name, t) ∷ args) (
            if b
            then with_positional P name pos_args r
            else with_text P name (dashed_name U name) t (text name) r)
    with_arg-AreTyped true args name t r e h =
        with_positional-AreTyped name t args pos_args r ((is_positional_args_iff name t).0 e) refl h
    with_arg-AreTyped false args name t r e h =
        with_text-AreTyped name t (text name) args r
          (λ is. ground (arith, e, (is_positional_args_iff name t).1 is)) refl h

    -- The parameters that a call sends are those of the arguments for which something is given, in
    -- the order of the arguments: for Args without a type the positional arguments, where there are
    -- any, and for any other argument, where viper has a text for it that is not empty, a value of the
    -- type that the manifest names, read from this text: the text itself for "string", what the
    -- parsers read for "netip.Addr", "int", "int64", "bool" and "float64", and JSON for any other
    -- name. A call that is given up names the flag of an argument with a text of which no such
    -- value can be read.
    pub call_params-AreTyped :
        (args : Dict Bytes) → AreTyped args (call_params P U get_string m pos_args args)
    unfolding call_params
    call_params-AreTyped [] = nothing
    call_params-AreTyped ((name, t) ∷ args) =
        with_arg-AreTyped (is_positional_args name t) args name t
          (call_params P U get_string m pos_args args) refl (call_params-AreTyped args)
