-- ===== src/Cli/Flags/Registered.antt =====
-- The flags of a command's services are defined where their names are new, and nothing set leaves every
-- field at its default.
use kettlingar_go.Prelude.{
  ◌≡◌, ◌≢◌, refl, sym, ap, ap₂, ◌&&◌, ◌∙◌, subst, arith, All, Bool, true, false, bytes_eq_iff, List,
  [], ◌∷◌, ◌++◌, append_assoc, append-nil, if◌then◌else◌, Bytes, Option, none, some, map,
}
use kettlingar_go.Text.Dashed.{Unicode, dashed_name}
use kettlingar_go.Cli.Flags.{
  Library, ServiceField, ServiceFlag, flag_value, usage_of, has_flag, register_flag, is_annotated,
  then_add, Viper, add_field_flags, add_service_flags, sync_service_configs, set_value, sync_fields,
}
use kettlingar_go.Cli.Flags.Defaults.{
  IsUnset, with_default, read_default, set_value-default, All-prefix,
}

-- None of the names is among `seen` or there twice.
abbrev pub AreFree : List Bytes → List Bytes → Type 0
AreFree seen [] = Unit
AreFree seen (n ∷ ns) = All (λ m. m ≢ n) seen × AreFree (seen ++ n ∷ []) ns

module _ (L : Library) (U : Unicode) where
  abbrev pub flag_of : ServiceField L → ServiceFlag L
  flag_of f = record {
    name = dashed_name U f.field_name;
    usage = usage_of L f.type f.help;
    default_value = flag_value L f.type f.def;
  }

  -- The flags of the annotated fields, in their order.
  abbrev pub field_flags : List (ServiceField L) → List (ServiceFlag L)
  field_flags [] = []
  field_flags (f ∷ fs) =
      let rest = field_flags fs in if is_annotated L f then flag_of f ∷ rest else rest

  abbrev pub service_flags : List (List (ServiceField L)) → List (ServiceFlag L)
  service_flags [] = []
  service_flags (fs ∷ services) = field_flags fs ++ service_flags services

  abbrev pub flag_names : List (ServiceFlag L) → List Bytes
  flag_names flags = map (λ f. f.name) flags

  flag_names-append :
      (xs ys : List (ServiceFlag L)) → flag_names (xs ++ ys) ≡ flag_names xs ++ flag_names ys
  flag_names-append [] ys = refl
  flag_names-append (x ∷ xs) ys = ap (◌∷◌ x.name) (flag_names-append xs ys)

  has_flag-free :
      (name : Bytes) (flags : List (ServiceFlag L))
      → All (λ m. m ≢ name) (flag_names flags)
      → has_flag L name flags ≡ false
  has_flag-free name [] h = refl
  has_flag-free name (f ∷ flags) h =
      ground (arith, has_flag-free name flags h.1, h.0, bytes_eq_iff f.name name)

  -- All flags at once, and one by one.
  unfoldable pub define :
      List (ServiceFlag L) → List (ServiceFlag L) → Option (List (ServiceFlag L))
  define [] flags = some flags
  define (f ∷ fs) flags =
      then_add L (if has_flag L f.name flags then none else some (flags ++ f ∷ [])) (define fs)

  define-free :
      (fs flags : List (ServiceFlag L))
      → AreFree (flag_names flags) (flag_names fs)
      → define fs flags ≡ some (flags ++ fs)
  unfolding define
  define-free [] flags h = ap some (sym (append-nil flags))
  define-free (f ∷ fs) flags h = rw (has_flag-free f.name flags h.0) (
      define-free fs (flags ++ f ∷ [])
        (subst (λ ns. AreFree ns (flag_names fs)) (sym (flag_names-append flags (f ∷ []))) h.1)
      ∙ ap some (append_assoc flags (f ∷ []) fs))

  then_add-same :
      (o : Option (List (ServiceFlag L)))
      (k j : List (ServiceFlag L) → Option (List (ServiceFlag L)))
      → ((flags : List (ServiceFlag L)) → k flags ≡ j flags)
      → then_add L o k ≡ then_add L o j
  then_add-same none k j h = refl
  then_add-same (some flags) k j h = h flags

  then_add_assoc :
      (o : Option (List (ServiceFlag L)))
      (k j : List (ServiceFlag L) → Option (List (ServiceFlag L)))
      → then_add L (then_add L o k) j ≡ then_add L o (λ flags. then_add L (k flags) j)
  then_add_assoc none k j = refl
  then_add_assoc (some flags) k j = refl

  define-append :
      (xs ys flags : List (ServiceFlag L))
      → define (xs ++ ys) flags ≡ then_add L (define xs flags) (define ys)
  unfolding define
  define-append [] ys flags = refl
  define-append (x ∷ xs) ys flags =
      let first = if has_flag L x.name flags then none else some (flags ++ x ∷ []) in
      then_add-same first (define (xs ++ ys)) (λ more. then_add L (define xs more) (define ys))
        (define-append xs ys)
      ∙ sym (then_add_assoc first (define xs) (define ys))

  add_field-define :
      (a : Bool) (f : ServiceField L) (fs : List (ServiceField L)) (flags : List (ServiceFlag L))
      → ((more : List (ServiceFlag L)) → add_field_flags L U fs more ≡ define (field_flags fs) more)
      → then_add L
          (if a
            then register_flag L (dashed_name U f.field_name) f.def f.help f.type flags
            else some flags)
          (add_field_flags L U fs)
        ≡ define (if a then flag_of f ∷ field_flags fs else field_flags fs) flags
  unfolding register_flag define
  add_field-define true f fs flags h =
      then_add-same
        (if has_flag L (dashed_name U f.field_name) flags
          then none
          else some (flags ++ flag_of f ∷ []))
        (add_field_flags L U fs) (define (field_flags fs)) h
  add_field-define false f fs flags h = h flags

  add_field_flags-define :
      (fs : List (ServiceField L)) (flags : List (ServiceFlag L))
      → add_field_flags L U fs flags ≡ define (field_flags fs) flags
  unfolding add_field_flags define
  add_field_flags-define [] flags = refl
  add_field_flags-define (f ∷ fs) flags =
      add_field-define (is_annotated L f) f fs flags (add_field_flags-define fs)

  pub add_service_flags-define :
      (services : List (List (ServiceField L))) (flags : List (ServiceFlag L))
      → add_service_flags L U services flags ≡ define (service_flags services) flags
  unfolding add_service_flags define
  add_service_flags-define [] flags = refl
  add_service_flags-define (fs ∷ services) flags =
      ap (λ o. then_add L o (add_service_flags L U services)) (add_field_flags-define fs flags)
      ∙ then_add-same (define (field_flags fs) flags) (add_service_flags L U services)
          (define (service_flags services)) (add_service_flags-define services)
      ∙ sym (define-append (field_flags fs) (service_flags services) flags)

  module _ (V : Viper L) where
    field-default :
        (a : Bool) (f : ServiceField L) (rest : List (ServiceFlag L))
        → All (IsUnset L U V) (if a then flag_of f ∷ rest else rest)
        → ((if a && f.can_set
              then record f { value = set_value L U V (dashed_name U f.field_name) f.type f.value }
              else f)
            ≡ (if a && f.can_set
                then record f { value = read_default L U V f.type f.def f.value }
                else f))
          × All (IsUnset L U V) rest
    field-default true f rest h = (
      ap (λ v. if f.can_set then record f { value = v } else f)
          (set_value-default L U V (dashed_name U f.field_name) (usage_of L f.type f.help) f.def
            f.type f.value h.0),
      h.1,
    )
    field-default false f rest h = (refl, h)

    sync_fields-default :
        (fs : List (ServiceField L))
        → All (IsUnset L U V) (field_flags fs)
        → sync_fields L U V fs ≡ map (with_default L U V) fs
    unfolding sync_fields
    sync_fields-default [] h = refl
    sync_fields-default (f ∷ fs) h =
        let k = field-default (is_annotated L f) f (field_flags fs) h in
        ap₂ (◌∷◌) k.0 (sync_fields-default fs k.1)

    services-default :
        (services : List (List (ServiceField L)))
        → All (IsUnset L U V) (service_flags services)
        → sync_service_configs L U V services ≡ map (map (with_default L U V)) services
    unfolding sync_service_configs
    services-default [] h = refl
    services-default (fs ∷ services) h =
        let k = All-prefix L U V (IsUnset L U V) (field_flags fs) (service_flags services) h in
        ap₂ (◌∷◌) (sync_fields-default fs k.0) (services-default services k.1)

  -- Where the names of the flags of a command and of its services' annotated fields are pairwise
  -- different, addServiceFlags adds one flag for each annotated field, in their order. Where nothing
  -- is set for any of these flags, so that viper gives the default of each, syncServiceConfigs then
  -- gives each annotated field that can be set its default text, read as a value of its type, and leaves
  -- the other fields as they are. A text that is no date or address, and a kind that is not handled,
  -- leave the field's value. Of the command's own flags viper knows nothing, and nothing is assumed.
  pub sync_service_configs-default :
      (V : Viper L) (services : List (List (ServiceField L))) (flags : List (ServiceFlag L))
      → AreFree (flag_names flags) (flag_names (service_flags services))
      → All (IsUnset L U V) (service_flags services)
      → (add_service_flags L U services flags ≡ some (flags ++ service_flags services))
        × (sync_service_configs L U V services ≡ map (map (with_default L U V)) services)
  sync_service_configs-default V services flags free unset = (
    add_service_flags-define services flags ∙ define-free (service_flags services) flags free,
    services-default V services unset,
  )
