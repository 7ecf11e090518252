-- ===== src/Cli/Main/ServiceFlags.antt =====
-- The flags of services, as addServiceFlags makes them, on the command `start`.
use kettlingar_go.Prelude.{
  ◌≡◌, refl, sym, ap, ◌∙◌, Bool, true, false, ◌||◌, List, [], ◌∷◌, ◌++◌, if◌then◌else◌, bytes_eq,
  Option, none, some, map,
}
use kettlingar_go.Text.Dashed.{Unicode}
use kettlingar_go.Cli.Flags.{
  Library, ServiceField, ServiceFlag, has_flag, then_add, add_service_flags,
}
use kettlingar_go.Cli.Flags.Registered.{service_flags, define, add_service_flags-define}
use kettlingar_go.Cli.Commands.{Flag, unless_panic, is_defined}
use kettlingar_go.Cli.Main.{define_all}

module _ (L : Library) (U : Unicode) (shown : ServiceFlag L → Flag)
    (named : (f : ServiceFlag L) → (shown f).flag_name ≡ f.name) where
  abbrev all_shown : Option (List (ServiceFlag L)) → Option (List Flag)
  all_shown none = none
  all_shown (some flags) = some (map shown flags)

  map-add :
      (flags : List (ServiceFlag L)) (f : ServiceFlag L)
      → map shown flags ++ shown f ∷ [] ≡ map shown (flags ++ f ∷ [])
  map-add [] f = refl
  map-add (g ∷ flags) f = ap (◌∷◌ (shown g)) (map-add flags f)

  is_defined-has_flag :
      (f : ServiceFlag L) (flags : List (ServiceFlag L))
      → is_defined (shown f).flag_name (map shown flags) ≡ has_flag L f.name flags
  is_defined-has_flag f [] = refl
  is_defined-has_flag f (g ∷ flags) =
      ap (λ n. bytes_eq n (shown f).flag_name || is_defined (shown f).flag_name (map shown flags))
        (named g)
      ∙ ap (λ n. bytes_eq g.name n || is_defined (shown f).flag_name (map shown flags)) (named f)
      ∙ ap (λ b. bytes_eq g.name f.name || b) (is_defined-has_flag f flags)

  step-shown :
      (taken : Bool) (f : ServiceFlag L) (fs flags : List (ServiceFlag L))
      → ((more : List (ServiceFlag L))
          → define_all (map shown fs) (map shown more) ≡ all_shown (define L U fs more))
      → unless_panic
          (if taken then none else some (map shown flags ++ shown f ∷ []))
          (define_all (map shown fs))
        ≡ all_shown (then_add L (if taken then none else some (flags ++ f ∷ [])) (define L U fs))
  step-shown true f fs flags rest = refl
  step-shown false f fs flags rest =
      ap (define_all (map shown fs)) (map-add flags f) ∙ rest (flags ++ f ∷ [])

  define_all-define :
      (fs flags : List (ServiceFlag L))
      → define_all (map shown fs) (map shown flags) ≡ all_shown (define L U fs flags)
  unfolding define_all define
  define_all-define [] flags = refl
  define_all-define (f ∷ fs) flags =
      ap
        (λ b.
          unless_panic (if b then none else some (map shown flags ++ shown f ∷ []))
            (define_all (map shown fs)))
        (is_defined-has_flag f flags)
      ∙ step-shown (has_flag L f.name flags) f fs flags (define_all-define fs)

  -- The flags of the annotated fields, defined one by one on the command, are those that
  -- addServiceFlags leaves, or a panic where it panics.
  define_all-add_service_flags :
      (services : List (List (ServiceField L))) (flags : List (ServiceFlag L))
      → define_all (map shown (service_flags L U services)) (map shown flags)
        ≡ all_shown (add_service_flags L U services flags)
  define_all-add_service_flags services flags =
      define_all-define (service_flags L U services) flags
      ∙ ap all_shown (sym (add_service_flags-define L U services flags))
