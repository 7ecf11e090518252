-- ===== src/Cli/Commands/Groups.antt =====
-- The groups that a manifest adds to the command line.
use kettlingar_go.Prelude.{
  ◌≡◌, refl, ◌∙◌, ap, sym, arith, Bool-cases, inl, inr, Bool, true, false, ◌&&◌, ◌||◌, not, All,
  List, [], ◌∷◌, ◌++◌, if◌then◌else◌, Bytes, bytes_eq_refl, append-nil, append_assoc,
}
use kettlingar_go.Rpc.Method.{MethodDesc}
use kettlingar_go.Cli.Commands.{Group, contains_group, is_used, add_groups, add_service_groups}

pub contains_group-append :
    (id : Bytes) (a b : List Group)
    → contains_group id (a ++ b) ≡ contains_group id a || contains_group id b
contains_group-append id [] b = refl
contains_group-append id (g ∷ a) b = ground (arith, contains_group-append id a b)

-- More of the same list.
abbrev pub Extends {ℓ} : {A : Type ℓ} → List A → List A → Type ℓ
Extends {A = A} xs ys = (more : List A) × (ys ≡ xs ++ more)

pub Extends-refl {ℓ} : {A : Type ℓ} (xs : List A) → Extends xs xs
Extends-refl xs = ([], sym (append-nil xs))

pub Extends-trans {ℓ} :
    {A : Type ℓ} (xs ys zs : List A) → Extends xs ys → Extends ys zs → Extends xs zs
Extends-trans xs ys zs (a, e) (b, f) = (a ++ b, f ∙ ap (λ t. t ++ b) e ∙ append_assoc xs a b)

pub if-Extends {ℓ} :
    {A : Type ℓ} (b : Bool) (xs more : List A) → Extends xs (if b then xs ++ more else xs)
if-Extends true xs more = (more, refl)
if-Extends false xs more = Extends-refl xs

pub contains_group-Extends :
    (id : Bytes) (have now : List Group)
    → Extends have now
    → contains_group id have ≡ true
    → contains_group id now ≡ true
contains_group-Extends id have now (more, e) h =
    ap (contains_group id) e
    ∙ contains_group-append id have more
    ∙ ap (λ b. b || contains_group id more) h

module _ (manifest : List MethodDesc) where
  -- A group that would be added.
  abbrev is_missing : Group → List Group → Bool
  is_missing g have = is_used g.id manifest && not (contains_group g.id have)

  abbrev Settled : List Group → Group → Type 0
  Settled have g = is_missing g have ≡ false

  Settled-Extends :
      (g : Group) (have now : List Group) → Extends have now → Settled have g → Settled now g
  Settled-Extends g have now (more, e) s =
      ground (arith, s, ap (contains_group g.id) e, contains_group-append g.id have more)

  abbrev added : Group → List Group → List Group
  added g have = if is_missing g have then have ++ g ∷ [] else have

  added-Settled : (g : Group) (have : List Group) → Settled (added g have) g
  added-Settled g have = elim (Bool-cases (is_missing g have)) [
    | inl e ↦ ground (arith, e, contains_group-append g.id have (g ∷ []), bytes_eq_refl g.id)
    | inr e ↦ ground (arith, e)
  ]

  add_groups-Extends : (groups have : List Group) → Extends have (add_groups manifest groups have)
  add_groups-Extends [] have = Extends-refl have
  add_groups-Extends (g ∷ groups) have =
      Extends-trans have (added g have) (add_groups manifest groups (added g have))
        (if-Extends (is_missing g have) have (g ∷ [])) (add_groups-Extends groups (added g have))

  pub add_service_groups-Extends :
      (services : List (List Group)) (have : List Group)
      → Extends have (add_service_groups manifest services have)
  add_service_groups-Extends [] have = Extends-refl have
  add_service_groups-Extends (groups ∷ services) have =
      let now = add_groups manifest groups have in
      Extends-trans have now (add_service_groups manifest services now)
        (add_groups-Extends groups have) (add_service_groups-Extends services now)

  All-Extends :
      (groups have now : List Group)
      → Extends have now
      → All (Settled have) groups
      → All (Settled now) groups
  All-Extends [] have now e h = tt
  All-Extends (g ∷ groups) have now e h =
      (Settled-Extends g have now e h.0, All-Extends groups have now e h.1)

  add_groups-Settled :
      (groups have : List Group) → All (Settled (add_groups manifest groups have)) groups
  add_groups-Settled [] have = tt
  add_groups-Settled (g ∷ groups) have = (
    Settled-Extends g (added g have) (add_groups manifest groups (added g have))
        (add_groups-Extends groups (added g have)) (added-Settled g have),
    add_groups-Settled groups (added g have),
  )

  add_groups_same :
      (groups have : List Group)
      → All (Settled have) groups
      → add_groups manifest groups have ≡ have
  add_groups_same [] have h = refl
  add_groups_same (g ∷ groups) have h =
      ap (λ b. add_groups manifest groups (if b then have ++ g ∷ [] else have)) h.0
      ∙ add_groups_same groups have h.1

  abbrev AllSettled : List Group → List (List Group) → Type 0
  AllSettled have = All (λ groups. All (Settled have) groups)

  add_service_groups-Settled :
      (services : List (List Group)) (have : List Group)
      → AllSettled (add_service_groups manifest services have) services
  add_service_groups-Settled [] have = tt
  add_service_groups-Settled (groups ∷ services) have =
      let now = add_groups manifest groups have in
      (
        All-Extends groups now (add_service_groups manifest services now)
            (add_service_groups-Extends services now) (add_groups-Settled groups have),
        add_service_groups-Settled services now,
      )

  add_service_groups_same :
      (services : List (List Group)) (have : List Group)
      → AllSettled have services
      → add_service_groups manifest services have ≡ have
  add_service_groups_same [] have h = refl
  add_service_groups_same (groups ∷ services) have h =
      ap (add_service_groups manifest services) (add_groups_same groups have h.0)
      ∙ add_service_groups_same services have h.1

  pub add_service_groups_again :
      (services : List (List Group)) (have : List Group)
      → let now = add_service_groups manifest services have in
        add_service_groups manifest services now ≡ now
  add_service_groups_again services have =
      add_service_groups_same services (add_service_groups manifest services have)
        (add_service_groups-Settled services have)
