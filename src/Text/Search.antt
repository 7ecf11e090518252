-- ===== src/Text/Search.antt =====
-- What the program uses of Go's `strings`, over bytes: HasPrefix, TrimPrefix, Contains, and Trim
-- and Split with a single byte.
use kettlingar_go.Prelude.{
  ℕ, ◌≡◌, ◌≢◌, ◌↔◌, refl, sym, ap, ap₂, ◌∙◌, arith, All, Bool-cases, Option-cases, inl, inr, ==_iff,
  Bool, true, false, ◌&&◌, ◌||◌, List, [], ◌∷◌, ◌++◌, ◌==◌, if◌then◌else◌, Bytes, bytes_eq,
  bytes_eq_iff, Option, none, some,
}

abbrev pub has_prefix : Bytes → Bytes → Bool
has_prefix s [] = true
has_prefix [] (p ∷ ps) = false
has_prefix (c ∷ s) (p ∷ ps) = c == p && has_prefix s ps

-- strings.CutPrefix
abbrev pub cut_prefix : Bytes → Bytes → Option Bytes
cut_prefix s [] = some s
cut_prefix [] (p ∷ ps) = none
cut_prefix (c ∷ s) (p ∷ ps) = if c == p then cut_prefix s ps else none

abbrev pub trim_prefix : Bytes → Bytes → Bytes
trim_prefix s p = elim (cut_prefix s p) [ some rest ↦ rest | none ↦ s ]

abbrev pub contains : Bytes → Bytes → Bool
contains [] sub = has_prefix [] sub
contains (c ∷ s) sub = has_prefix (c ∷ s) sub || contains s sub

module _ (sep : ℕ) where
  abbrev pub trim_left : Bytes → Bytes
  trim_left [] = []
  trim_left (c ∷ s) = if c == sep then trim_left s else c ∷ s

  abbrev pub trim_right : Bytes → Bytes
  trim_right [] = []
  trim_right (c ∷ s) = elim (trim_right s) [
    | [] ↦ if c == sep then [] else c ∷ []
    | d ∷ ds ↦ c ∷ d ∷ ds
  ]

  abbrev pub trim : Bytes → Bytes
  trim s = trim_right (trim_left s)

  abbrev onto_head : ℕ → List Bytes → List Bytes
  onto_head c [] = (c ∷ []) ∷ []
  onto_head c (p ∷ ps) = (c ∷ p) ∷ ps

  abbrev pub split : Bytes → List Bytes
  split [] = [] ∷ []
  split (c ∷ s) = let rest = split s in if c == sep then [] ∷ rest else onto_head c rest

  -- strings.Join
  abbrev pub join : List Bytes → Bytes
  join [] = []
  join (p ∷ []) = p
  join (p ∷ q ∷ ps) = p ++ sep ∷ join (q ∷ ps)

  abbrev pub Lacks : Bytes → Type 0
  Lacks = All (λ c. c ≢ sep)

  pub split-append : (p s : Bytes) → Lacks p → split (p ++ sep ∷ s) ≡ p ∷ split s
  split-append [] s h = ground arith
  split-append (c ∷ p) s h = ground (arith, split-append p s h.1, h.0)

  pub split_lacking : (p : Bytes) → Lacks p → split p ≡ p ∷ []
  split_lacking [] h = refl
  split_lacking (c ∷ p) h = ground (arith, split_lacking p h.1, h.0)

  join-onto_head : (c : ℕ) (ps : List Bytes) → join (onto_head c ps) ≡ c ∷ join ps
  join-onto_head c [] = refl
  join-onto_head c (p ∷ []) = refl
  join-onto_head c (p ∷ q ∷ ps) = refl

  pub split_nonempty : (s : Bytes) → (p : Bytes) × (ps : List Bytes) × (split s ≡ p ∷ ps)
  split_nonempty [] = ([], [], refl)
  split_nonempty (c ∷ s) =
      let e = split_nonempty s in
      elim (Bool-cases (c == sep)) [
        | inl at ↦ ([], split s, rw at refl)
        | inr off ↦ (c ∷ e.0, e.1, rw (off, e.2) refl)
      ]

  pub join-split : (s : Bytes) → join (split s) ≡ s
  join-split [] = refl
  join-split (c ∷ s) =
      let e = split_nonempty s in
      elim (Bool-cases (c == sep)) [
        | inl at ↦
            rw (at, e.2) (ap₂ (◌∷◌) (sym ((==_iff c sep).0 at)) (ap join (sym e.2) ∙ join-split s))
        | inr off ↦ rw off (join-onto_head c (split s) ∙ ap (◌∷◌ c) (join-split s))
      ]

pub cut_prefix_iff : (s p rest : Bytes) → (cut_prefix s p ≡ some rest) ↔ (s ≡ p ++ rest)
cut_prefix_iff s [] rest = ground arith
cut_prefix_iff [] (x ∷ p) rest = ground arith
cut_prefix_iff (c ∷ s) (x ∷ p) rest = ground (arith, cut_prefix_iff s p rest)

has_prefix-eq :
    (s p : Bytes) → has_prefix s p ≡ elim (cut_prefix s p) [ none ↦ false | some rest ↦ true ]
has_prefix-eq s [] = refl
has_prefix-eq [] (x ∷ p) = refl
has_prefix-eq (c ∷ s) (x ∷ p) = ground (arith, has_prefix-eq s p)

pub trim_prefix_iff :
    (s p rest : Bytes)
    → ((has_prefix s p && bytes_eq (trim_prefix s p) rest) ≡ true) ↔ (s ≡ p ++ rest)
trim_prefix_iff s p rest = elim (Option-cases (cut_prefix s p)) [
  | inl e ↦ ground (arith, has_prefix-eq s p, cut_prefix_iff s p rest, e)
  | inr (t, e) ↦ ground (
    arith,
    has_prefix-eq s p,
    cut_prefix_iff s p rest,
    cut_prefix_iff s p t,
    e,
    bytes_eq_iff t rest,
  )
]
