-- ===== src/Text/Space.antt =====
-- strings.TrimSpace, on ASCII text.
use kettlingar_go.Prelude.{
  ℕ, ◌≡◌, refl, ◌∙◌, ap, Bool, true, false, ◌||◌, ◌&&◌, Bytes, [], ◌∷◌, ◌++◌, leb, ◌==◌,
  if◌then◌else◌, All,
}

abbrev pub is_space : ℕ → Bool
is_space c = (leb 9 c && leb c 13) || c == b' '

unfoldable pub trim_left : Bytes → Bytes
trim_left [] = []
trim_left (c ∷ cs) = elim (is_space c) [ true ↦ trim_left cs | false ↦ c ∷ cs ]

abbrev pub keep : ℕ → Bytes → Bytes
keep c [] = if is_space c then [] else c ∷ []
keep c (d ∷ ds) = c ∷ d ∷ ds

-- Drops the spaces at the end.
unfoldable pub trim_right : Bytes → Bytes
trim_right [] = []
trim_right (c ∷ cs) = keep c (trim_right cs)

unfoldable pub trim_space : Bytes → Bytes
unfolding trim_left trim_right
trim_space s = trim_right (trim_left s)

abbrev pub Solid : Bytes → Type 0
Solid = All (λ c. is_space c ≡ false)

pub trim_right-solid :
    (c : ℕ) (s : Bytes) → is_space c ≡ false → trim_right (c ∷ s) ≡ c ∷ trim_right s
unfolding trim_right
trim_right-solid c s h = keep-solid (trim_right s)
  where
    keep-solid : (t : Bytes) → keep c t ≡ c ∷ t
    keep-solid [] = rw h refl
    keep-solid (d ∷ ds) = refl

-- Before a byte that stays, all do.
pub trim_right-before :
    (p : Bytes) (c : ℕ) (s : Bytes)
    → is_space c ≡ false
    → trim_right (p ++ c ∷ s) ≡ p ++ c ∷ trim_right s
unfolding trim_right
trim_right-before [] c s h = trim_right-solid c s h
trim_right-before (a ∷ []) c s h = ap (keep a) (trim_right-solid c s h)
trim_right-before (a ∷ b ∷ p) c s h = ap (keep a) (trim_right-before (b ∷ p) c s h)

pub trim_right-Solid : (s : Bytes) → Solid s → trim_right s ≡ s
unfolding trim_right
trim_right-Solid [] h = refl
trim_right-Solid (c ∷ s) h = trim_right-solid c s h.0 ∙ ap (◌∷◌ c) (trim_right-Solid s h.1)

pub trim_space-Solid : (s : Bytes) → Solid s → trim_space s ≡ s
unfolding trim_space trim_left trim_right
trim_space-Solid [] h = refl
trim_space-Solid (c ∷ s) h = rw (h.0, trim_space, trim_left) (trim_right-Solid (c ∷ s) h)
