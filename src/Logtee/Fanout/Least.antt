-- ===== src/Logtee/Fanout/Least.antt =====
-- The least level that subscriptions ask for.
use kettlingar_go.Prelude.{
  ◌≡◌, refl, arith, Bool, true, false, ◌&&◌, List, [], ◌∷◌, ◌⊎◌, inl, inr, if◌then◌else◌, leb_ℤ,
  ltb_ℤ, pos,
}
use kettlingar_go.Slog.{Level}
use kettlingar_go.Logtee.Fanout.{Subscription, min_level}

-- No registered subscription asks for less than `m`.
abbrev pub IsBelow : Level → List Subscription → Type 0
IsBelow m [] = Unit {0}
IsBelow m (s ∷ subs) = (s.registered ≡ true → leb_ℤ m s.level ≡ true) × IsBelow m subs

-- A registered subscription asks for just `m`.
abbrev pub IsAsked : Level → List Subscription → Type 0
IsAsked m [] = ⊥
IsAsked m (s ∷ subs) = ((s.registered ≡ true) × (s.level ≡ m)) ⊎ IsAsked m subs

-- The least of the levels of the registered subscriptions and 127.
abbrev pub IsLeast : Level → List Subscription → Type 0
IsLeast m subs = (leb_ℤ m (pos 127) ≡ true) × IsBelow m subs × ((m ≡ pos 127) ⊎ IsAsked m subs)

leb_ℤ-trans : (a b c : Level) → leb_ℤ a b ≡ true → leb_ℤ b c ≡ true → leb_ℤ a c ≡ true
leb_ℤ-trans a b c h k = ground arith

IsBelow-leb :
    (l m : Level) (subs : List Subscription) → leb_ℤ l m ≡ true → IsBelow m subs → IsBelow l subs
IsBelow-leb l m [] le h = tt
IsBelow-leb l m (s ∷ subs) le h =
    (λ reg. leb_ℤ-trans l m s.level le (h.0 reg), IsBelow-leb l m subs le h.1)

IsAsked-more :
    (s : Subscription) (subs : List Subscription) (m : Level)
    → (m ≡ pos 127) ⊎ IsAsked m subs
    → (m ≡ pos 127) ⊎ IsAsked m (s ∷ subs)
IsAsked-more s subs m (inl e) = inl e
IsAsked-more s subs m (inr k) = inr (inr k)

IsLeast-of :
    (b c : Bool) (s : Subscription) (subs : List Subscription) (m : Level)
    → s.registered ≡ b
    → ltb_ℤ s.level m ≡ c
    → IsLeast m subs
    → IsLeast (if b && c then s.level else m) (s ∷ subs)
IsLeast-of true true s subs m reg lt h =
    let le : leb_ℤ s.level m ≡ true = ground arith in
    (
      leb_ℤ-trans s.level m (pos 127) le h.0,
      (λ is. ground arith, IsBelow-leb s.level m subs le h.1),
      inr (inl (reg, refl)),
    )
IsLeast-of true false s subs m reg ge h =
    (h.0, (λ is. ground arith, h.1), IsAsked-more s subs m h.2)
IsLeast-of false c s subs m gone any h = (h.0, (λ is. ground arith, h.1), IsAsked-more s subs m h.2)

pub min_level-IsLeast : (subs : List Subscription) → IsLeast (min_level subs) subs
unfolding min_level
min_level-IsLeast [] = (refl, tt, inl refl)
min_level-IsLeast (s ∷ subs) =
    IsLeast-of s.registered (ltb_ℤ s.level (min_level subs)) s subs (min_level subs) refl refl
      (min_level-IsLeast subs)
