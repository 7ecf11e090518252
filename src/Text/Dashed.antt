-- ===== src/Text/Dashed.antt =====
-- dashedName of kettlingar/default_main.go. `Unicode` stands for the package unicode.
use kettlingar_go.Prelude.{
  ℕ, ◌≡◌, ◌≢◌, refl, arith, All, Bool, true, false, ◌&&◌, ◌||◌, not, [], ◌∷◌, ◌==◌, if◌then◌else◌,
  Bytes, map, leb, ◌+◌, codes,
}

pub record Unicode : Type 0 where
  pub is_upper : ℕ → Bool
  pub is_lower : ℕ → Bool
  pub is_digit : ℕ → Bool
  pub to_lower : ℕ → ℕ

module _ (U : Unicode) where
  -- The rune behind, 0 at the end.
  abbrev next_rune : Bytes → ℕ
  next_rune [] = 0
  next_rune (r ∷ rest) = r

  -- Whether an upper-case rune starts a word, by its neighbours.
  unfoldable pub starts_word : ℕ → ℕ → Bool
  starts_word prev next = U.is_lower prev || U.is_digit prev || (U.is_upper prev && U.is_lower next)

  -- The loop behind the first rune.
  unfoldable pub dashed_from : ℕ → Bool → Bytes → Bytes
  unfolding starts_word
  dashed_from prev added_dash [] = []
  dashed_from prev added_dash (r ∷ rest) =
      let dash = U.is_upper r && starts_word prev (next_rune rest) in
      let more = dashed_from r dash rest in
      if dash && not added_dash then b'-' ∷ U.to_lower r ∷ more else U.to_lower r ∷ more

  unfoldable pub dashed_name : Bytes → Bytes
  unfolding dashed_from
  dashed_name [] = []
  dashed_name (r ∷ rest) = U.to_lower r ∷ dashed_from r false rest

  abbrev pub without_dashes : Bytes → Bytes
  without_dashes [] = []
  without_dashes (c ∷ cs) = let rest = without_dashes cs in if c == b'-' then rest else c ∷ rest

  -- No dash behind another or, for true, in the first place.
  abbrev pub spaced : Bool → Bytes → Bool
  spaced behind_dash [] = true
  spaced behind_dash (c ∷ cs) =
      let at_dash = c == b'-' in not (at_dash && behind_dash) && spaced at_dash cs

  abbrev pub Plain : Bytes → Type 0
  Plain = All (λ r. U.to_lower r ≢ b'-')

  dashed_from-dashes :
      (prev : ℕ) (added : Bool) (name : Bytes)
      → Plain name
      → without_dashes (dashed_from prev added name) ≡ map U.to_lower name
  unfolding dashed_from
  dashed_from-dashes prev added [] h = refl
  dashed_from-dashes prev added (r ∷ rest) h = ground (
    arith,
    h.0,
    dashed_from-dashes r (U.is_upper r && starts_word prev (next_rune rest)) rest h.1,
  )

  dashed_from-spaced :
      (prev : ℕ) (added : Bool) (name : Bytes)
      → Plain name
      → spaced false (dashed_from prev added name) ≡ true
  unfolding dashed_from
  dashed_from-spaced prev added [] h = refl
  dashed_from-spaced prev added (r ∷ rest) h = ground (
    arith,
    h.0,
    dashed_from-spaced r (U.is_upper r && starts_word prev (next_rune rest)) rest h.1,
  )

  -- Where no rune of a name has the dash as its lower case, the dashed name is the name in lower
  -- case with dashes put in, none of them first and no two together.
  pub dashed_name_lem :
      (name : Bytes)
      → Plain name
      → (without_dashes (dashed_name name) ≡ map U.to_lower name)
        × (spaced true (dashed_name name) ≡ true)
  unfolding dashed_name
  dashed_name_lem [] h = (refl, refl)
  dashed_name_lem (r ∷ rest) h = (
    ground (arith, h.0, dashed_from-dashes r false rest h.1),
    ground (arith, h.0, dashed_from-spaced r false rest h.1),
  )

-- ASCII
abbrev pub ascii : Unicode
ascii = record {
  is_upper = λ c. leb b'A' c && leb c b'Z';
  is_lower = λ c. leb b'a' c && leb c b'z';
  is_digit = λ c. leb b'0' c && leb c b'9';
  to_lower = λ c. if leb b'A' c && leb c b'Z' then c + 32 else c;
}

dashed :
    (dashed_name ascii (codes "MaxConns") ≡ codes "max-conns")
    × (dashed_name ascii (codes "HTTPProxy") ≡ codes "http-proxy")
    × (dashed_name ascii (codes "aBCd") ≡ codes "a-bcd")
unfolding dashed_name
dashed = (refl, refl, refl)
