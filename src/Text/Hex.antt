-- ===== src/Text/Hex.antt =====
-- `%x` on bytes: two lower-case digits a byte.
use kettlingar_go.Prelude.{
  ℕ, ◌+◌, ◌/◌, ◌%◌, ◌-◌, ◌<◌, ◌≡◌, refl, arith, Bytes, [], ◌∷◌, ltb, if◌then◌else◌, codes, ◌*◌,
  Option, none, some, All,
}

abbrev pub hex_digit : ℕ → ℕ
hex_digit d = if ltb d 10 then b'0' + d else b'a' + (d - 10)

unfoldable pub hex : Bytes → Bytes
hex [] = []
hex (c ∷ cs) = hex_digit (c / 16) ∷ hex_digit (c % 16) ∷ hex cs

abbrev digit_value : ℕ → ℕ
digit_value c = if ltb c b'a' then c - b'0' else c - b'a' + 10

abbrev pub unhex : Bytes → Option Bytes
unhex [] = some []
unhex (a ∷ []) = none
unhex (a ∷ b ∷ cs) = elim (unhex cs) [
  | none ↦ none
  | some ds ↦ some ((digit_value a * 16 + digit_value b) ∷ ds)
]

pair_value :
    (c : ℕ) → c < 256 → digit_value (hex_digit (c / 16)) * 16 + digit_value (hex_digit (c % 16)) ≡ c
pair_value c h = ground arith

pub unhex-hex : (bs : Bytes) → All (λ c. c < 256) bs → unhex (hex bs) ≡ some bs
unfolding hex
unhex-hex [] h = refl
unhex-hex (c ∷ cs) h = rw (unhex-hex cs h.1, pair_value c h.0)

hex_bytes : hex (0 ∷ 255 ∷ 171 ∷ []) ≡ codes "00ffab"
unfolding hex
hex_bytes = refl
