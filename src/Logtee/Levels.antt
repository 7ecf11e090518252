-- ===== src/Logtee/Levels.antt =====
-- ParseLevel and LevelString of kettlingar/logtee/logtee.go, on ASCII text.
use kettlingar_go.Prelude.{
  ℕ, ◌+◌, ◌≡◌, refl, arith, ◌||◌, ◌&&◌, Bytes, [], ◌∷◌, leb, if◌then◌else◌, codes, bytes_eq, negsuc,
  ltb_ℤ, Option, none, some,
}
use kettlingar_go.Text.Space.{trim_left, trim_right}
use kettlingar_go.Slog.{Level, level_debug, level_info, level_warn, level_error}

-- slog.LevelDebug - 4.
abbrev pub level_trace : Level
level_trace = negsuc 7

abbrev to_lower : ℕ → ℕ
to_lower c = if leb b'A' c && leb c b'Z' then c + 32 else c

lower : Bytes → Bytes
lower [] = []
lower (c ∷ cs) = to_lower c ∷ lower cs

-- strings.ToLower(strings.TrimSpace(s))
unfoldable pub normalized : Bytes → Bytes
unfolding trim_left trim_right lower
normalized s = lower (trim_right (trim_left s))

-- The switch on the normalized name; `none` stands for the error, whose level is LevelInfo.
unfoldable pub named_level : Bytes → Option Level
named_level s =
    if bytes_eq s (codes "trace")
    then some level_trace
    else if bytes_eq s (codes "debug")
    then some level_debug
    else if bytes_eq s [] || bytes_eq s (codes "info")
    then some level_info
    else if bytes_eq s (codes "warn") || bytes_eq s (codes "warning")
    then some level_warn
    else if bytes_eq s (codes "error") || bytes_eq s (codes "err")
    then some level_error
    else none

unfoldable pub parse_level : Bytes → Option Level
unfolding normalized named_level
parse_level s = named_level (normalized s)

unfoldable pub level_string : Level → Bytes
level_string l =
    if ltb_ℤ l level_debug
    then codes "TRACE"
    else if ltb_ℤ l level_info
    then codes "DEBUG"
    else if ltb_ℤ l level_warn
    then codes "INFO"
    else if ltb_ℤ l level_error
    then codes "WARN"
    else codes "ERROR"

-- The level that names the band which `l` lies in.
abbrev pub band : Level → Level
band l =
    if ltb_ℤ l level_debug
    then level_trace
    else if ltb_ℤ l level_info
    then level_debug
    else if ltb_ℤ l level_warn
    then level_info
    else if ltb_ℤ l level_error
    then level_warn
    else level_error

-- The name of a level is read back as the named level of its band, which has the same name; every
-- named level is its own band.
pub parse_level-level_string :
    (l : Level)
    → (parse_level (level_string l) ≡ some (band l)) × (level_string (band l) ≡ level_string l)
unfolding parse_level level_string
parse_level-level_string l = ground arith

named_bands :
    (band level_trace ≡ level_trace)
    × (band level_debug ≡ level_debug)
    × (band level_info ≡ level_info)
    × (band level_warn ≡ level_warn)
    × (band level_error ≡ level_error)
named_bands = (refl, refl, refl, refl, refl)

parsed : (parse_level (codes " Warning\n") ≡ some level_warn) × (parse_level (codes "loud") ≡ none)
unfolding parse_level
parsed = (refl, refl)
