-- ===== src/Tests/MakeTests.antt =====
-- MakeService on a service with one method.
use kettlingar_go.Prelude.{
  ℕ, zero, suc, ◌≡◌, ◌≢◌, List, true, false, bytes_eq_iff, ◌<◌, refl, arith, All, replicate, length,
  [], ◌∷◌, Bytes, codes, some,
}
use kettlingar_go.Text.Dashed.{ascii, dashed_name}
use kettlingar_go.Rpc.Make.{make_service}
use kettlingar_go.Rpc.Make.Secret.{generate_secret, decode_url, generate_secret_lem}
use kettlingar_go.Text.Search.{Lacks}
use kettlingar_go.Rpc.Make.Registers.{IsPlain, IsPattern, TakesPlain, IsSegment, AreNew}
use kettlingar_go.Rpc.Make.Makes.{Makes, IsSecretOf, make_service-Makes}
use kettlingar_go.Rpc.Registration.{describe}
use kettlingar_go.Tests.RpcTests.{help_method, no_renderer, is_literal, is_there, takes}

first_secret : generate_secret (some (255 ∷ 0 ∷ 16 ∷ 7 ∷ [])) ≡ some (codes "_wAQBw")
unfolding generate_secret
first_secret = refl

names-AreNew : AreNew [] (codes "ping" ∷ codes "metrics" ∷ codes "help" ∷ [])
names-AreNew = (
  ground arith,
  tt,
  (ground arith, (ground arith, tt), (ground arith, (ground arith, (ground arith, tt)), tt)),
)

sevens : (n : ℕ) → All (λ c. c < 256) (replicate n 7)
sevens zero = tt
sevens (suc n) = (omega arith, sevens n)

generate_secret_lem_example :
    (secret : Bytes) × (generate_secret (some (replicate 32 7)) ≡ some secret)
    × (length secret ≡ 43)
    × Lacks b'/' secret
    × (decode_url secret ≡ replicate 32 7)
generate_secret_lem_example = generate_secret_lem (replicate 32 7) refl (sevens 32)

Plain-is_literal : (s : Bytes) → All IsPlain s → is_literal s ≡ true
Plain-is_literal [] h = refl
Plain-is_literal (c ∷ s) h = ground (arith, h.0, Plain-is_literal s h.1)

Pattern-is_literal : (p : Bytes) → IsPattern p → is_literal p ≡ true
Pattern-is_literal [] h = absurd h
Pattern-is_literal (c ∷ s) h = ground (arith, h.0, Plain-is_literal s h.1)

not-is_there : (p : Bytes) (ps : List Bytes) → All (λ q. q ≢ p) ps → is_there p ps ≡ false
not-is_there p [] h = refl
not-is_there p (q ∷ ps) h = ground (arith, h.0, bytes_eq_iff q p, not-is_there p ps h.1)

takes-TakesPlain : TakesPlain takes
takes-TakesPlain ps p there is_pattern new =
    rw (Pattern-is_literal p is_pattern, not-is_there p ps new) refl

make_service-Makes_example :
    (secret : Bytes) × IsSecretOf [] (replicate 32 7) secret
    × IsSegment secret
    × Makes secret (codes "ping" ∷ codes "metrics" ∷ codes "help" ∷ []) (
        make_service ascii no_renderer
          (λ registry. 1 ∷ 2 ∷ 3 ∷ 4 ∷ [])
          takes
          (some (replicate 32 7))
          9
          (codes "demo")
          []
          []
          []
          (help_method ∷ []))
unfolding dashed_name describe
make_service-Makes_example =
    make_service-Makes ascii no_renderer (λ registry. 1 ∷ 2 ∷ 3 ∷ 4 ∷ []) takes 9 (codes "demo") []
      (replicate 32 7) [] (help_method ∷ []) (codes "help" ∷ []) takes-TakesPlain tt refl
      (sevens 32) names-AreNew (refl, tt)
