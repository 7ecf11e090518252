-- ===== src/Client/Loop.antt =====
-- The loop that decodes a stream: what it gives of a whole one, where it ends, and that it never ends
-- at an error that stays.
use kettlingar_go.Prelude.{
  ℕ, zero, suc, ◌≤◌, ◌<◌, ◌≡◌, refl, arith, All, List, [], ◌∷◌, ◌++◌, map, length, length-append,
  Bytes, none, some,
}
use kettlingar_go.Cli.Call.Streams.{flat}
use kettlingar_go.Client.{Decoder, NextValue, at_eof, bad, value, stream_loop}

module _ (D : Decoder) where
  -- A text from which the decoder gets one value and stops behind it.
  abbrev pub Decodes : D.V → Bytes → Type 0
  Decodes v t = (1 ≤ length t) × ((rest : Bytes) → D.next (t ++ rest) ≡ value v rest)

  module _ {ℓ} {A : Type ℓ} (text : A → Bytes) (recv : A → D.V) where
    stream_loop-fuel :
        (xs : List A) (fuel : ℕ)
        → D.next [] ≡ at_eof
        → All (λ x. Decodes (recv x) (text x)) xs
        → length (flat text xs) < fuel
        → stream_loop D fuel (flat text xs) ≡ some (map recv xs)
    unfolding stream_loop
    stream_loop-fuel xs zero e h lt = elim lt [ ]
    stream_loop-fuel [] (suc fuel) e h lt = rw (e, stream_loop) refl
    stream_loop-fuel (x ∷ xs) (suc fuel) e h lt =
        let ih =
          stream_loop-fuel xs fuel e h.1
            (omega (arith, h.0.0, length-append {0} (text x) (flat text xs), lt)) in
        rw (h.0.1 (flat text xs), stream_loop) (rw ih refl)

    pub stream_loop-flat :
        (xs : List A)
        → D.next [] ≡ at_eof
        → All (λ x. Decodes (recv x) (text x)) xs
        → stream_loop D (suc (length (flat text xs))) (flat text xs) ≡ some (map recv xs)
    stream_loop-flat xs e h = stream_loop-fuel xs (suc (length (flat text xs))) e h (omega arith)

  -- At an error that the decoder does not get past, the loop never ends: it uses up any fuel, and
  -- the channel of the call is never closed.
  pub stream_loop-stuck :
      (body : Bytes) (fuel : ℕ) → D.next body ≡ bad body → stream_loop D fuel body ≡ none
  unfolding stream_loop
  stream_loop-stuck body zero e = refl
  stream_loop-stuck body (suc fuel) e = rw (e, stream_loop) (stream_loop-stuck body fuel e)

  -- An error or a value leaves less to read.
  abbrev pub Shortens : Bytes → NextValue D.V → Type 0
  Shortens body at_eof = Unit
  Shortens body (bad rest) = length rest < length body
  Shortens body (value v rest) = length rest < length body

  abbrev Ends : ℕ → Bytes → Type 0
  Ends fuel body = (vs : List D.V) × (stream_loop D fuel body ≡ some vs)

  stream_step-Ends :
      (fuel : ℕ) (body : Bytes) (d : NextValue D.V)
      → D.next body ≡ d
      → Shortens body d
      → ((rest : Bytes) → length rest < length body → Ends fuel rest)
      → Ends (suc fuel) body
  unfolding stream_loop
  stream_step-Ends fuel body at_eof e s ih = ([], rw (e, stream_loop) refl)
  stream_step-Ends fuel body (bad rest) e s ih = ((ih rest s).0, rw (e, stream_loop) (ih rest s).1)
  stream_step-Ends fuel body (value v rest) e s ih =
      (v ∷ (ih rest s).0, rw (e, stream_loop) (rw (ih rest s).1 refl))

  -- The loop ends on every stream where each error and each value leaves the decoder less to read.
  pub stream_loop-Ends :
      (fuel : ℕ) (body : Bytes)
      → ((text : Bytes) → Shortens text (D.next text))
      → length body < fuel
      → Ends fuel body
  stream_loop-Ends zero body s lt = elim lt [ ]
  stream_loop-Ends (suc fuel) body s lt =
      stream_step-Ends fuel body (D.next body) refl (s body)
        λ rest shorter. stream_loop-Ends fuel rest s (omega (arith, shorter, lt))
