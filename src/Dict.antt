-- ===== src/Dict.antt =====
-- Go's map with string keys, as an association list with the newest entry of a key in its place.
-- Where the program ranges over a map it sorts the keys first or does the same for each entry.
use kettlingar_go.Prelude.{
  ◌≡◌, refl, arith, List, [], ◌∷◌, if◌then◌else◌, Bytes, bytes_eq, bytes_eq_iff, Option, none, some,
}

abbrev pub Dict {ℓ} : Type ℓ → Type ℓ
Dict V = List (Bytes × V)

module _ {ℓ} {V : Type ℓ} where
  abbrev pub lookup : Bytes → Dict V → Option V
  lookup k [] = none
  lookup k ((j, v) ∷ m) = if bytes_eq j k then some v else lookup k m

  -- m[k] = v
  abbrev pub insert : Bytes → V → Dict V → Dict V
  insert k v [] = (k, v) ∷ []
  insert k v ((j, w) ∷ m) = if bytes_eq j k then (k, v) ∷ m else (j, w) ∷ insert k v m

  -- maps.Copy(dst, src)
  abbrev pub copy : Dict V → Dict V → Dict V
  copy dst [] = dst
  copy dst ((k, v) ∷ src) = copy (insert k v dst) src

  abbrev pub keys : Dict V → List Bytes
  keys [] = []
  keys ((k, v) ∷ m) = k ∷ keys m

  abbrev pub lookup_or : Bytes → V → Dict V → V
  lookup_or k d m = elim (lookup k m) [ none ↦ d | some v ↦ v ]

  pub lookup-insert :
      (k j : Bytes) (v : V) (m : Dict V)
      → lookup j (insert k v m) ≡ (if bytes_eq k j then some v else lookup j m)
  lookup-insert k j v [] = refl
  lookup-insert k j v ((i, w) ∷ m) =
      ground (arith, bytes_eq_iff k j, bytes_eq_iff i k, bytes_eq_iff i j, lookup-insert k j v m)

  pub lookup_or-insert :
      (k j : Bytes) (v d : V) (m : Dict V)
      → lookup_or j d (insert k v m) ≡ (if bytes_eq k j then v else lookup_or j d m)
  lookup_or-insert k j v d m = ground (arith, lookup-insert k j v m)
