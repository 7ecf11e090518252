-- ===== src/Metrics/Labels.antt =====
-- keyWithLabels, escapeLabel and addLabel of kettlingar/metrics.go.
pub mod Escape
use mathlib.Core.Path.{◌≡◌, refl}
use kettlingar_go.Prelude.{
  ℕ, Bool, true, false, List, [], ◌∷◌, ◌++◌, ltb, ◌==◌, if◌then◌else◌, Bytes, codes, Option, none,
  some, drop,
}
use kettlingar_go.Dict.{Dict, keys, lookup_or}

-- The order of Go's strings.
abbrev pub bytes_lt : Bytes → Bytes → Bool
bytes_lt [] [] = false
bytes_lt [] (y ∷ ys) = true
bytes_lt (x ∷ xs) [] = false
bytes_lt (x ∷ xs) (y ∷ ys) = if ltb x y then true else if ltb y x then false else bytes_lt xs ys

insert_sorted : Bytes → List Bytes → List Bytes
insert_sorted k [] = k ∷ []
insert_sorted k (j ∷ js) = if bytes_lt j k then j ∷ insert_sorted k js else k ∷ j ∷ js

-- slices.Sort; the keys of a map are distinct, so every sort gives this list.
unfoldable pub sort : List Bytes → List Bytes
unfolding insert_sorted
sort [] = []
sort (k ∷ ks) = insert_sorted k (sort ks)

abbrev pub escape_byte : ℕ → Bytes
escape_byte c =
    if c == b'\\'
    then b'\\' ∷ b'\\' ∷ []
    else if c == b'"'
    then b'\\' ∷ b'"' ∷ []
    else if c == b'\n'
    then b'\\' ∷ b'n' ∷ []
    else c ∷ []

unfoldable pub escape_label : Bytes → Bytes
escape_label [] = []
escape_label (c ∷ cs) = escape_byte c ++ escape_label cs

label_text : Dict Bytes → List Bytes → Bytes
unfolding escape_label
label_text labels [] = []
label_text labels (lab ∷ labs) =
    codes ","
    ++ (lab
        ++ (codes "=\""
            ++ (escape_label (lookup_or lab [] labels) ++ (codes "\"" ++ label_text labels labs))))

unfoldable pub key_with_labels : Bytes → Dict Bytes → Bytes
unfolding label_text sort
key_with_labels key [] = key
key_with_labels key (l ∷ labels) =
    key ++ (codes "{" ++ (drop 1 (label_text (l ∷ labels) (sort (keys (l ∷ labels)))) ++ codes "}"))

-- `key[:klen]` where `key[klen:]` is "}".
before_brace : Bytes → Option Bytes
before_brace [] = none
before_brace (c ∷ []) = if c == b'}' then some [] else none
before_brace (c ∷ d ∷ cs) = elim (before_brace (d ∷ cs)) [
  | none ↦ none
  | some init ↦ some (c ∷ init)
]

-- addLabel behind its first slice, which is in range where `key` is not empty.
unfoldable pub attach_label : Bytes → Bytes → Bytes → Bytes
unfolding before_brace escape_label
attach_label key k v =
    let pair = k ++ (codes "=\"" ++ (escape_label v ++ codes "\"}")) in
    elim (before_brace key) [
      | some init ↦ init ++ (codes "," ++ pair)
      | none ↦ key ++ (codes "{" ++ pair)
    ]

-- `none` is the run-time panic of `key[klen:]` at an empty key.
unfoldable pub add_label : Bytes → Bytes → Bytes → Option Bytes
unfolding attach_label
add_label [] k v = none
add_label (c ∷ key) k v = some (attach_label (c ∷ key) k v)

labelled :
    key_with_labels
      (codes "rpc")
      ((codes "status", codes "2\"00") ∷ (codes "method", codes "a") ∷ [])
    ≡ codes "rpc{method=\"a\",status=\"2\\\"00\"}"
unfolding key_with_labels
labelled = refl

added :
    (add_label (codes "a{b=\"c\"}") (codes "le") (codes "32") ≡ some (codes "a{b=\"c\",le=\"32\"}"))
    × (add_label (codes "a") (codes "le") (codes "32") ≡ some (codes "a{le=\"32\"}"))
unfolding add_label
added = (refl, refl)
