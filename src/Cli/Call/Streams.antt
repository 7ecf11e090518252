-- ===== src/Cli/Call/Streams.antt =====
-- What the command line shows of the streams that a service sends.
use kettlingar_go.Prelude.{
  ℕ, zero, suc, ◌≤◌, ◌<◌, ◌≡◌, ◌≢◌, refl, ap, ◌∙◌, arith, lt→ltb, All, List, [], ◌∷◌, ◌++◌, length,
  length-append, if◌then◌else◌, Bytes, Option, none, some,
}
use kettlingar_go.Text.Search.{Lacks, split, split-append, split_nonempty}
use kettlingar_go.Text.Space.{trim_space}
use kettlingar_go.Rpc.Method.{MethodDesc}
use kettlingar_go.Cli.Output.{Out, Shown}
use kettlingar_go.Cli.Call.{
  Raw, raw, max_token, keep_line, raw_lines, drop_cr, without_cr, scanned, scan_lines, show,
  raw_loop, unless_blank, text_lines,
}

-- A text that the scanner gives as it is, and that is shown.
pub record IsLine (l : Bytes) : Type 0 where
  pub one : Lacks b'\n' l
  pub no_cr : Lacks b'\r' l
  pub short : length l < max_token
  pub shows : trim_space l ≢ []

-- Each line with its own newline and an empty line behind it.
abbrev pub body_lines : List Bytes → Bytes
body_lines [] = []
body_lines (l ∷ ls) = l ++ b'\n' ∷ b'\n' ∷ body_lines ls

abbrev pub flat {ℓ κ} : {A : Type ℓ} {B : Type κ} → (A → List B) → List A → List B
flat f [] = []
flat f (x ∷ xs) = f x ++ flat f xs

drop_cr-lacking : (c : ℕ) (l : Bytes) → c ≢ b'\r' → Lacks b'\r' l → drop_cr c l ≡ c ∷ l
drop_cr-lacking c [] h g = ground arith
drop_cr-lacking c (d ∷ l) h g = ap (◌∷◌ c) (drop_cr-lacking d l g.0 g.1)

without_cr-lacking : (l : Bytes) → Lacks b'\r' l → without_cr l ≡ l
without_cr-lacking [] h = refl
without_cr-lacking (c ∷ l) h = drop_cr-lacking c l h.0 h.1

keep_line-split : (l s : Bytes) (rest : List Bytes) → keep_line l (split b'\n' s) rest ≡ l ∷ rest
keep_line-split l s rest = ap (λ t. keep_line l t rest) (split_nonempty b'\n' s).2

scanned-short :
    (l : Bytes) (ls : List Bytes)
    → length l < max_token
    → scanned (l ∷ ls) ≡ without_cr l ∷ scanned ls
scanned-short l ls h =
    ap (λ b. if b then without_cr l ∷ scanned ls else []) (lt→ltb (length l) max_token h)

scan_lines-line :
    (l rest : Bytes) → IsLine l → scan_lines (l ++ b'\n' ∷ b'\n' ∷ rest) ≡ l ∷ [] ∷ scan_lines rest
unfolding scan_lines
scan_lines-line l rest h =
    let tail = raw_lines (split b'\n' rest) in
    ap (λ t. scanned (raw_lines t)) (split-append b'\n' l (b'\n' ∷ rest) h.one)
    ∙ ap (λ t. scanned (l ∷ t)) (keep_line-split [] rest tail)
    ∙ scanned-short l ([] ∷ tail) h.short
    ∙ ap (λ t. t ∷ [] ∷ scanned tail) (without_cr-lacking l h.no_cr)

module _ (S : Shown) (next_raw : Bytes → Option Raw) (out_format : Bytes) (m : MethodDesc) where
  unless_blank-shown :
      (t l mime : Bytes) (rest : List Out)
      → t ≢ []
      → unless_blank S next_raw out_format m t l mime rest
        ≡ show S next_raw out_format m l mime ++ rest
  unless_blank-shown [] l mime rest h = absurd (h refl)
  unless_blank-shown (c ∷ t) l mime rest h = refl

  -- Lines with empty lines between them are shown, each once and in their order.
  pub text_lines-body_lines :
      (mime : Bytes) (ls : List Bytes)
      → All IsLine ls
      → text_lines S next_raw out_format m mime (scan_lines (body_lines ls))
        ≡ flat (λ l. show S next_raw out_format m l mime) ls
  unfolding text_lines scan_lines
  text_lines-body_lines mime [] h = refl
  text_lines-body_lines mime (l ∷ ls) h =
      let rest = text_lines S next_raw out_format m mime (scan_lines (body_lines ls)) in
      ap (text_lines S next_raw out_format m mime) (scan_lines-line l (body_lines ls) h.0)
      ∙ unless_blank-shown (trim_space l) l mime rest h.0.shows
      ∙ ap (λ t. show S next_raw out_format m l mime ++ t) (text_lines-body_lines mime ls h.1)

  -- The decoder gives each of the texts of a stream back, and has io.EOF at its end.
  pub record Splits (texts : List Bytes) : Type 0 where
    pub at_end : next_raw [] ≡ none
    pub at_text :
        All
          (λ t. (1 ≤ length t) × ((rest : Bytes) → next_raw (t ++ rest) ≡ some (raw t rest)))
          texts

  abbrev pub joined : List Bytes → Bytes
  joined = flat (λ t. t)

  raw_loop-fuel :
      (mime : Bytes) (texts : List Bytes) (fuel : ℕ)
      → Splits texts
      → length (joined texts) < fuel
      → raw_loop S next_raw out_format m fuel mime (joined texts)
        ≡ some (flat (λ t. show S next_raw out_format m t mime) texts)
  unfolding raw_loop
  raw_loop-fuel mime texts zero s h = elim h [ ]
  raw_loop-fuel mime [] (suc fuel) s h = rw (s.at_end, raw_loop) refl
  raw_loop-fuel mime (t ∷ texts) (suc fuel) s h =
      let more : Splits texts = record { at_end = s.at_end; at_text = s.at_text.1 } in
      let ih =
        raw_loop-fuel mime texts fuel more
          (omega (arith, s.at_text.0.0, length-append {0} t (joined texts), h)) in
      rw (s.at_text.0.1 (joined texts), raw_loop) (rw ih refl)

  pub raw_loop-joined :
      (mime : Bytes) (texts : List Bytes)
      → Splits texts
      → raw_loop S next_raw out_format m (suc (length (joined texts))) mime (joined texts)
        ≡ some (flat (λ t. show S next_raw out_format m t mime) texts)
  raw_loop-joined mime texts s =
      raw_loop-fuel mime texts (suc (length (joined texts))) s (omega arith)
