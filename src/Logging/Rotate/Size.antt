-- ===== src/Logging/Rotate/Size.antt =====
-- The size of the log file.
use kettlingar_go.Prelude.{
  ℕ, ◌+◌, ◌≤◌, ◌≡◌, refl, ap, sym, ◌∙◌, arith, Bool-cases, Option-cases, inl, inr, Bool, true,
  false, ◌&&◌, All, if◌then◌else◌, List, [], ◌∷◌, ◌++◌, length, length-append, Bytes, Option, none,
  some, pos, ltb_ℤ, subst,
}
use kettlingar_go.Logging.Rotate.{
  Name, log_file, same_name, Files, create, FileConfig, RotatingWriter, backup_name, max_bytes,
  shift_backups, open_log, move_current, prune_age, rotate, append_to, write, needs_rotation,
}

-- The writer's count is the length of the log file.
pub record IsSized (w : RotatingWriter) : Type 0 where
  pub text : Bytes
  pub there : w.files log_file ≡ some text
  pub counted : w.size ≡ length text

pub open_log-IsSized : (cfg : FileConfig) (fs : Files) → IsSized (open_log cfg fs)
unfolding open_log
open_log-IsSized cfg fs = elim (Option-cases (fs log_file)) [
  | inl e ↦ rw (e, open_log) (record { text = []; there = refl; counted = refl })
  | inr (t, e) ↦ rw (e, open_log) (record { text = t; there = e; counted = refl })
]

open_log-missing :
    (cfg : FileConfig) (fs : Files)
    → fs log_file ≡ none
    → open_log cfg fs ≡ record { cfg = cfg; files = create log_file [] fs; size = 0 }
unfolding open_log
open_log-missing cfg fs e = rw (e, open_log) refl

log-backup : (cfg : FileConfig) (i : ℕ) → same_name log_file (backup_name cfg i) ≡ false
unfolding backup_name
log-backup cfg i = elim (Bool-cases cfg.compress) [ inl c ↦ rw c refl | inr c ↦ rw c refl ]

if-none : (b : Bool) (o : Option Bytes) → o ≡ none → (if b then none else o) ≡ none
if-none true o e = refl
if-none false o e = e

module _ (gzip : Bytes → Bytes) (expired : Name → Bool) where
  move_current-gone :
      (cfg : FileConfig) (fs : Files) → move_current gzip expired cfg fs log_file ≡ none
  unfolding move_current
  move_current-gone cfg fs = elim (Bool-cases cfg.compress) [
    | inl c ↦ elim (Option-cases (fs log_file)) [
      | inl e ↦ ground (arith, c, e)
      | inr (t, e) ↦ ground (arith, c, e, log-backup cfg 1)
    ]
    | inr c ↦ elim (Option-cases (fs log_file)) [
      | inl e ↦ ground (arith, c, e)
      | inr (t, e) ↦ ground (arith, c, e, log-backup cfg 1)
    ]
  ]

  -- A rotation starts an empty log file.
  pub rotate-empty :
      (w : RotatingWriter)
      → rotate gzip expired w ≡ record {
        cfg = w.cfg;
        files = create log_file [] (
            prune_age gzip expired w.cfg
              (move_current gzip expired w.cfg (shift_backups w.cfg w.files)));
        size = 0;
      }
  unfolding rotate prune_age
  rotate-empty w =
      let moved = move_current gzip expired w.cfg (shift_backups w.cfg w.files) in
      open_log-missing w.cfg (prune_age gzip expired w.cfg moved) (
        if-none (ltb_ℤ (pos 0) w.cfg.max_age_days && false) (moved log_file)
          (move_current-gone w.cfg (shift_backups w.cfg w.files)))

  append_to-IsSized :
      (p : Bytes) (w : RotatingWriter) → IsSized w → IsSized (append_to gzip expired p w)
  unfolding append_to
  append_to-IsSized p w s = record {
    text = s.text ++ p;
    there = ap (λ o. some (elim o [ none ↦ p | some text ↦ text ++ p ])) s.there;
    counted = ap (λ n. n + length p) s.counted ∙ sym (length-append s.text p);
  }

  abbrev pub Fits : FileConfig → RotatingWriter → Type 0
  Fits cfg w = (w.cfg ≡ cfg) × (IsSized w × (w.size ≤ max_bytes cfg))

  write-fitting :
      (b : Bool) (p : Bytes) (w : RotatingWriter)
      → needs_rotation p w ≡ b
      → IsSized w
      → w.size ≤ max_bytes w.cfg
      → length p ≤ max_bytes w.cfg
      → Fits w.cfg (append_to gzip expired p (if b then rotate gzip expired w else w))
  unfolding append_to
  write-fitting true p w e s within short =
      subst (λ r. Fits w.cfg (append_to gzip expired p r)) (sym (rotate-empty w))
        (
          refl,
          (
            append_to-IsSized p
                (record {
                  cfg = w.cfg;
                  files = create log_file [] (
                      prune_age gzip expired w.cfg
                        (move_current gzip expired w.cfg (shift_backups w.cfg w.files)));
                  size = 0;
                })
                (record { text = []; there = refl; counted = refl }),
            omega (arith, short),
          ),
        )
  write-fitting false p w e s within short =
      (refl, (append_to-IsSized p w s, ground (arith, e, within, short)))

  write-Fits :
      (cfg : FileConfig) (p : Bytes) (w : RotatingWriter)
      → Fits cfg w
      → length p ≤ max_bytes cfg
      → Fits cfg (write gzip expired p w)
  unfolding write
  write-Fits cfg p w (same, (sized, within)) short =
      let at = λ (n : ℕ) (h : n ≤ max_bytes cfg). subst (λ c. n ≤ max_bytes c) (sym same) h in
      subst (λ c. Fits c (write gzip expired p w)) same
        (write-fitting (needs_rotation p w) p w refl sized (at w.size within) (at (length p) short))

  abbrev pub write_all : List Bytes → RotatingWriter → RotatingWriter
  write_all [] w = w
  write_all (p ∷ ps) w = write_all ps (write gzip expired p w)

  -- A writer whose log file is there, and not above the limit: after any writes, none of which is
  -- longer than the limit, its log file is not above the limit, whatever rotations that took, and the
  -- writer's count is the length of the file.
  pub write_all-Fits :
      (cfg : FileConfig) (ps : List Bytes) (w : RotatingWriter)
      → Fits cfg w
      → All (λ p. length p ≤ max_bytes cfg) ps
      → Fits cfg (write_all ps w)
  write_all-Fits cfg [] w f short = f
  write_all-Fits cfg (p ∷ ps) w f short =
      write_all-Fits cfg ps (write gzip expired p w) (write-Fits cfg p w f short.0) short.1
