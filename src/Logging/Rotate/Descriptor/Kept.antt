-- ===== src/Logging/Rotate/Descriptor/Kept.antt =====
-- What a rotation leaves of the log file's text, whatever calls fail (kettlingar/logging/rotate.go).
use kettlingar_go.Prelude.{
  ℕ, zero, suc, ◌-◌, ◌≡◌, refl, sym, ◌∙◌, arith, Bool, true, false, Bool-cases, Option-cases, inl,
  inr, ◌⊎◌, pos, pos_part, ltb_ℤ, Bytes, Option, none, some, subst,
}
use kettlingar_go.Logging.Rotate.{
  Name, log_file, numbered, gzipped, Files, rename, FileConfig, RotatingWriter, backup_name,
  open_log,
}
use kettlingar_go.Logging.Rotate.Faults.{
  Faults, Zipping, whole, unread, unopened, cut, rename_with, once_zipped, zip_into, gzip_file,
  shift_up_with, shift_backups_with, move_current_with, prune_age_with,
}
use kettlingar_go.Logging.Rotate.Faults.Agreement.{rename-moved, gzip_file_there}
use kettlingar_go.Logging.Rotate.Descriptor.{
  Handle, FileWriter, open_with, moved, once_closed, rotate_with, close_file,
}

-- The name of a backup is not the log file's.
shift_step-log_file :
    (f : Faults) (cfg : FileConfig) (i j : ℕ) (fs : Files)
    → rename_with f (backup_name cfg i) (backup_name cfg j) fs log_file ≡ fs log_file
unfolding backup_name
shift_step-log_file f cfg i j fs = ground arith

shift_up_with-log_file :
    (f : Faults) (cfg : FileConfig) (k : ℕ) (fs : Files)
    → shift_up_with f cfg k fs log_file ≡ fs log_file
unfolding shift_up_with
shift_up_with-log_file f cfg zero fs = refl
shift_up_with-log_file f cfg (suc k) fs =
    shift_up_with-log_file f cfg k _ ∙ shift_step-log_file f cfg (suc k) (suc (suc k)) fs

shift_backups_with-log_file :
    (f : Faults) (cfg : FileConfig) (fs : Files)
    → shift_backups_with f cfg fs log_file ≡ fs log_file
unfolding shift_backups_with backup_name
shift_backups_with-log_file f cfg fs = elim (Bool-cases (ltb_ℤ (pos 0) cfg.max_backups)) [
  | inl e ↦ rw e (shift_up_with-log_file f cfg (pos_part cfg.max_backups - 1) _ ∙ ground arith)
  | inr e ↦ rw e refl
]

backup_name-gzipped : (cfg : FileConfig) → cfg.compress ≡ true → backup_name cfg 1 ≡ gzipped 1
unfolding backup_name
backup_name-gzipped cfg c = rw c refl

module _ (gzip : Bytes → Bytes) (expired : Name → Bool) where
  -- The text is in the log file or in PATH.1, or compressed in PATH.1.gz.
  abbrev pub Keeps : Bytes → Files → Type 0
  Keeps text fs =
      (fs log_file ≡ some text)
      ⊎ (fs (numbered 1) ≡ some text)
      ⊎ (fs (gzipped 1) ≡ some (gzip text))

  zip_into-Keeps :
      (f : Faults) (z : Zipping) (text : Bytes) (fs : Files)
      → fs (numbered 1) ≡ some text
      → Keeps text (once_zipped f (zip_into gzip expired z (gzipped 1) text fs))
  zip_into-Keeps f whole text fs e = inr (inr (ground arith))
  zip_into-Keeps f unread text fs e = inr (inl e)
  zip_into-Keeps f unopened text fs e = inr (inl e)
  zip_into-Keeps f (cut bytes) text fs e = inr (inl e)

  compressed-Keeps :
      (f : Faults) (text : Bytes) (fs : Files)
      → fs (numbered 1) ≡ some text
      → Keeps text (once_zipped f (gzip_file gzip expired f.zips (numbered 1) (gzipped 1) fs))
  compressed-Keeps f text fs e =
      subst (λ o. Keeps text (once_zipped f o))
        (sym (gzip_file_there gzip expired f.zips (numbered 1) (gzipped 1) fs text e))
        (zip_into-Keeps f f.zips text fs e)

  -- The log file is moved where the system renames it, and is not touched elsewhere.
  move_current_with-Keeps :
      (f : Faults) (cfg : FileConfig) (text : Bytes) (fs : Files)
      → fs log_file ≡ some text
      → Keeps text (move_current_with gzip expired f cfg fs)
  unfolding move_current_with
  move_current_with-Keeps f cfg text fs e = elim (Bool-cases cfg.compress) [
    | inl c ↦ elim (Bool-cases (f.renames log_file)) [
      | inl r ↦
          rw (c, e, r, backup_name-gzipped cfg c)
            (compressed-Keeps f text (rename log_file (numbered 1) fs) (rename-moved fs text e))
      | inr r ↦ rw (c, e, r) (inl e)
    ]
    | inr c ↦ elim (Bool-cases (f.renames log_file)) [
      | inl r ↦ rw (c, r) (inr (inl (rename-moved fs text e)))
      | inr r ↦ rw (c, r) (inl e)
    ]
  ]

  prune_age_with-young :
      (f : Faults) (cfg : FileConfig) (fs : Files) (n : Name)
      → ltb_ℤ (pos 0) cfg.max_age_days ≡ false
      → prune_age_with gzip expired f cfg fs n ≡ fs n
  unfolding prune_age_with
  prune_age_with-young f cfg fs n young = ground (arith, young)

  Keeps-same :
      (text : Bytes) (fs gs : Files) → ((n : Name) → gs n ≡ fs n) → Keeps text fs → Keeps text gs
  Keeps-same text fs gs same (inl e) = inl (same log_file ∙ e)
  Keeps-same text fs gs same (inr (inl e)) = inr (inl (same (numbered 1) ∙ e))
  Keeps-same text fs gs same (inr (inr e)) = inr (inr (same (gzipped 1) ∙ e))

  moved-Keeps :
      (f : Faults) (inner : RotatingWriter) (text : Bytes)
      → ltb_ℤ (pos 0) inner.cfg.max_age_days ≡ false
      → inner.files log_file ≡ some text
      → Keeps text (moved gzip expired f inner)
  unfolding moved
  moved-Keeps f inner text young e =
      let shifted = shift_backups_with f inner.cfg inner.files in
      let current = move_current_with gzip expired f inner.cfg shifted in
      Keeps-same text current (prune_age_with gzip expired f inner.cfg current)
        (λ n. prune_age_with-young f inner.cfg current n young)
        (move_current_with-Keeps f inner.cfg text shifted
          (shift_backups_with-log_file f inner.cfg inner.files ∙ e))

  -- A log file that is there is opened as it is.
  open_log-Keeps :
      (cfg : FileConfig) (text : Bytes) (fs : Files)
      → Keeps text fs
      → Keeps text (open_log cfg fs).files
  unfolding open_log
  open_log-Keeps cfg text fs k = elim (Option-cases (fs log_file)) [
    | inl e ↦ elim k [
      | inl there ↦ ground (arith, e, there)
      | inr (inl there) ↦ rw (e, open_log) (inr (inl there))
      | inr (inr there) ↦ rw (e, open_log) (inr (inr there))
    ]
    | inr (t, e) ↦ rw (e, open_log) k
  ]

  open_with-Keeps :
      (f : Faults) (w : FileWriter) (text : Bytes)
      → Keeps text w.inner.files
      → Keeps text (open_with f w).0.inner.files
  unfolding open_with
  open_with-Keeps f w text k = elim (Bool-cases f.can_open) [
    | inl e ↦ rw e (open_log-Keeps w.inner.cfg text w.inner.files k)
    | inr e ↦ rw e k
  ]

  once_closed-Keeps :
      (f : Faults) (w : FileWriter) (text : Bytes) (c : Handle × Option Bytes)
      → ltb_ℤ (pos 0) w.inner.cfg.max_age_days ≡ false
      → w.inner.files log_file ≡ some text
      → Keeps text (once_closed gzip expired f w c).0.inner.files
  unfolding once_closed
  once_closed-Keeps f w text (h, some e) young there = inl there
  once_closed-Keeps f w text (h, none) young there =
      open_with-Keeps f
        (record { inner = record w.inner { files = moved gzip expired f w.inner }; file = h }) text
        (moved-Keeps f w.inner text young there)

  -- Where no backup is removed for its age, a rotation of a log file that is there keeps its text,
  -- whatever calls of the system fail in it: the text is still in the log file, or it is in PATH.1,
  -- or it is compressed in PATH.1.gz.
  pub rotate_with-Keeps :
      (f : Faults) (w : FileWriter) (text : Bytes)
      → ltb_ℤ (pos 0) w.inner.cfg.max_age_days ≡ false
      → w.inner.files log_file ≡ some text
      → Keeps text (rotate_with gzip expired f w).0.inner.files
  unfolding rotate_with
  rotate_with-Keeps f w text = once_closed-Keeps f w text (close_file f.can_close w.file)
