-- ===== src/Logging/Rotate/Faults/Agreement.antt =====
-- Without failures the calls of a rotation do what the model without failures says
-- (kettlingar/logging/rotate.go).
use kettlingar_go.Prelude.{
  ℕ, Bool, zero, suc, ◌-◌, ◌≡◌, refl, ap, if◌then◌else◌, pos, pos_part, ltb_ℤ, Bytes, Option-cases,
  inl, inr, some,
}
use kettlingar_go.Logging.Rotate.{
  Name, log_file, numbered, Files, remove, rename, FileConfig, backup_name, shift_up, shift_backups,
  move_current, prune_age,
}
use kettlingar_go.Logging.Rotate.Faults.{
  Zipping, whole, no_faults, zip_into, shift_up_with, shift_backups_with, gzip_file,
  move_current_with, prune_age_with,
}

shift_up_with-no_faults :
    (n : ℕ) (cfg : FileConfig) (k : ℕ) (fs : Files)
    → shift_up_with (no_faults n) cfg k fs ≡ shift_up cfg k fs
unfolding shift_up_with shift_up
shift_up_with-no_faults n cfg zero fs = refl
shift_up_with-no_faults n cfg (suc k) fs = shift_up_with-no_faults n cfg k _

pub shift_backups_with-no_faults :
    (n : ℕ) (cfg : FileConfig) (fs : Files)
    → shift_backups_with (no_faults n) cfg fs ≡ shift_backups cfg fs
unfolding shift_backups_with shift_backups
shift_backups_with-no_faults n cfg fs =
    ap (λ g. if ltb_ℤ (pos 0) cfg.max_backups then g else fs)
      (shift_up_with-no_faults n cfg (pos_part cfg.max_backups - 1)
        (remove (backup_name cfg (pos_part cfg.max_backups)) fs))

pub rename-moved :
    (fs : Files) (text : Bytes)
    → fs log_file ≡ some text
    → rename log_file (numbered 1) fs (numbered 1) ≡ some text
rename-moved fs text e = rw (e, rename) refl

module _ (gzip : Bytes → Bytes) (expired : Name → Bool) where
  pub gzip_file_there :
      (z : Zipping) (src dst : Name) (fs : Files) (text : Bytes)
      → fs src ≡ some text
      → gzip_file gzip expired z src dst fs ≡ zip_into gzip expired z dst text fs
  unfolding gzip_file
  gzip_file_there z src dst fs text e = rw (e, gzip_file) refl

  pub move_current_with-no_faults :
      (n : ℕ) (cfg : FileConfig) (fs : Files)
      → move_current_with gzip expired (no_faults n) cfg fs ≡ move_current gzip expired cfg fs
  unfolding move_current_with move_current
  move_current_with-no_faults n cfg fs = elim (Option-cases (fs log_file)) [
    | inl e ↦ rw e refl
    | inr (text, e) ↦
        rw
          (
            e,
            gzip_file_there whole (numbered 1) (backup_name cfg 1) (rename log_file (numbered 1) fs)
                text (rename-moved fs text e),
          )
          refl
  ]

  pub prune_age_with-no_faults :
      (n : ℕ) (cfg : FileConfig) (fs : Files)
      → prune_age_with gzip expired (no_faults n) cfg fs ≡ prune_age gzip expired cfg fs
  unfolding prune_age_with prune_age
  prune_age_with-no_faults n cfg fs = refl
