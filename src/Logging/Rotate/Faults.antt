-- ===== src/Logging/Rotate/Faults.antt =====
-- The calls of rotate, pruneAge and gzipFile (kettlingar/logging/rotate.go) that can fail, and what
-- they leave behind. The rotation goes on after each of them.
pub mod Agreement
use kettlingar_go.Prelude.{
  ℕ, zero, suc, ◌-◌, Bool, true, false, ◌&&◌, if◌then◌else◌, pos, pos_part, ltb_ℤ, Bytes, Option,
  none, some,
}
use kettlingar_go.Logging.Rotate.{
  Name, log_file, numbered, Files, remove, create, rename, FileConfig, backup_name, old_backup,
}

-- How gzipFile ends: the source is not read, the destination is not opened, a write or a Close fails
-- and leaves these bytes in the destination, or all of it works.
pub data Zipping : Type 0 where
  whole unread unopened : Zipping
  cut : Bytes → Zipping

-- What the system lets a call do: close the file; open it (with its directory) and stat it; how many
-- bytes a write takes at most; rename a file; remove the oldest backup or the copy that was
-- compressed; list the directory; and look at and remove an old backup.
pub record Faults : Type 0 where
  pub can_close : Bool
  pub can_open : Bool
  pub can_stat : Bool
  pub takes : ℕ
  pub renames : Name → Bool
  pub removes : Name → Bool
  pub lists : Bool
  pub prunes : Name → Bool
  pub zips : Zipping

-- No call fails, and a write takes up to n bytes.
abbrev pub no_faults : ℕ → Faults
no_faults n = record {
  can_close = true;
  can_open = true;
  can_stat = true;
  takes = n;
  renames = λ a. true;
  removes = λ a. true;
  lists = true;
  prunes = λ a. true;
  zips = whole;
}

abbrev pub remove_with : Faults → Name → Files → Files
remove_with f a fs = if f.removes a then remove a fs else fs

abbrev pub rename_with : Faults → Name → Name → Files → Files
rename_with f a b fs = if f.renames a then rename a b fs else fs

unfoldable pub shift_up_with : Faults → FileConfig → ℕ → Files → Files
unfolding backup_name
shift_up_with f cfg zero fs = fs
shift_up_with f cfg (suc i) fs =
    shift_up_with f cfg i
      (rename_with f (backup_name cfg (suc i)) (backup_name cfg (suc (suc i))) fs)

unfoldable pub shift_backups_with : Faults → FileConfig → Files → Files
unfolding shift_up_with backup_name
shift_backups_with f cfg fs =
    if ltb_ℤ (pos 0) cfg.max_backups
    then shift_up_with f cfg (pos_part cfg.max_backups - 1)
        (remove_with f (backup_name cfg (pos_part cfg.max_backups)) fs)
    else fs

-- `os.Remove(tmp)`, where gzipFile gave no error.
abbrev pub once_zipped : Faults → Files × Bool → Files
once_zipped f (fs, true) = remove_with f (numbered 1) fs
once_zipped f (fs, false) = fs

module _ (gzip : Bytes → Bytes) (expired : Name → Bool) where
  -- The Boolean says that there was no error.
  abbrev pub zip_into : Zipping → Name → Bytes → Files → Files × Bool
  zip_into whole dst text fs = (create dst (gzip text) fs, true)
  zip_into unread dst text fs = (fs, false)
  zip_into unopened dst text fs = (fs, false)
  zip_into (cut bytes) dst text fs = (create dst bytes fs, false)

  unfoldable pub gzip_file : Zipping → Name → Name → Files → Files × Bool
  gzip_file z src dst fs = elim (fs src) [ none ↦ (fs, false) | some text ↦ zip_into z dst text fs ]

  -- A log file that is not there is not renamed, and nothing is compressed.
  unfoldable pub move_current_with : Faults → FileConfig → Files → Files
  unfolding backup_name gzip_file
  move_current_with f cfg fs =
      if cfg.compress
      then elim (fs log_file) [
        | none ↦ fs
        | some text ↦
            if f.renames log_file
            then once_zipped f (
                gzip_file f.zips (numbered 1) (backup_name cfg 1) (rename log_file (numbered 1) fs))
            else fs
      ]
      else rename_with f log_file (backup_name cfg 1) fs

  unfoldable pub prune_age_with : Faults → FileConfig → Files → Files
  prune_age_with f cfg fs n =
      if (f.lists && f.prunes n) && (ltb_ℤ (pos 0) cfg.max_age_days && old_backup gzip expired n)
      then none
      else fs n
