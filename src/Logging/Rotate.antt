-- ===== src/Logging/Rotate.antt =====
-- rotatingWriter of kettlingar/logging/rotate.go over the contents of the log file and its backups.
-- Here the calls of os succeed where the file is there; Faults has the others. `gzip` stands for
-- compress/gzip, `expired` for the test of a file's modification time. The lock makes every method
-- one step.
pub mod Shift
pub mod Size
pub mod Faults
pub mod Descriptor
use kettlingar_go.Prelude.{
  ℕ, zero, suc, ◌+◌, ◌-◌, ◌*◌, Bool, true, false, ◌&&◌, [], ◌++◌, ltb, ◌==◌, if◌then◌else◌, length,
  ◌%◌, ◌^◌, ℤ, pos, negsuc, pos_part, ltb_ℤ, Bytes, Option, none, some,
}

-- The names that the writer makes: PATH, PATH.i and PATH.i.gz.
pub data Name : Type 0 where
  log_file : Name
  numbered : ℕ → Name
  gzipped : ℕ → Name

abbrev pub same_name : Name → Name → Bool
same_name log_file log_file = true
same_name (numbered i) (numbered j) = i == j
same_name (gzipped i) (gzipped j) = i == j
same_name _ _ = false

abbrev pub Files : Type 0
Files = Name → Option Bytes

abbrev pub remove : Name → Files → Files
remove a fs n = if same_name n a then none else fs n

abbrev pub create : Name → Bytes → Files → Files
create a text fs n = if same_name n a then some text else fs n

-- A file that is not there is not renamed.
abbrev pub rename : Name → Name → Files → Files
rename a b fs n = elim (fs a) [ none ↦ fs n | some text ↦ create b text (remove a fs) n ]

pub record FileConfig : Type 0 where
  pub max_size_mb : ℤ
  pub max_backups : ℤ
  pub max_age_days : ℤ
  pub compress : Bool

pub record RotatingWriter : Type 0 where
  pub cfg : FileConfig
  pub files : Files
  pub size : ℕ

-- The 64 bits of an int.
abbrev pub bits : ℤ → ℕ
bits (pos n) = n % 2 ^ 64
bits (negsuc n) = 2 ^ 64 - 1 - n % 2 ^ 64

-- `int64(cfg.MaxSizeMB) * 1024 * 1024`, which wraps; 0 for a result that is below.
unfoldable pub max_bytes : FileConfig → ℕ
max_bytes cfg =
    let product = bits cfg.max_size_mb * 1024 * 1024 % 2 ^ 64 in
    if ltb product (2 ^ 63) then product else 0

unfoldable pub backup_name : FileConfig → ℕ → Name
backup_name cfg i = if cfg.compress then gzipped i else numbered i

-- `for i := k; i >= 1; i--`, each backup to the next name.
unfoldable pub shift_up : FileConfig → ℕ → Files → Files
unfolding backup_name
shift_up cfg zero fs = fs
shift_up cfg (suc i) fs =
    shift_up cfg i (rename (backup_name cfg (suc i)) (backup_name cfg (suc (suc i))) fs)

unfoldable pub shift_backups : FileConfig → Files → Files
unfolding shift_up backup_name
shift_backups cfg fs =
    if ltb_ℤ (pos 0) cfg.max_backups
    then shift_up cfg (pos_part cfg.max_backups - 1)
        (remove (backup_name cfg (pos_part cfg.max_backups)) fs)
    else fs

-- os.OpenFile with O_CREATE and O_APPEND, and Stat.
unfoldable pub open_log : FileConfig → Files → RotatingWriter
open_log cfg fs = elim (fs log_file) [
  | none ↦ record { cfg = cfg; files = create log_file [] fs; size = 0 }
  | some text ↦ record { cfg = cfg; files = fs; size = length text }
]

abbrev pub needs_rotation : Bytes → RotatingWriter → Bool
needs_rotation p w =
    ltb 0 (max_bytes w.cfg) && (ltb 0 w.size && ltb (max_bytes w.cfg) (w.size + length p))

module _ (gzip : Bytes → Bytes) (expired : Name → Bool) where
  unfoldable pub move_current : FileConfig → Files → Files
  unfolding backup_name
  move_current cfg fs =
      if cfg.compress
      then elim (fs log_file) [
        | none ↦ fs
        | some text ↦
            remove (numbered 1)
              (create (backup_name cfg 1) (gzip text) (rename log_file (numbered 1) fs))
      ]
      else rename log_file (backup_name cfg 1) fs

  abbrev pub old_backup : Name → Bool
  old_backup log_file = false
  old_backup n = expired n

  unfoldable pub prune_age : FileConfig → Files → Files
  prune_age cfg fs n = if ltb_ℤ (pos 0) cfg.max_age_days && old_backup n then none else fs n

  unfoldable pub rotate : RotatingWriter → RotatingWriter
  unfolding shift_backups move_current prune_age open_log
  rotate w = open_log w.cfg (prune_age w.cfg (move_current w.cfg (shift_backups w.cfg w.files)))

  unfoldable pub append_to : Bytes → RotatingWriter → RotatingWriter
  append_to p w = record w {
    files = create log_file (elim (w.files log_file) [ none ↦ p | some text ↦ text ++ p ]) w.files;
    size = w.size + length p;
  }

  unfoldable pub write : Bytes → RotatingWriter → RotatingWriter
  unfolding rotate append_to
  write p w = append_to p (if needs_rotation p w then rotate w else w)
