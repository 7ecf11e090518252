-- ===== src/Tests/RotateTests.antt =====
-- The descriptor of kettlingar/logging/rotate.go on a full log file.
use kettlingar_go.Prelude.{
  ◌≡◌, refl, arith, All, true, false, [], ◌∷◌, codes, none, some, pos, negsuc, replicate,
  if◌then◌else◌,
}
use kettlingar_go.Logging.Rotate.{
  log_file, numbered, gzipped, same_name, RotatingWriter, write, max_bytes,
}
use kettlingar_go.Logging.Rotate.Descriptor.{
  no_file, opened, FileWriter, write_with, rotate_with, close,
}
use kettlingar_go.Logging.Rotate.Faults.{Faults, no_faults, cut}
use kettlingar_go.Logging.Rotate.Descriptor.Kept.{Keeps, rotate_with-Keeps}
use kettlingar_go.Logging.Rotate.Descriptor.Unopened.{
  Fails, writes, writes-reopen, write_with-write,
}

abbrev full_log : RotatingWriter
full_log = record {
  cfg = record { max_size_mb = pos 1; max_backups = pos 2; max_age_days = pos 0; compress = false };
  files = λ n. if same_name n log_file then some (replicate 1048576 b'x') else none;
  size = 1048576;
}

abbrev full : FileWriter
full = record { inner = full_log; file = opened }

abbrev healthy : Faults
healthy = no_faults 65536

abbrev no_directory : Faults
no_directory = record healthy { can_open = false }

writes-reopen_example :
    let o = write_with (λ text. text) (λ n. false) no_directory (codes "a\n") full in
    (o.1 ≡ 0)
    × (o.2 ≡ some (codes "failed"))
    × All (Fails (λ text. text) (λ n. false) o.0) (
        writes
          (λ text. text)
          (λ n. false)
          ((healthy, codes "b\n") ∷ (healthy, codes "c\n") ∷ [])
          o.0)
unfolding max_bytes
writes-reopen_example =
    writes-reopen (λ text. text) (λ n. false) no_directory (codes "a\n") full
      ((healthy, codes "b\n") ∷ (healthy, codes "c\n") ∷ []) refl refl refl refl

write_with_run : write_with (λ text. text) (λ n. false) healthy (codes "a\n") full ≡ (
  record { inner = write (λ text. text) (λ n. false) (codes "a\n") full_log; file = opened },
  2,
  none,
)
write_with_run =
    write_with-write (λ text. text) (λ n. false) 65536 (codes "a\n") full refl (omega arith)

closed_twice :
    (close true (close true full).0) ≡ (record { inner = full_log; file = no_file }, none)
unfolding close
closed_twice = refl

-- A compressed log of two bytes, on a full disk.
abbrev zipped_log : FileWriter
zipped_log = record {
  inner = record {
    cfg = record {
      max_size_mb = pos 1;
      max_backups = pos 2;
      max_age_days = pos 0;
      compress = true;
    };
    files = λ n. if same_name n log_file then some (codes "a\n") else none;
    size = 2;
  };
  file = opened;
}

abbrev disk_full : Faults
disk_full = record healthy { zips = cut [] }

rotate_with-Keeps_example :
    Keeps
      (λ text. text)
      (λ n. false)
      (codes "a\n")
      (rotate_with (λ text. text) (λ n. false) disk_full zipped_log).0.inner.files
rotate_with-Keeps_example =
    rotate_with-Keeps (λ text. text) (λ n. false) disk_full zipped_log (codes "a\n") refl refl

abbrev after_two : FileWriter
after_two =
    let rotated = rotate_with (λ text. text) (λ n. false) disk_full zipped_log in
    let written = write_with (λ text. text) (λ n. false) disk_full (codes "b\n") rotated.0 in
    (rotate_with (λ text. text) (λ n. false) healthy written.0).0

-- What a failed compression left in PATH.1 is lost with the next rotation, which moves the log file
-- there: of the first text there is nothing in a file.
lost_after_two :
    (after_two.inner.files (gzipped 1) ≡ some (codes "b\n"))
    × (after_two.inner.files (gzipped 2) ≡ some [])
    × (after_two.inner.files (numbered 1) ≡ none)
    × (after_two.inner.files log_file ≡ some [])
unfolding rotate_with write_with max_bytes
lost_after_two = (refl, refl, refl, refl)

-- 2^44 megabytes are 2^64 bytes: the limit is off.
wrapped_limit :
    (max_bytes (record full_log.cfg { max_size_mb = pos 17592186044416 }) ≡ 0)
    × (max_bytes (record full_log.cfg { max_size_mb = pos 3 }) ≡ 3145728)
    × (max_bytes (record full_log.cfg { max_size_mb = negsuc 0 }) ≡ 0)
unfolding max_bytes
wrapped_limit = (refl, refl, refl)
