-- ===== src/Logging/Rotate/Descriptor.antt =====
-- The descriptor of rotatingWriter and the errors of the calls on it (kettlingar/logging/rotate.go):
-- newRotatingWriter, open, Write, rotate and Close where a call of os can fail.
pub mod Unopened
pub mod Kept
use kettlingar_go.Prelude.{
  ℕ, ◌-◌, Bool, true, false, ◌&&◌, List, [], ◌∷◌, ltb, ◌+◌, min, ◌==◌, if◌then◌else◌, length, take,
  Bytes, codes, Option, none, some,
}
use kettlingar_go.Logging.Rotate.{
  Name, Files, FileConfig, RotatingWriter, max_bytes, open_log, append_to, needs_rotation,
}
use kettlingar_go.Logging.Rotate.Faults.{
  Faults, shift_backups_with, move_current_with, prune_age_with,
}

-- w.file: nil, an open file, or one that is closed.
pub data Handle : Type 0 where
  no_file opened closed : Handle

pub record FileWriter : Type 0 where
  pub inner : RotatingWriter
  pub file : Handle

abbrev failure : Bytes
failure = codes "failed"

-- (*os.File).Close
abbrev pub close_file : Bool → Handle → Handle × Option Bytes
close_file can no_file = (no_file, some (codes "invalid argument"))
close_file can closed = (closed, some (codes "file already closed"))
close_file true opened = (closed, none)
close_file false opened = (closed, some failure)

-- Where the open fails, the file and the size stay as they are.
unfoldable pub open_with : Faults → FileWriter → FileWriter × Option Bytes
unfolding open_log
open_with f w =
    if f.can_open
    then (
      record {
        inner = record (open_log w.inner.cfg w.inner.files) {
          size = if f.can_stat then (open_log w.inner.cfg w.inner.files).size else 0;
        };
        file = opened;
      },
      none,
    )
    else (w, some failure)

abbrev pub if_opened : FileWriter × Option Bytes → Option FileWriter
if_opened (w, none) = some w
if_opened (w, some e) = none

unfoldable pub new_rotating_writer : Faults → FileConfig → Files → Option FileWriter
unfolding open_with
new_rotating_writer f cfg fs =
    if_opened
      (open_with f (record { inner = record { cfg = cfg; files = fs; size = 0 }; file = no_file }))

unfoldable pub close : Bool → FileWriter → FileWriter × Option Bytes
close can w = elim w.file [
  | no_file ↦ (w, none)
  | opened ↦ (record w { file = no_file }, (close_file can opened).1)
  | closed ↦ (record w { file = no_file }, (close_file can closed).1)
]

module _ (gzip : Bytes → Bytes) (expired : Name → Bool) where
  unfoldable pub moved : Faults → RotatingWriter → Files
  unfolding shift_backups_with move_current_with prune_age_with
  moved f w =
      prune_age_with gzip expired f w.cfg
        (move_current_with gzip expired f w.cfg (shift_backups_with f w.cfg w.files))

  unfoldable pub once_closed :
      Faults → FileWriter → Handle × Option Bytes → FileWriter × Option Bytes
  unfolding moved open_with
  once_closed f w (h, some e) = (record w { file = h }, some e)
  once_closed f w (h, none) =
      open_with f (record { inner = record w.inner { files = moved f w.inner }; file = h })

  unfoldable pub rotate_with : Faults → FileWriter → FileWriter × Option Bytes
  unfolding once_closed
  rotate_with f w = once_closed f w (close_file f.can_close w.file)

  -- The number of bytes written, and an error where it is not all of them.
  abbrev pub write_to : Faults → Bytes → FileWriter → Handle → FileWriter × ℕ × Option Bytes
  write_to f p w opened =
      let n = min f.takes (length p) in
      (
        record w { inner = append_to gzip expired (take n p) w.inner },
        n,
        if n == length p then none else some failure,
      )
  write_to f p w no_file = (w, 0, some (codes "invalid argument"))
  write_to f p w closed = (w, 0, some (codes "file already closed"))

  abbrev pub once_rotated :
      Faults → Bytes → FileWriter × Option Bytes → FileWriter × ℕ × Option Bytes
  once_rotated f p (w, some e) = (w, 0, some e)
  once_rotated f p (w, none) = write_to f p w w.file

  abbrev pub write_when : Bool → Faults → Bytes → FileWriter → FileWriter × ℕ × Option Bytes
  write_when true f p w = once_rotated f p (rotate_with f w)
  write_when false f p w = write_to f p w w.file

  unfoldable pub write_with : Faults → Bytes → FileWriter → FileWriter × ℕ × Option Bytes
  unfolding rotate_with append_to
  write_with f p w = write_when (needs_rotation p w.inner) f p w
