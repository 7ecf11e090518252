-- ===== src/Logging/Rotate/Descriptor/Unopened.antt =====
-- A writer without an open file never writes again; one with an open file that no call fails is the
-- writer of the model without descriptors.
use kettlingar_go.Prelude.{
  ℕ, ◌≤◌, ◌≡◌, ◌≢◌, refl, sym, ap, ◌∙◌, subst, arith, All, Bool, true, false, List, [], ◌∷◌, length,
  min, take, ==_iff, if◌then◌else◌, Bytes, codes, Option, none, some,
}
use kettlingar_go.Logging.Rotate.{
  Name, RotatingWriter, shift_backups, move_current, prune_age, write, rotate, append_to,
  needs_rotation,
}
use kettlingar_go.Logging.Rotate.Faults.{Faults, no_faults}
use kettlingar_go.Logging.Rotate.Faults.Agreement.{
  shift_backups_with-no_faults, move_current_with-no_faults, prune_age_with-no_faults,
}
use kettlingar_go.Logging.Rotate.Descriptor.{
  Handle, no_file, opened, closed, FileWriter, open_with, moved, once_closed, rotate_with, write_to,
  write_when, write_with,
}

module _ (gzip : Bytes → Bytes) (expired : Name → Bool) where
  -- A call that wrote nothing, gave an error and left the writer as it was.
  abbrev pub Fails : FileWriter → (FileWriter × ℕ × Option Bytes) → Type 0
  Fails w o = (e : Bytes) × (o ≡ (w, 0, some e))

  write_when-unopened :
      (b : Bool) (f : Faults) (p : Bytes) (inner : RotatingWriter) (h : Handle)
      → h ≢ opened
      → let w : FileWriter = record { inner = inner; file = h } in
        Fails w (write_when gzip expired b f p w)
  unfolding rotate_with once_closed
  write_when-unopened true f p inner no_file h = (codes "invalid argument", refl)
  write_when-unopened true f p inner closed h = (codes "file already closed", refl)
  write_when-unopened true f p inner opened h = absurd (h refl)
  write_when-unopened false f p inner no_file h = (codes "invalid argument", refl)
  write_when-unopened false f p inner closed h = (codes "file already closed", refl)
  write_when-unopened false f p inner opened h = absurd (h refl)

  write_with-unopened :
      (f : Faults) (p : Bytes) (w : FileWriter)
      → w.file ≢ opened
      → Fails w (write_with gzip expired f p w)
  unfolding write_with
  write_with-unopened f p w h = write_when-unopened (needs_rotation p w.inner) f p w.inner w.file h

  -- The results of writes, one after the other.
  abbrev pub writes : List (Faults × Bytes) → FileWriter → List (FileWriter × ℕ × Option Bytes)
  writes [] w = []
  writes ((f, p) ∷ ps) w = let o = write_with gzip expired f p w in o ∷ writes ps o.0

  writes-unopened :
      (ps : List (Faults × Bytes)) (w : FileWriter) → w.file ≢ opened → All (Fails w) (writes ps w)
  writes-unopened [] w h = tt
  writes-unopened ((f, p) ∷ ps) w h =
      let now = write_with-unopened f p w h in
      (now, subst (λ o. All (Fails w) (writes ps o.0)) (sym now.1) (writes-unopened ps w h))

  write_with-reopen :
      (f : Faults) (p : Bytes) (inner : RotatingWriter)
      → f.can_close ≡ true
      → f.can_open ≡ false
      → write_when gzip expired true f p (record { inner = inner; file = opened }) ≡ (
        record { inner = record inner { files = moved gzip expired f inner }; file = closed },
        0,
        some (codes "failed"),
      )
  unfolding rotate_with open_with once_closed
  write_with-reopen f p inner closes fails = rw closes (rw fails refl)

  -- A write that rotates, where the file that is open can be closed and the log file cannot be opened
  -- again, writes nothing and gives an error. So does every later write, whatever the calls of os
  -- would do then, and none changes a file: the writer never opens its log file again.
  pub writes-reopen :
      (f : Faults) (p : Bytes) (w : FileWriter) (later : List (Faults × Bytes))
      → w.file ≡ opened
      → needs_rotation p w.inner ≡ true
      → f.can_close ≡ true
      → f.can_open ≡ false
      → let o = write_with gzip expired f p w in
        (o.1 ≡ 0) × (o.2 ≡ some (codes "failed")) × All (Fails o.0) (writes later o.0)
  unfolding write_with
  writes-reopen f p w later is_open rotates closes fails =
      let first =
        ap (λ b. write_when gzip expired b f p w) rotates
        ∙ ap (λ h. write_when gzip expired true f p (record { inner = w.inner; file = h })) is_open
        ∙ write_with-reopen f p w.inner closes fails in
      (
        ap (λ o. o.1) first,
        ap (λ o. o.2) first,
        writes-unopened later (write_with gzip expired f p w).0
            λ e. ground (arith, sym (ap (λ o. o.0.file) first) ∙ e),
      )

  take-length : (p : Bytes) → take (length p) p ≡ p
  take-length [] = refl
  take-length (c ∷ p) = ap (◌∷◌ c) (take-length p)

  write_to-no_faults :
      (n : ℕ) (p : Bytes) (inner : RotatingWriter)
      → length p ≤ n
      → write_to gzip expired (no_faults n) p (record { inner = inner; file = opened }) opened
        ≡ (record { inner = append_to gzip expired p inner; file = opened }, length p, none)
  write_to-no_faults n p inner all =
      let whole : min n (length p) ≡ length p = omega (arith, all) in
      rw whole (rw (take-length p, (==_iff (length p) (length p)).1 refl) refl)

  moved_eq :
      (n : ℕ) (inner : RotatingWriter)
      → moved gzip expired (no_faults n) inner
        ≡ prune_age gzip expired inner.cfg
            (move_current gzip expired inner.cfg (shift_backups inner.cfg inner.files))
  unfolding moved
  moved_eq n inner =
      prune_age_with-no_faults gzip expired n inner.cfg _
      ∙ ap (prune_age gzip expired inner.cfg) (
          move_current_with-no_faults gzip expired n inner.cfg _
          ∙ ap (move_current gzip expired inner.cfg)
              (shift_backups_with-no_faults n inner.cfg inner.files))

  write_when-no_faults :
      (b : Bool) (n : ℕ) (p : Bytes) (inner : RotatingWriter)
      → length p ≤ n
      → write_when gzip expired b (no_faults n) p (record { inner = inner; file = opened }) ≡ (
        record {
          inner = append_to gzip expired p (if b then rotate gzip expired inner else inner);
          file = opened;
        },
        length p,
        none,
      )
  unfolding rotate_with once_closed open_with rotate
  write_when-no_faults true n p inner all =
      rw (moved_eq n inner) (write_to-no_faults n p (rotate gzip expired inner) all)
  write_when-no_faults false n p inner all = write_to-no_faults n p inner all

  -- Where no call fails and a write takes n bytes, a writer with an open file is the writer of the
  -- model without failures: every write of up to n bytes takes all of them and gives no error.
  pub write_with-write :
      (n : ℕ) (p : Bytes) (w : FileWriter)
      → w.file ≡ opened
      → length p ≤ n
      → write_with gzip expired (no_faults n) p w
        ≡ (record { inner = write gzip expired p w.inner; file = opened }, length p, none)
  unfolding write_with write
  write_with-write n p w is_open all =
      ap (λ h. write_with gzip expired (no_faults n) p (record { inner = w.inner; file = h }))
        is_open
      ∙ write_when-no_faults (needs_rotation p w.inner) n p w.inner all
