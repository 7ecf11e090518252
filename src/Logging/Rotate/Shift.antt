-- ===== src/Logging/Rotate/Shift.antt =====
-- What a rotation does to the backups.
use kettlingar_go.Prelude.{
  ℕ, zero, suc, ◌+◌, ◌-◌, ◌≤◌, ◌<◌, ◌≡◌, refl, ap, ◌∙◌, arith, Bool-cases, Option-cases, inl, inr,
  ==_iff, Bool, true, false, ◌==◌, if◌then◌else◌, pos, pos_part, ltb_ℤ, lt→ltb, Bytes, none, some,
  [],
}
use kettlingar_go.Logging.Rotate.{
  Name, log_file, same_name, Files, remove, create, rename, FileConfig, RotatingWriter, backup_name,
  shift_up, shift_backups, move_current, prune_age, rotate,
}
use kettlingar_go.Logging.Rotate.Size.{rotate-empty}

same_backup :
    (cfg : FileConfig) (i j : ℕ) → same_name (backup_name cfg i) (backup_name cfg j) ≡ i == j
unfolding backup_name
same_backup cfg i j = elim (Bool-cases cfg.compress) [ inl e ↦ rw e refl | inr e ↦ rw e refl ]

-- Renaming a backup to a free name one higher.
rename-backup :
    (cfg : FileConfig) (i j : ℕ) (fs : Files)
    → fs (backup_name cfg (suc i)) ≡ none
    → rename (backup_name cfg i) (backup_name cfg (suc i)) fs (backup_name cfg j) ≡ (
        if j == suc i
        then fs (backup_name cfg i)
        else if j == i
        then none
        else fs (backup_name cfg j))
rename-backup cfg i j fs free = elim (Option-cases (fs (backup_name cfg i))) [
  | inl e ↦ ground (arith, e, free, ==_iff j (suc i), ==_iff j i)
  | inr (text, e) ↦ ground (arith, e, same_backup cfg j (suc i), same_backup cfg j i)
]

rename-other :
    (a b n : Name) (fs : Files)
    → same_name n a ≡ false
    → same_name n b ≡ false
    → rename a b fs n ≡ fs n
rename-other a b n fs ha hb = ground (arith, ha, hb)

shift_up-above :
    (cfg : FileConfig) (k j : ℕ) (fs : Files)
    → suc k < j
    → shift_up cfg k fs (backup_name cfg j) ≡ fs (backup_name cfg j)
unfolding shift_up
shift_up-above cfg zero j fs high = refl
shift_up-above cfg (suc k) j fs high =
    shift_up-above cfg k j _ (ground arith)
    ∙ rename-other (backup_name cfg (suc k)) (backup_name cfg (suc (suc k))) (backup_name cfg j) fs
        (same_backup cfg j (suc k) ∙ ground arith) (same_backup cfg j (suc (suc k)) ∙ ground arith)

shift_up-backup :
    (cfg : FileConfig) (k j : ℕ) (fs : Files)
    → fs (backup_name cfg (suc k)) ≡ none
    → 1 ≤ j
    → j ≤ suc k
    → shift_up cfg k fs (backup_name cfg j)
      ≡ (if j == 1 then none else fs (backup_name cfg (j - 1)))
unfolding shift_up
shift_up-backup cfg zero j fs free low high = ground (arith, free)
shift_up-backup cfg (suc k) j fs free low high =
    let step = λ (i : ℕ). rename-backup cfg (suc k) i fs free in
    elim (Bool-cases (j == suc (suc k))) [
      | inl top ↦
          shift_up-above cfg k j _ (ground arith) ∙ step j ∙ ground (arith, ==_iff j (suc (suc k)))
      | inr below ↦
          shift_up-backup cfg k j _ (rw (step (suc k)) (ground arith)) low (ground arith)
          ∙ ground (arith, step (j - 1))
    ]

remove-log_file :
    (cfg : FileConfig) (i : ℕ) (fs : Files) → remove (backup_name cfg i) fs log_file ≡ fs log_file
unfolding backup_name
remove-log_file cfg i fs = ground arith

rename-log_file :
    (cfg : FileConfig) (i j : ℕ) (fs : Files)
    → rename (backup_name cfg i) (backup_name cfg j) fs log_file ≡ fs log_file
unfolding backup_name
rename-log_file cfg i j fs = ground arith

shift_up-log_file :
    (cfg : FileConfig) (k : ℕ) (fs : Files) → shift_up cfg k fs log_file ≡ fs log_file
unfolding shift_up
shift_up-log_file cfg zero fs = refl
shift_up-log_file cfg (suc k) fs =
    shift_up-log_file cfg k _ ∙ rename-log_file cfg (suc k) (suc (suc k)) fs

shift_backups-eq :
    (cfg : FileConfig) (n : ℕ) (fs : Files)
    → cfg.max_backups ≡ pos (suc n)
    → shift_backups cfg fs ≡ shift_up cfg n (remove (backup_name cfg (suc n)) fs)
unfolding shift_backups
shift_backups-eq cfg n fs kept =
    let some_kept : ltb_ℤ (pos 0) cfg.max_backups ≡ true =
      ap (ltb_ℤ (pos 0)) kept ∙ lt→ltb 0 (suc n + 0) (omega arith) in
    let kept_part : pos_part cfg.max_backups ≡ suc n = ap pos_part kept in
    let one_less : pos_part cfg.max_backups - 1 ≡ n = omega arith in
    rw (some_kept, one_less, kept_part) refl

shift_backups-backup :
    (cfg : FileConfig) (n j : ℕ) (fs : Files)
    → cfg.max_backups ≡ pos (suc n)
    → 2 ≤ j
    → j ≤ suc n
    → shift_backups cfg fs (backup_name cfg j) ≡ fs (backup_name cfg (j - 1))
shift_backups-backup cfg n j fs kept low high =
    let free = remove (backup_name cfg (suc n)) fs in
    ap (λ f. f (backup_name cfg j)) (shift_backups-eq cfg n fs kept)
    ∙ shift_up-backup cfg n j free (rw (same_backup cfg (suc n) (suc n)) (ground arith))
        (omega arith) high
    ∙ ground (arith, same_backup cfg (j - 1) (suc n))

create-backup :
    (cfg : FileConfig) (j : ℕ) (fs : Files)
    → create log_file [] fs (backup_name cfg j) ≡ fs (backup_name cfg j)
unfolding backup_name
create-backup cfg j fs = elim (Bool-cases cfg.compress) [
  | inl e ↦ ground (arith, e)
  | inr e ↦ ground (arith, e)
]

module _ (gzip : Bytes → Bytes) (expired : Name → Bool) where
  -- What a backup holds of a log file.
  abbrev pub stored : FileConfig → Bytes → Bytes
  stored cfg text = if cfg.compress then gzip text else text

  move_current-backup :
      (cfg : FileConfig) (j : ℕ) (fs : Files) (text : Bytes)
      → fs log_file ≡ some text
      → 1 ≤ j
      → move_current gzip expired cfg fs (backup_name cfg j)
        ≡ (if j == 1 then some (stored cfg text) else fs (backup_name cfg j))
  unfolding move_current backup_name
  move_current-backup cfg j fs text there low = elim (Bool-cases cfg.compress) [
    | inl e ↦ ground (arith, e, there)
    | inr e ↦ ground (arith, e, there)
  ]

  prune_age-young :
      (cfg : FileConfig) (fs : Files) (name : Name)
      → ltb_ℤ (pos 0) cfg.max_age_days ≡ false
      → prune_age gzip expired cfg fs name ≡ fs name
  unfolding prune_age
  prune_age-young cfg fs name young = rw (prune_age, young) refl

  -- What is in the new log file, and under the names of the backups.
  rotate-files :
      (w : RotatingWriter)
      → ltb_ℤ (pos 0) w.cfg.max_age_days ≡ false
      → ((j : ℕ)
          → (rotate gzip expired w).files (backup_name w.cfg j)
            ≡ move_current gzip expired w.cfg (shift_backups w.cfg w.files) (backup_name w.cfg j))
        × ((rotate gzip expired w).files log_file ≡ some [])
        × ((rotate gzip expired w).size ≡ 0)
  rotate-files w young =
      let moved = move_current gzip expired w.cfg (shift_backups w.cfg w.files) in
      let fresh = rotate-empty gzip expired w in
      (
        (λ j.
            ap (λ x. x.files (backup_name w.cfg j)) fresh
            ∙ create-backup w.cfg j (prune_age gzip expired w.cfg moved)
            ∙ prune_age-young w.cfg moved (backup_name w.cfg j) young),
        ap (λ x. x.files log_file) fresh,
        ap (λ x. x.size) fresh,
      )

  -- Where backups are kept, their number at least one and none of them too old, and the log file
  -- is there, a rotation makes the log file's text the first backup, compressed where that is
  -- configured, moves each backup but the last to the next number, and leaves an empty log file.
  pub rotate-backups :
      (w : RotatingWriter) (n : ℕ) (text : Bytes)
      → w.cfg.max_backups ≡ pos (suc n)
      → ltb_ℤ (pos 0) w.cfg.max_age_days ≡ false
      → w.files log_file ≡ some text
      → ((rotate gzip expired w).files (backup_name w.cfg 1) ≡ some (stored w.cfg text))
        × ((j : ℕ)
            → 2 ≤ j
            → j ≤ suc n
            → (rotate gzip expired w).files (backup_name w.cfg j)
              ≡ w.files (backup_name w.cfg (j - 1)))
        × ((rotate gzip expired w).files log_file ≡ some [])
        × ((rotate gzip expired w).size ≡ 0)
  rotate-backups w n text kept young there =
      let fs = shift_backups w.cfg w.files in
      let there' : fs log_file ≡ some text =
        ap (λ f. f log_file) (shift_backups-eq w.cfg n w.files kept)
        ∙ shift_up-log_file w.cfg n (remove (backup_name w.cfg (suc n)) w.files)
        ∙ remove-log_file w.cfg (suc n) w.files
        ∙ there in
      let opened = rotate-files w young in
      let moved = λ (j : ℕ) (low : 1 ≤ j). move_current-backup w.cfg j fs text there' low in
      (
        opened.0 1 ∙ moved 1 (omega arith),
        (λ j low high.
            opened.0 j
            ∙ moved j (omega arith)
            ∙ ground (arith, shift_backups-backup w.cfg n j w.files kept low high)),
        opened.1,
        opened.2,
      )
