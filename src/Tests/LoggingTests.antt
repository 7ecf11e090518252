-- ===== src/Tests/LoggingTests.antt =====
-- kettlingar/logtee and kettlingar/logging on concrete inputs.
use kettlingar_go.Prelude.{
  ◌-◌, ◌≡◌, refl, arith, ℕ, true, false, if◌then◌else◌, ◌≤◌, List, [], ◌∷◌, ◌++◌, codes, none, some,
  pos, negsuc, leb_ℤ, ◌||◌,
}
use kettlingar_go.Slog.{Level, Record, Handlers, text_value, level_info, level_warn, level_debug}
use kettlingar_go.Logging.Buffer
use kettlingar_go.Logging.Buffer.{new_buffer_handler, handle_all, drain}
use kettlingar_go.Logging.Buffer.History.{last, drain-history, handle_drained}
use kettlingar_go.Logging.Tee
use kettlingar_go.Logtee.Levels.{parse_level, level_string, level_trace, parse_level-level_string}
use kettlingar_go.Logtee.Fanout
use kettlingar_go.Logtee.Fanout.{
  FanoutHandler, root_handler, Hub, new_handler, add, base_view, set_base, run, handles, subscribes,
  min_level, closes, no_sub_sentinel,
}
use kettlingar_go.Logtee.Fanout.Least.{IsLeast}
use kettlingar_go.Logtee.Fanout.Gate.{
  IsCoherent, run-new_handler-IsCoherent, enabled_lem, handle-enabled, some_wants, Rising,
  WithinBuffer,
}
use kettlingar_go.Logtee.Fanout.Delivery.{Call, filled, find, ops_of, add-handles}
use kettlingar_go.Logtee.Fanout.Base.{
  Derivation, attrs_added, group_opened, derive, derived_base, base_view-set_base,
}
use kettlingar_go.Logging.Rotate.{
  log_file, numbered, same_name, RotatingWriter, backup_name, rotate, max_bytes,
}
use kettlingar_go.Logging.Rotate.Size.{Fits, write_all, write_all-Fits}
use kettlingar_go.Logging.Rotate.Shift.{rotate-backups}

-- A handler with a least level that keeps what it gets; the world is what was kept.
abbrev kept : Handlers
kept = record {
  Handler = Level;
  World = List Record;
  enabled = λ least l. leb_ℤ least l;
  handle = λ least r w. (none, w ++ r ∷ []);
  with_attrs = λ least attrs. least;
  with_group = λ least name. least;
}

abbrev at : Level → Record
at l = record { level = l; message = codes "m"; attrs = [] }

abbrev call : Level → Call
call l = record { handler = root_handler; sink = none; entry = at l }

abbrev hub : Hub kept
hub = record {
  level = level_info;
  base = level_info;
  subs = [];
  seq = 0;
  min_sub = no_sub_sentinel;
}

hub-IsCoherent : IsCoherent kept hub
unfolding min_level
hub-IsCoherent = record { least = refl; ids = omega arith; within = tt }

add-handles_example :
    find 1
      (run kept
        (ops_of kept (call level_debug ∷ call level_warn ∷ []))
        ((add kept level_info true hub).1, [])).0.subs
    ≡ some (filled 1 level_info true (at level_warn ∷ []))
unfolding add
add-handles_example =
    add-handles kept hub [] level_info true (call level_debug ∷ call level_warn ∷ []) hub-IsCoherent

handle_enabled_run : Fanout.handle kept root_handler none (at level_debug) hub [] ≡ (none, hub, [])
unfolding Fanout.enabled
handle_enabled_run =
    handle-enabled kept root_handler none (at level_debug) hub [] hub-IsCoherent refl

enabled_by_whom : Fanout.enabled kept hub level_debug ≡ (
    leb_ℤ hub.level level_debug
    || (some_wants hub.subs level_debug || leb_ℤ no_sub_sentinel level_debug))
enabled_by_whom = enabled_lem kept hub level_debug hub-IsCoherent

run-new_handler-IsCoherent_example :
    let after =
      (run kept
        (subscribes level_debug
          ∷ subscribes level_warn
          ∷ handles root_handler none (at level_warn)
          ∷ closes 1
          ∷ [])
        (new_handler kept level_info level_info, [])).0 in
    IsLeast after.min_sub after.subs × Rising 0 after.seq after.subs × WithinBuffer after.subs
run-new_handler-IsCoherent_example =
    run-new_handler-IsCoherent kept level_info level_info
      (subscribes level_debug
        ∷ subscribes level_warn
        ∷ handles root_handler none (at level_warn)
        ∷ closes 1
        ∷ [])
      []

abbrev chain : List Derivation
chain =
    attrs_added (record { key = codes "a"; value = text_value (codes "b") } ∷ [])
    ∷ group_opened (codes "g")
    ∷ []

base_view-set_base_example :
    base_view kept (derive chain root_handler) (set_base kept level_warn hub)
    ≡ derived_base kept chain level_warn
base_view-set_base_example = base_view-set_base kept chain hub level_warn

parse_level_run :
    (parse_level (level_string (negsuc 5)) ≡ some level_trace)
    × (level_string level_trace ≡ level_string (negsuc 5))
parse_level_run = parse_level-level_string (negsuc 5)

drain-history_example :
    let b =
      handle_all
        (new_buffer_handler (pos 2))
        (at level_debug ∷ at level_info ∷ at level_warn ∷ []) in
    ((drain b).0 ≡ last b.cap (at level_debug ∷ at level_info ∷ at level_warn ∷ []))
    × (b.dropped ≡ 3 - b.cap)
    × ((drain b).1.recs ≡ [])
    × ((drain b).1.closed ≡ true)
drain-history_example = drain-history (pos 2) (at level_debug ∷ at level_info ∷ at level_warn ∷ [])

drained :
    (drain (
      handle_all
        (new_buffer_handler (pos 2))
        (at level_debug ∷ at level_info ∷ at level_warn ∷ []))).0
    ≡ at level_info ∷ at level_warn ∷ []
unfolding drain new_buffer_handler Buffer.handle
drained = refl

closed_buffer :
    handle_all (drain (new_buffer_handler (pos 2))).1 (at level_warn ∷ [])
    ≡ (drain (new_buffer_handler (pos 2))).1
closed_buffer = handle_drained (new_buffer_handler (pos 2)) (at level_warn ∷ [])

tee_writes :
    Tee.handle kept (level_info ∷ level_warn ∷ []) (at level_info) []
    ≡ (none, Tee.write_all kept (level_info ∷ []) (at level_info) [])
tee_writes = Tee.handle-write_all kept (level_info ∷ level_warn ∷ []) (at level_info) []

refused_by_tee : Tee.handle kept (level_info ∷ level_warn ∷ []) (at level_debug) [] ≡ (none, [])
unfolding Tee.enabled
refused_by_tee = Tee.handle_refused kept (level_info ∷ level_warn ∷ []) (at level_debug) [] refl

-- Three files, of which the log file has grown.
abbrev rotated_writer : RotatingWriter
rotated_writer = record {
  cfg = record { max_size_mb = pos 1; max_backups = pos 2; max_age_days = pos 0; compress = false };
  files = λ n.
      if same_name n log_file
      then some (codes "new")
      else if same_name n (numbered 1)
      then some (codes "old")
      else none;
  size = 3;
}

rotate-backups_example :
    let w = rotate (λ text. text) (λ n. false) rotated_writer in
    (w.files (backup_name rotated_writer.cfg 1) ≡ some (codes "new"))
    × ((j : ℕ)
        → 2 ≤ j
        → j ≤ 2
        → w.files (backup_name rotated_writer.cfg j)
          ≡ rotated_writer.files (backup_name rotated_writer.cfg (j - 1)))
    × (w.files log_file ≡ some [])
    × (w.size ≡ 0)
rotate-backups_example =
    rotate-backups (λ text. text) (λ n. false) rotated_writer 1 (codes "new") refl refl refl

-- Without a limit on the backups there is only one.
one_backup :
    let w = record rotated_writer { cfg = record rotated_writer.cfg { max_backups = pos 0 } } in
    ((rotate (λ text. text) (λ n. false) w).files (numbered 1) ≡ some (codes "new"))
    × ((rotate (λ text. text) (λ n. false) w).files (numbered 2) ≡ none)
unfolding rotate
one_backup = (refl, refl)

write_all-Fits_example :
    Fits
      (λ text. text)
      (λ n. false)
      rotated_writer.cfg
      (write_all (λ text. text) (λ n. false) (codes "a\n" ∷ codes "bc\n" ∷ []) rotated_writer)
unfolding max_bytes
write_all-Fits_example =
    write_all-Fits (λ text. text) (λ n. false) rotated_writer.cfg (codes "a\n" ∷ codes "bc\n" ∷ [])
      rotated_writer
      (refl, (record { text = codes "new"; there = refl; counted = refl }, omega arith))
      (omega arith, (omega arith, tt))
