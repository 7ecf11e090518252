-- ===== src/Logging/Tee.antt =====
-- teeHandler of kettlingar/logging/buffer.go, over any handlers.
use kettlingar_go.Prelude.{
  ◌≡◌, refl, Bool, true, false, List, [], ◌∷◌, if◌then◌else◌, Bytes, Option, none, Bool-cases, inl,
  inr,
}
use kettlingar_go.Slog.{Level, Attr, Record, Handlers}

module _ (hs : Handlers) where
  open hs use {Handler, World}

  abbrev pub TeeHandler : Type 0
  TeeHandler = List Handler

  -- The loop returns at the first handler that is enabled.
  unfoldable pub enabled : TeeHandler → Level → Bool
  enabled [] l = false
  enabled (h ∷ t) l = if hs.enabled h l then true else enabled t l

  -- Errors of the handlers are dropped.
  unfoldable pub handle : TeeHandler → Record → World → Option Bytes × World
  handle [] r w = (none, w)
  handle (h ∷ t) r w = handle t r (if hs.enabled h r.level then (hs.handle h r w).1 else w)

  unfoldable pub with_attrs : TeeHandler → List Attr → TeeHandler
  with_attrs [] attrs = []
  with_attrs (h ∷ t) attrs = hs.with_attrs h attrs ∷ with_attrs t attrs

  unfoldable pub with_group : TeeHandler → Bytes → TeeHandler
  with_group [] name = []
  with_group (h ∷ t) name = hs.with_group h name ∷ with_group t name

  -- The tee is itself a handler.
  abbrev pub tee : Handlers
  tee = record {
    Handler = TeeHandler;
    World = World;
    enabled = enabled;
    handle = handle;
    with_attrs = with_attrs;
    with_group = with_group;
  }

  -- A record at a level at which the tee is not enabled writes nothing through it.
  pub handle_refused :
      (t : TeeHandler) (r : Record) (w : World)
      → enabled t r.level ≡ false
      → handle t r w ≡ (none, w)
  unfolding enabled handle
  handle_refused [] r w off = refl
  handle_refused (h ∷ t) r w off = elim (Bool-cases (hs.enabled h r.level)) [
    | inl on ↦ cc (on)
    | inr not_on ↦ rw not_on (handle_refused t r w (rw not_on at off))
  ]

  -- Every enabled handler of the tee gets the record once, in order, whatever the others return.
  abbrev pub write_all : List Handler → Record → World → World
  write_all [] r w = w
  write_all (h ∷ t) r w = write_all t r (hs.handle h r w).1

  abbrev pub enabled_of : List Handler → Level → List Handler
  enabled_of [] l = []
  enabled_of (h ∷ t) l = let rest = enabled_of t l in if hs.enabled h l then h ∷ rest else rest

  pub handle-write_all :
      (t : TeeHandler) (r : Record) (w : World)
      → handle t r w ≡ (none, write_all (enabled_of t r.level) r w)
  unfolding handle
  handle-write_all [] r w = refl
  handle-write_all (h ∷ t) r w = elim (Bool-cases (hs.enabled h r.level)) [
    | inl on ↦ rw on (handle-write_all t r (hs.handle h r w).1)
    | inr off ↦ rw off (handle-write_all t r w)
  ]
