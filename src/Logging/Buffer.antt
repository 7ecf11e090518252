-- ===== src/Logging/Buffer.antt =====
-- BufferHandler of kettlingar/logging/buffer.go. The lock makes every method one step.
pub mod History
use kettlingar_go.Prelude.{
  ℕ, ◌+◌, Bool, true, false, List, [], ◌∷◌, ◌++◌, leb, if◌then◌else◌, length, drop, ℤ, pos,
  pos_part, ltb_ℤ, Bytes,
}
use kettlingar_go.Slog.{Record, Level, Attr}

pub record BufferHandler : Type 0 where
  pub cap : ℕ
  pub recs : List Record
  pub dropped : ℕ
  pub closed : Bool

unfoldable pub new_buffer_handler : ℤ → BufferHandler
new_buffer_handler capacity = record {
  cap = if ltb_ℤ capacity (pos 1) then 1 else pos_part capacity;
  recs = [];
  dropped = 0;
  closed = false;
}

unfoldable pub enabled : BufferHandler → Level → Bool
enabled b l = true

-- `copy(recs, recs[1:])` and the write to the last place shift the oldest record out.
unfoldable pub handle : BufferHandler → Record → BufferHandler
handle b r =
    if b.closed
    then b
    else if leb b.cap (length b.recs)
    then record b { recs = drop 1 b.recs ++ r ∷ []; dropped = b.dropped + 1 }
    else record b { recs = b.recs ++ r ∷ [] }

unfoldable pub with_attrs : BufferHandler → List Attr → BufferHandler
with_attrs b attrs = b

unfoldable pub with_group : BufferHandler → Bytes → BufferHandler
with_group b name = b

unfoldable pub drain : BufferHandler → List Record × BufferHandler
drain b = (b.recs, record b { recs = []; closed = true })

unfoldable pub dropped : BufferHandler → ℕ
dropped b = b.dropped

abbrev pub handle_all : BufferHandler → List Record → BufferHandler
handle_all b [] = b
handle_all b (r ∷ rs) = handle_all (handle b r) rs
