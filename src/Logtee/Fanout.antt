-- ===== src/Logtee/Fanout.antt =====
-- The hub, its subscriptions and the handlers over it (kettlingar/logtee/logtee.go). Every
-- operation holds hub.mu from its first access of the hub to its last, so it is one step here.
-- A subscription stays in the list after Close, with `registered` false: its channel is closed and
-- its reader may still drain it. The base handler is any slog.Handler.
pub mod Least
pub mod Gate
pub mod Delivery
pub mod Base
use kettlingar_go.Prelude.{
  ℕ, ◌+◌, Bool, true, false, ◌&&◌, ◌||◌, not, List, [], ◌∷◌, ◌++◌, ltb, ◌==◌, if◌then◌else◌, length,
  drop, ℤ, pos, negsuc, ltb_ℤ, leb_ℤ, Bytes, Option, none, some,
}
use kettlingar_go.Slog.{Level, Attr, Record, Handlers}

abbrev pub sub_buffer : ℕ
sub_buffer = 256

abbrev pub no_sub_sentinel : Level
no_sub_sentinel = pos 127

-- `queue` is what the channel C holds, oldest first.
pub record Subscription : Type 0 where
  pub id : ℕ
  pub level : Level
  pub all : Bool
  pub queue : List Record
  pub dropped : ℕ
  pub registered : Bool

-- What a derived handler does to the base: the closures that WithAttrs and WithGroup record.
pub data BaseOp : Type 0 where
  op_attrs : List Attr → BaseOp
  op_group : Bytes → BaseOp

pub record FanoutHandler : Type 0 where
  pub attrs : List Attr
  pub base_ops : List BaseOp

abbrev pub root_handler : FanoutHandler
root_handler = record { attrs = []; base_ops = [] }

-- recomputeMinLocked, over the subscriptions that are in the map.
unfoldable pub min_level : List Subscription → Level
min_level [] = no_sub_sentinel
min_level (s ∷ subs) =
    let m = min_level subs in if s.registered && ltb_ℤ s.level m then s.level else m

-- `s == sink`, by the ids; there is no sink in most contexts.
unfoldable pub is_sink : ℕ → Option ℕ → Bool
is_sink id none = false
is_sink id (some sink) = id == sink

-- One round of the loop of Handle over the subscriptions. `sink` is the subscription of the context.
unfoldable pub offer : FanoutHandler → Option ℕ → Record → Subscription → Subscription
unfolding is_sink
offer h sink r s =
    if not s.registered
    then s
    else if ltb_ℤ r.level s.level
    then s
    else if not s.all && not (is_sink s.id sink)
    then s
    else if ltb (length s.queue) sub_buffer
    then record s { queue = s.queue ++ record r { attrs = r.attrs ++ h.attrs } ∷ [] }
    else record s { dropped = s.dropped + 1 }

unfoldable pub offer_all : FanoutHandler → Option ℕ → Record → List Subscription → List Subscription
offer_all h sink r [] = []
offer_all h sink r (s ∷ subs) = offer h sink r s ∷ offer_all h sink r subs

unfoldable pub unregister : ℕ → List Subscription → List Subscription
unregister id [] = []
unregister id (s ∷ subs) =
    (if s.id == id then record s { registered = false } else s) ∷ unregister id subs

-- A read from C: the oldest record, if there is one.
unfoldable pub take_from : ℕ → List Subscription → List Subscription
take_from id [] = []
take_from id (s ∷ subs) =
    (if s.id == id then record s { queue = drop 1 s.queue } else s) ∷ take_from id subs

unfoldable pub with_attrs : FanoutHandler → List Attr → FanoutHandler
with_attrs h [] = h
with_attrs h (a ∷ attrs) = record {
  attrs = h.attrs ++ (a ∷ attrs);
  base_ops = h.base_ops ++ op_attrs (a ∷ attrs) ∷ [];
}

unfoldable pub with_group : FanoutHandler → Bytes → FanoutHandler
with_group h [] = h
with_group h (c ∷ name) = record h { base_ops = h.base_ops ++ op_group (c ∷ name) ∷ [] }

module _ (hs : Handlers) where
  open hs use {Handler, World}

  pub record Hub : Type 0 where
    pub level : Level
    pub base : Handler
    pub subs : List Subscription
    pub seq : ℕ
    pub min_sub : Level

  unfoldable pub new_handler : Handler → Level → Hub
  new_handler base level = record {
    level = level;
    base = base;
    subs = [];
    seq = 0;
    min_sub = no_sub_sentinel;
  }

  unfoldable pub set_level : Level → Hub → Hub
  set_level l hub = record hub { level = l }

  unfoldable pub set_base : Handler → Hub → Hub
  set_base base hub = record hub { base = base }

  -- The replay of SetBaseFlushing: errors of the new base are dropped.
  unfoldable pub replay : Handler → Level → List Record → World → World
  replay base least [] w = w
  replay base least (r ∷ rs) w =
      replay base least rs (if leb_ℤ least r.level then (hs.handle base r w).1 else w)

  -- `drain` works on the world too, since the old base may be what it empties.
  unfoldable pub set_base_flushing :
      Handler → (World → List Record × World) → Level → Hub → World → Hub × World
  unfolding replay
  set_base_flushing base drain least hub w =
      let (rs, w') = drain w in (record hub { base = base }, replay base least rs w')

  unfoldable pub apply_op : BaseOp → Handler → Handler
  apply_op (op_attrs attrs) b = hs.with_attrs b attrs
  apply_op (op_group name) b = hs.with_group b name

  unfoldable pub apply_ops : List BaseOp → Handler → Handler
  unfolding apply_op
  apply_ops [] b = b
  apply_ops (op ∷ ops) b = apply_ops ops (apply_op op b)

  unfoldable pub base_view : FanoutHandler → Hub → Handler
  unfolding apply_ops
  base_view h hub = apply_ops h.base_ops hub.base

  unfoldable pub enabled : Hub → Level → Bool
  enabled hub l = leb_ℤ (if ltb_ℤ hub.min_sub hub.level then hub.min_sub else hub.level) l

  unfoldable pub handle :
      FanoutHandler → Option ℕ → Record → Hub → World → Option Bytes × Hub × World
  unfolding offer offer_all base_view
  handle h sink r hub w =
      let hub' = record hub { subs = offer_all h sink r hub.subs } in
      if leb_ℤ hub.level r.level
      then (let (e, w') = hs.handle (base_view h hub) r w in (e, hub', w'))
      else (none, hub', w)

  unfoldable pub add : Level → Bool → Hub → ℕ × Hub
  unfolding min_level
  add level all hub =
      let id = hub.seq + 1 in
      let s : Subscription = record {
        id = id;
        level = level;
        all = all;
        queue = [];
        dropped = 0;
        registered = true;
      } in
      let subs = hub.subs ++ s ∷ [] in
      (id, record hub { seq = id; subs = subs; min_sub = min_level subs })

  unfoldable pub subscribe : Level → Hub → ℕ × Hub
  unfolding add
  subscribe level hub = add level true hub

  -- The context that SubscribeContext returns carries the subscription: here, its id.
  unfoldable pub subscribe_context : Level → Hub → ℕ × Hub
  unfolding add
  subscribe_context level hub = add level false hub

  unfoldable pub is_registered : ℕ → List Subscription → Bool
  is_registered id [] = false
  is_registered id (s ∷ subs) = (s.id == id && s.registered) || is_registered id subs

  unfoldable pub close : ℕ → Hub → Hub
  unfolding is_registered unregister min_level
  close id hub =
      if is_registered id hub.subs
      then (let subs = unregister id hub.subs in
          record hub { subs = subs; min_sub = min_level subs })
      else hub

  unfoldable pub receive : ℕ → Hub → Hub
  unfolding take_from
  receive id hub = record hub { subs = take_from id hub.subs }

  -- What the owners of the handlers and subscriptions can do, as one type of steps.
  pub data Op : Type 0 where
    sets_level : Level → Op
    sets_base : Handler → Op
    handles : FanoutHandler → Option ℕ → Record → Op
    subscribes : Level → Op
    subscribes_context : Level → Op
    closes : ℕ → Op
    receives : ℕ → Op

  unfoldable pub step : Op → Hub × World → Hub × World
  step (sets_level l) (hub, w) = (set_level l hub, w)
  step (sets_base b) (hub, w) = (set_base b hub, w)
  step (handles h sink r) (hub, w) = let (e, hub', w') = handle h sink r hub w in (hub', w')
  step (subscribes l) (hub, w) = ((subscribe l hub).1, w)
  step (subscribes_context l) (hub, w) = ((subscribe_context l hub).1, w)
  step (closes id) (hub, w) = (close id hub, w)
  step (receives id) (hub, w) = (receive id hub, w)

  abbrev pub run : List Op → Hub × World → Hub × World
  run [] s = s
  run (op ∷ ops) s = run ops (step op s)
