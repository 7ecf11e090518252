-- ===== src/Logtee/Fanout/Delivery.antt =====
-- What reaches a subscription.
use kettlingar_go.Prelude.{
  ℕ, zero, suc, ◌+◌, ◌-◌, ◌<◌, ◌≤◌, ◌≡◌, refl, sym, ap, ◌∙◌, arith, Bool, true, false, ◌&&◌, ◌||◌,
  List, [], ◌∷◌, ◌++◌, ltb, ◌==◌, if◌then◌else◌, length, leb_ℤ, Option, none, some, length-append,
  take, append_assoc, append-nil, Bool-cases, inl, inr, length-take, ltb→lt,
}
use kettlingar_go.Slog.{Level, Record, Handlers}
use kettlingar_go.Logtee.Fanout.{
  Subscription, FanoutHandler, sub_buffer, is_sink, offer, offer_all, Hub, add, Op, handles, step,
  run,
}
use kettlingar_go.Logtee.Fanout.Gate.{IsCoherent, Rising, handle_hub}

-- A call of Handle: the handler, the sink of its context, and the record.
pub record Call : Type 0 where
  pub handler : FanoutHandler
  pub sink : Option ℕ
  pub entry : Record

-- The record with the attributes of the handler behind its own.
abbrev pub annotated : Call → Record
annotated c = record c.entry { attrs = c.entry.attrs ++ c.handler.attrs }

-- A subscription for all takes every record of its level; one for a context only its own.
abbrev pub matches : ℕ → Level → Bool → Call → Bool
matches id level all c = leb_ℤ level c.entry.level && (all || is_sink id c.sink)

abbrev pub wanted : ℕ → Level → Bool → List Call → List Record
wanted id level all [] = []
wanted id level all (c ∷ cs) =
    let rest = wanted id level all cs in if matches id level all c then annotated c ∷ rest else rest

abbrev pub find : ℕ → List Subscription → Option Subscription
find id [] = none
find id (s ∷ subs) = if s.id == id then some s else find id subs

abbrev offer_call : Call → Subscription → Subscription
offer_call c s = offer c.handler c.sink c.entry s

abbrev map_found : (Subscription → Subscription) → Option Subscription → Option Subscription
map_found f none = none
map_found f (some s) = some (f s)

offer_id : (c : Call) (s : Subscription) → (offer_call c s).id ≡ s.id
unfolding offer
offer_id c s = ground arith

find-offer_all :
    (id : ℕ) (c : Call) (subs : List Subscription)
    → find id (offer_all c.handler c.sink c.entry subs) ≡ map_found (offer_call c) (find id subs)
unfolding offer_all
find-offer_all id c [] = refl
find-offer_all id c (s ∷ subs) = ground (arith, offer_id c s, find-offer_all id c subs)

-- A registered subscription whose channel took the first of `records` and counted the rest.
abbrev pub filled : ℕ → Level → Bool → List Record → Subscription
filled id level all records = record {
  id = id;
  level = level;
  all = all;
  queue = take sub_buffer records;
  dropped = length records - sub_buffer;
  registered = true;
}

take_all {ℓ} : {A : Type ℓ} (n : ℕ) (xs : List A) → length xs ≤ n → take n xs ≡ xs
take_all zero [] h = refl
take_all zero (x ∷ xs) h = elim h [ ]
take_all (suc n) [] h = refl
take_all (suc n) (x ∷ xs) h = ap (◌∷◌ x) (take_all n xs (omega arith))

take_prefix {ℓ} :
    {A : Type ℓ} (n : ℕ) (xs ys : List A) → n ≤ length xs → take n (xs ++ ys) ≡ take n xs
take_prefix zero xs ys h = refl
take_prefix (suc n) [] ys h = elim h [ ]
take_prefix (suc n) (x ∷ xs) ys h = ap (◌∷◌ x) (take_prefix n xs ys (omega arith))

offer_room :
    (s : Subscription) (c : Call)
    → s.registered ≡ true
    → matches s.id s.level s.all c ≡ true
    → ltb (length s.queue) sub_buffer ≡ true
    → offer_call c s ≡ record s { queue = s.queue ++ annotated c ∷ [] }
unfolding offer
offer_room s c e m room = ground arith

offer_full :
    (s : Subscription) (c : Call)
    → s.registered ≡ true
    → matches s.id s.level s.all c ≡ true
    → ltb (length s.queue) sub_buffer ≡ false
    → offer_call c s ≡ record s { dropped = s.dropped + 1 }
unfolding offer
offer_full s c e m full = ground arith

filled_eq :
    (id : ℕ) (level : Level) (all : Bool) (queue : List Record) (dropped : ℕ)
    (records : List Record)
    → queue ≡ take sub_buffer records
    → dropped ≡ length records - sub_buffer
    → record {
      id = id;
      level = level;
      all = all;
      queue = queue;
      dropped = dropped;
      registered = true;
    }
      ≡ filled id level all records
filled_eq id level all queue dropped records p q = rw (p, q)

module _ {ℓ} {A : Type ℓ} (n : ℕ) (xs : List A) where
  take_full : ltb (length (take n xs)) n ≡ false → n ≤ length xs
  take_full full = ground (arith, length-take n xs)

  take_room : (x : A) → length (take n xs) < n → take n xs ++ x ∷ [] ≡ take n (xs ++ x ∷ [])
  take_room x room =
      let short : length xs < n = omega (arith, length-take n xs) in
      rw (
        take_all n xs (omega arith),
        take_all n (xs ++ x ∷ []) (omega (arith, length-append xs (x ∷ []))),
      )

  drop_room : (x : A) → length (take n xs) < n → length xs - n ≡ length (xs ++ x ∷ []) - n
  drop_room x room = omega (arith, length-take n xs, length-append xs (x ∷ []))

  drop_full : (x : A) → n ≤ length xs → length xs - n + 1 ≡ length (xs ++ x ∷ []) - n
  drop_full x h = omega (arith, length-append xs (x ∷ []))

offer_matching :
    (id : ℕ) (level : Level) (all : Bool) (records : List Record) (c : Call)
    → matches id level all c ≡ true
    → offer_call c (filled id level all records) ≡ filled id level all (records ++ annotated c ∷ [])
offer_matching id level all records c m =
    elim (Bool-cases (ltb (length (take sub_buffer records)) sub_buffer)) [
      | inl room ↦
          offer_room (filled id level all records) c refl m room
          ∙ filled_eq id level all (take sub_buffer records ++ annotated c ∷ []) _
              (records ++ annotated c ∷ [])
              (take_room sub_buffer records (annotated c) (ltb→lt _ _ room))
              (drop_room sub_buffer records (annotated c) (ltb→lt _ _ room))
      | inr full ↦
          offer_full (filled id level all records) c refl m full
          ∙ filled_eq id level all (take sub_buffer records) _ (records ++ annotated c ∷ [])
              (sym (
                take_prefix sub_buffer records (annotated c ∷ [])
                  (take_full sub_buffer records full)))
              (drop_full sub_buffer records (annotated c) (take_full sub_buffer records full))
    ]

offer_other :
    (id : ℕ) (level : Level) (all : Bool) (records : List Record) (c : Call)
    → matches id level all c ≡ false
    → offer_call c (filled id level all records) ≡ filled id level all records
unfolding offer is_sink
offer_other id level all records c m = ground arith

abbrev pub ops_of : (hs : Handlers) → List Call → List (Op hs)
ops_of hs [] = []
ops_of hs (c ∷ cs) = handles c.handler c.sink c.entry ∷ ops_of hs cs

-- The subscription `id` after calls of Handle: what it holds grows by the wanted records.
find-run :
    (hs : Handlers) (id : ℕ) (level : Level) (all : Bool) (calls : List Call)
    (records : List Record) (hub : Hub hs) (w : hs.World)
    → find id hub.subs ≡ some (filled id level all records)
    → find id (run hs (ops_of hs calls) (hub, w)).0.subs
      ≡ some (filled id level all (records ++ wanted id level all calls))
unfolding step
find-run hs id level all [] records hub w e = rw append-nil e
find-run hs id level all (c ∷ calls) records hub w e = elim (Bool-cases (matches id level all c)) [
  | inl yes_it ↦ rw yes_it (
      find-run hs id level all calls (records ++ annotated c ∷ []) _ _
        (found _ (offer_matching id level all records c yes_it))
      ∙ ap (λ rs. some (filled id level all rs)) (append_assoc records (annotated c ∷ []) _))
  | inr other ↦ rw other (
      find-run hs id level all calls records _ _
        (found _ (offer_other id level all records c other)))
]
  where
    found :
        (s : Subscription)
        → offer_call c (filled id level all records) ≡ s
        → find id (step hs (handles c.handler c.sink c.entry) (hub, w)).0.subs ≡ some s
    found s same =
        ap (λ (h : Hub hs). find id h.subs) (handle_hub hs c.handler c.sink c.entry hub w)
        ∙ find-offer_all id c hub.subs
        ∙ rw e (ap some same)

Rising-le : (lo hi : ℕ) (subs : List Subscription) → Rising lo hi subs → lo ≤ hi
Rising-le lo hi [] v = v
Rising-le lo hi (s ∷ subs) v = omega (arith, Rising-le s.id hi subs v.1)

find_fresh :
    (lo hi : ℕ) (subs : List Subscription) (s : Subscription)
    → Rising lo hi subs
    → s.id ≡ hi + 1
    → find (hi + 1) (subs ++ s ∷ []) ≡ some s
find_fresh lo hi [] s v e = ground arith
find_fresh lo hi (t ∷ subs) s v e =
    ground (arith, find_fresh t.id hi subs s v.1 e, Rising-le t.id hi subs v.1)

-- A new subscription, whatever the calls of Handle that follow: its channel holds the first 256 of
-- the records that it asked for, in order, each with its handler's attributes, and it has counted
-- the others as dropped.
pub add-handles :
    (hs : Handlers) (hub : Hub hs) (w : hs.World) (level : Level) (all : Bool) (calls : List Call)
    → IsCoherent hs hub
    → let (id, hub') = add hs level all hub in
      find id (run hs (ops_of hs calls) (hub', w)).0.subs
      ≡ some (filled id level all (wanted id level all calls))
unfolding add
add-handles hs hub w level all calls v =
    find-run hs (hub.seq + 1) level all calls [] _ w (find_fresh 0 hub.seq hub.subs _ v.ids refl)
