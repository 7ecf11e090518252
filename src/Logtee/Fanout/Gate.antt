-- ===== src/Logtee/Fanout/Gate.antt =====
-- The hub's invariant, and what Enabled promises because of it.
use kettlingar_go.Prelude.{
  ℕ, ◌+◌, ◌<◌, ◌≤◌, ◌≡◌, refl, ◌∙◌, arith, Bool, true, false, ◌&&◌, ◌||◌, List, [], ◌∷◌, ◌++◌,
  length, leb_ℤ, sym, subst, Option, none, length-append, drop, Bool-cases, inl, inr,
}
use kettlingar_go.Slog.{Level, Record, Handlers}
use kettlingar_go.Logtee.Fanout.{
  Subscription, FanoutHandler, sub_buffer, no_sub_sentinel, min_level, offer, offer_all, unregister,
  take_from, Hub, new_handler, set_level, set_base, enabled, handle, add, subscribe,
  subscribe_context, close, receive, is_registered, Op, sets_level, sets_base, handles, subscribes,
  subscribes_context, closes, receives, step, run,
}
use kettlingar_go.Logtee.Fanout.Least.{IsLeast, min_level-IsLeast}

-- Some registered subscription asks for level `l`.
abbrev pub some_wants : List Subscription → Level → Bool
some_wants [] l = false
some_wants (s ∷ subs) l = (s.registered && leb_ℤ s.level l) || some_wants subs l

min_level-some_wants :
    (subs : List Subscription) (l : Level)
    → leb_ℤ (min_level subs) l ≡ some_wants subs l || leb_ℤ no_sub_sentinel l
unfolding min_level
min_level-some_wants [] l = refl
min_level-some_wants (s ∷ subs) l = ground (arith, min_level-some_wants subs l)

-- Ids rise along the list, above `lo` and up to `hi`.
abbrev pub Rising : ℕ → ℕ → List Subscription → Type 0
Rising lo hi [] = lo ≤ hi
Rising lo hi (s ∷ subs) = (lo < s.id) × Rising s.id hi subs

-- No channel holds more than its capacity.
abbrev pub WithinBuffer : List Subscription → Type 0
WithinBuffer [] = Unit {0}
WithinBuffer (s ∷ subs) = (length s.queue ≤ sub_buffer) × WithinBuffer subs

-- Two lists that agree on all that recomputeMinLocked and the ids depend on.
abbrev Alike : List Subscription → List Subscription → Type 0
Alike [] [] = Unit {0}
Alike (s ∷ ss) (t ∷ ts) =
    (s.id ≡ t.id) × (s.level ≡ t.level) × (s.registered ≡ t.registered) × Alike ss ts
Alike _ _ = ⊥

Alike-min_level : (ss ts : List Subscription) → Alike ss ts → min_level ss ≡ min_level ts
unfolding min_level
Alike-min_level [] [] h = refl
Alike-min_level (s ∷ ss) (t ∷ ts) h = ground (arith, Alike-min_level ss ts h.3)
Alike-min_level [] (t ∷ ts) h = absurd h
Alike-min_level (s ∷ ss) [] h = absurd h

Alike-Rising :
    (lo hi : ℕ) (ss ts : List Subscription) → Alike ss ts → Rising lo hi ss → Rising lo hi ts
Alike-Rising lo hi [] [] h v = v
Alike-Rising lo hi (s ∷ ss) (t ∷ ts) h v =
    (omega arith, ground (arith, Alike-Rising s.id hi ss ts h.3 v.1))
Alike-Rising lo hi [] (t ∷ ts) h v = absurd h
Alike-Rising lo hi (s ∷ ss) [] h v = absurd h

offer_all-Alike :
    (h : FanoutHandler) (sink : Option ℕ) (r : Record) (subs : List Subscription)
    → Alike subs (offer_all h sink r subs)
unfolding offer offer_all
offer_all-Alike h sink r [] = tt
offer_all-Alike h sink r (s ∷ subs) =
    (ground arith, ground arith, ground arith, offer_all-Alike h sink r subs)

offer_all-WithinBuffer :
    (h : FanoutHandler) (sink : Option ℕ) (r : Record) (subs : List Subscription)
    → WithinBuffer subs
    → WithinBuffer (offer_all h sink r subs)
unfolding offer offer_all
offer_all-WithinBuffer h sink r [] v = tt
offer_all-WithinBuffer h sink r (s ∷ subs) v = (
  ground (arith, length-append s.queue (record r { attrs = r.attrs ++ h.attrs } ∷ [])),
  offer_all-WithinBuffer h sink r subs v.1,
)

take_from-Alike : (id : ℕ) (subs : List Subscription) → Alike subs (take_from id subs)
unfolding take_from
take_from-Alike id [] = tt
take_from-Alike id (s ∷ subs) = (ground arith, ground arith, ground arith, take_from-Alike id subs)

length-drop_one {ℓ} : {A : Type ℓ} (xs : List A) → length (drop 1 xs) ≤ length xs
length-drop_one [] = omega arith
length-drop_one (x ∷ xs) = omega arith

take_from-WithinBuffer :
    (id : ℕ) (subs : List Subscription) → WithinBuffer subs → WithinBuffer (take_from id subs)
unfolding take_from
take_from-WithinBuffer id [] v = tt
take_from-WithinBuffer id (s ∷ subs) v =
    (ground (arith, length-drop_one s.queue), take_from-WithinBuffer id subs v.1)

unregister-Rising :
    (id lo hi : ℕ) (subs : List Subscription)
    → Rising lo hi subs
    → Rising lo hi (unregister id subs)
unfolding unregister
unregister-Rising id lo hi [] v = v
unregister-Rising id lo hi (s ∷ subs) v =
    (ground arith, ground (arith, unregister-Rising id s.id hi subs v.1))

unregister-WithinBuffer :
    (id : ℕ) (subs : List Subscription) → WithinBuffer subs → WithinBuffer (unregister id subs)
unfolding unregister
unregister-WithinBuffer id [] v = tt
unregister-WithinBuffer id (s ∷ subs) v = (ground arith, unregister-WithinBuffer id subs v.1)

Rising-add :
    (lo hi : ℕ) (subs : List Subscription) (s : Subscription)
    → s.id ≡ hi + 1
    → Rising lo hi subs
    → Rising lo (hi + 1) (subs ++ s ∷ [])
Rising-add lo hi [] s e v = omega arith
Rising-add lo hi (t ∷ subs) s e v = (v.0, Rising-add t.id hi subs s e v.1)

WithinBuffer-add :
    (subs : List Subscription) (s : Subscription)
    → s.queue ≡ []
    → WithinBuffer subs
    → WithinBuffer (subs ++ s ∷ [])
WithinBuffer-add [] s e v = (rw e (omega arith), tt)
WithinBuffer-add (t ∷ subs) s e v = (v.0, WithinBuffer-add subs s e v.1)

module _ (hs : Handlers) where
  open hs use {Handler, World}

  -- The cached least level is that of the registered subscriptions, ids are distinct, and channels
  -- are within their capacity.
  pub record IsCoherent (hub : Hub hs) : Type 0 where
    pub least : hub.min_sub ≡ min_level hub.subs
    pub ids : Rising 0 hub.seq hub.subs
    pub within : WithinBuffer hub.subs

  pub new_handler-IsCoherent :
      (base : Handler) (level : Level) → IsCoherent (new_handler hs base level)
  unfolding new_handler min_level
  new_handler-IsCoherent base level = record { least = refl; ids = omega arith; within = tt }

  pub handle_hub :
      (h : FanoutHandler) (sink : Option ℕ) (r : Record) (hub : Hub hs) (w : World)
      → (handle hs h sink r hub w).1 ≡ record hub { subs = offer_all h sink r hub.subs }
  unfolding handle
  handle_hub h sink r hub w = ground arith

  Alike-IsCoherent :
      (hub : Hub hs) (subs : List Subscription)
      → Alike hub.subs subs
      → WithinBuffer subs
      → IsCoherent hub
      → IsCoherent (record hub { subs = subs })
  Alike-IsCoherent hub subs same fits v = record {
    least = v.least ∙ Alike-min_level hub.subs subs same;
    ids = Alike-Rising 0 hub.seq hub.subs subs same v.ids;
    within = fits;
  }

  handle-IsCoherent :
      (h : FanoutHandler) (sink : Option ℕ) (r : Record) (hub : Hub hs) (w : World)
      → IsCoherent hub
      → IsCoherent (handle hs h sink r hub w).1
  handle-IsCoherent h sink r hub w v = rw (handle_hub h sink r hub w) (
      Alike-IsCoherent hub _ (offer_all-Alike h sink r hub.subs)
        (offer_all-WithinBuffer h sink r hub.subs v.within) v)

  add-IsCoherent :
      (level : Level) (all : Bool) (hub : Hub hs)
      → IsCoherent hub
      → IsCoherent (add hs level all hub).1
  unfolding add
  add-IsCoherent level all hub v = record {
    least = refl;
    ids = Rising-add 0 hub.seq hub.subs _ refl v.ids;
    within = WithinBuffer-add hub.subs _ refl v.within;
  }

  close-IsCoherent : (id : ℕ) (hub : Hub hs) → IsCoherent hub → IsCoherent (close hs id hub)
  unfolding close
  close-IsCoherent id hub v = elim (Bool-cases (is_registered hs id hub.subs)) [
    | inl there ↦ rw there (record {
      least = refl;
      ids = unregister-Rising id 0 hub.seq hub.subs v.ids;
      within = unregister-WithinBuffer id hub.subs v.within;
    })
    | inr gone ↦ rw gone v
  ]

  -- Every operation on the hub keeps the invariant.
  pub step-IsCoherent :
      (op : Op hs) (hub : Hub hs) (w : World) → IsCoherent hub → IsCoherent (step hs op (hub, w)).0
  unfolding step set_level set_base subscribe subscribe_context receive
  step-IsCoherent (sets_level l) hub w v = record {
    least = v.least;
    ids = v.ids;
    within = v.within;
  }
  step-IsCoherent (sets_base b) hub w v = record { least = v.least; ids = v.ids; within = v.within }
  step-IsCoherent (handles h sink r) hub w v = handle-IsCoherent h sink r hub w v
  step-IsCoherent (subscribes l) hub w v = add-IsCoherent l true hub v
  step-IsCoherent (subscribes_context l) hub w v = add-IsCoherent l false hub v
  step-IsCoherent (closes id) hub w v = close-IsCoherent id hub v
  step-IsCoherent (receives id) hub w v =
      Alike-IsCoherent hub _ (take_from-Alike id hub.subs)
        (take_from-WithinBuffer id hub.subs v.within) v

  run-IsCoherent :
      (ops : List (Op hs)) (hub : Hub hs) (w : World)
      → IsCoherent hub
      → IsCoherent (run hs ops (hub, w)).0
  run-IsCoherent [] hub w v = v
  run-IsCoherent (op ∷ ops) hub w v =
      run-IsCoherent ops (step hs op (hub, w)).0 (step hs op (hub, w)).1
        (step-IsCoherent op hub w v)

  -- Whatever is done with a new hub: the cached level that Enabled reads is the least of 127 and of
  -- the levels that registered subscriptions ask for: none of them asks for less, and it is 127 or
  -- one of them asks for it. The ids are distinct and rising, and no channel holds more than 256
  -- records.
  pub run-new_handler-IsCoherent :
      (base : Handler) (level : Level) (ops : List (Op hs)) (w : World)
      → let hub = (run hs ops (new_handler hs base level, w)).0 in
        IsLeast hub.min_sub hub.subs × Rising 0 hub.seq hub.subs × WithinBuffer hub.subs
  run-new_handler-IsCoherent base level ops w =
      let v = run-IsCoherent ops _ w (new_handler-IsCoherent base level) in
      (
        subst (λ m. IsLeast m (run hs ops (new_handler hs base level, w)).0.subs) (sym v.least)
            (min_level-IsLeast (run hs ops (new_handler hs base level, w)).0.subs),
        v.ids,
        v.within,
      )

  -- Enabled says yes exactly where the base is to see the level, or a registered subscription asks
  -- for it, or the level is 127 or more.
  pub enabled_lem :
      (hub : Hub hs) (l : Level)
      → IsCoherent hub
      → enabled hs hub l ≡ (leb_ℤ hub.level l || (some_wants hub.subs l || leb_ℤ no_sub_sentinel l))
  unfolding enabled
  enabled_lem hub l v = rw v.least (ground (arith, min_level-some_wants hub.subs l))

  offer_unwanted :
      (h : FanoutHandler) (sink : Option ℕ) (r : Record) (subs : List Subscription)
      → some_wants subs r.level ≡ false
      → offer_all h sink r subs ≡ subs
  unfolding offer offer_all
  offer_unwanted h sink r [] e = refl
  offer_unwanted h sink r (s ∷ subs) e = ground (arith, offer_unwanted h sink r subs)

  -- Skipping a record for which Enabled says no loses nothing: Handle would have left every
  -- subscription as it was and would not have called the base.
  pub handle-enabled :
      (h : FanoutHandler) (sink : Option ℕ) (r : Record) (hub : Hub hs) (w : World)
      → IsCoherent hub
      → enabled hs hub r.level ≡ false
      → handle hs h sink r hub w ≡ (none, hub, w)
  unfolding handle
  handle-enabled h sink r hub w v off =
      ground (arith, enabled_lem hub r.level v, offer_unwanted h sink r hub.subs)
