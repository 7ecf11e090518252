-- ===== src/Logging/Buffer/History.antt =====
-- The buffer holds the end of what was logged.
use kettlingar_go.Prelude.{
  ℕ, zero, suc, ◌+◌, ◌-◌, ◌≤◌, ◌<◌, ◌≡◌, refl, sym, ap, ◌∙◌, subst, arith, true, false, List, [],
  ◌∷◌, ◌++◌, leb, length, drop, ℤ, length-append, length-drop, append-nil, append_assoc, Bool-cases,
  inl, inr,
}
use kettlingar_go.Slog.{Record}
use kettlingar_go.Logging.Buffer.{BufferHandler, new_buffer_handler, handle, drain, handle_all}

abbrev pub last {ℓ} : {A : Type ℓ} → ℕ → List A → List A
last n xs = drop (length xs - n) xs

drop-append_le {ℓ} :
    {A : Type ℓ} (n : ℕ) (xs ys : List A) → n ≤ length xs → drop n (xs ++ ys) ≡ drop n xs ++ ys
drop-append_le zero xs ys h = refl
drop-append_le (suc n) [] ys h = elim h [ ]
drop-append_le (suc n) (x ∷ xs) ys h = drop-append_le n xs ys (omega arith)

drop_one-drop {ℓ} : {A : Type ℓ} (n : ℕ) (xs : List A) → drop 1 (drop n xs) ≡ drop (suc n) xs
drop_one-drop zero xs = refl
drop_one-drop (suc n) [] = refl
drop_one-drop (suc n) (x ∷ xs) = drop_one-drop n xs

last_short {ℓ} :
    {A : Type ℓ} (size : ℕ) (xs : List A) (r : A)
    → length xs < size
    → last size (xs ++ r ∷ []) ≡ last size xs ++ r ∷ []
last_short size xs r h =
    ap (λ n. drop n (xs ++ r ∷ [])) (omega (arith, length-append xs (r ∷ [])))
    ∙ drop-append_le (length xs - size) xs (r ∷ []) (omega arith)

last_full {ℓ} :
    {A : Type ℓ} (size : ℕ) (xs : List A) (r : A)
    → 1 ≤ size
    → size ≤ length xs
    → last size (xs ++ r ∷ []) ≡ drop 1 (last size xs) ++ r ∷ []
last_full size xs r pos h =
    let e : length (xs ++ r ∷ []) - size ≡ suc (length xs - size) =
      omega (arith, length-append xs (r ∷ [])) in
    ap (λ n. drop n (xs ++ r ∷ [])) e
    ∙ drop-append_le (suc (length xs - size)) xs (r ∷ []) (omega arith)
    ∙ ap (λ ys. ys ++ r ∷ []) (sym (drop_one-drop (length xs - size) xs))

-- The buffer `b` after `history`, while it is open.
pub record Holds (size : ℕ) (history : List Record) (b : BufferHandler) : Type 0 where
  pub open_still : b.closed ≡ false
  pub capacity : b.cap ≡ size
  pub positive : 1 ≤ size
  pub contents : b.recs ≡ last size history
  pub counted : b.dropped ≡ length history - size

handle_full :
    (b : BufferHandler) (r : Record)
    → b.closed ≡ false
    → leb b.cap (length b.recs) ≡ true
    → handle b r ≡ record b { recs = drop 1 b.recs ++ r ∷ []; dropped = b.dropped + 1 }
unfolding handle
handle_full b r h full = ground arith

handle_room :
    (b : BufferHandler) (r : Record)
    → b.closed ≡ false
    → leb b.cap (length b.recs) ≡ false
    → handle b r ≡ record b { recs = b.recs ++ r ∷ [] }
unfolding handle
handle_room b r h room = ground arith

handle-Holds :
    (size : ℕ) (history : List Record) (b : BufferHandler) (r : Record)
    → Holds size history b
    → Holds size (history ++ r ∷ []) (handle b r)
handle-Holds size history b r v = elim (Bool-cases (leb b.cap (length b.recs))) [
  | inl full ↦
      let enough : size ≤ length history =
        ground (arith, v.contents, length-drop (length history - size) history) in
      rw (handle_full b r v.open_still full) (record {
        open_still = v.open_still;
        capacity = v.capacity;
        positive = v.positive;
        contents = rw v.contents (sym (last_full size history r v.positive enough));
        counted = omega (arith, v.counted, length-append history (r ∷ []));
      })
  | inr room ↦
      let short : length history < size =
        ground (arith, v.contents, length-drop (length history - size) history) in
      rw (handle_room b r v.open_still room) (record {
        open_still = v.open_still;
        capacity = v.capacity;
        positive = v.positive;
        contents = rw v.contents (sym (last_short size history r short));
        counted = omega (arith, v.counted, length-append history (r ∷ []));
      })
]

pub handle_all-Holds :
    (size : ℕ) (rs history : List Record) (b : BufferHandler)
    → Holds size history b
    → Holds size (history ++ rs) (handle_all b rs)
handle_all-Holds size [] history b v = rw append-nil v
handle_all-Holds size (r ∷ rs) history b v =
    subst (λ h. Holds size h (handle_all (handle b r) rs)) (append_assoc history (r ∷ []) rs)
      (handle_all-Holds size rs (history ++ r ∷ []) (handle b r) (handle-Holds size history b r v))

pub new-Holds :
    (capacity : ℤ) → Holds (new_buffer_handler capacity).cap [] (new_buffer_handler capacity)
unfolding new_buffer_handler
new-Holds capacity = record {
  open_still = refl;
  capacity = refl;
  positive = ground arith;
  contents = ground arith;
  counted = ground arith;
}

-- A buffer that took the records `rs` hands out the last of them, as many as it has room for, in
-- the order they came; it has counted all others as dropped, and it is closed and empty after.
pub drain-history :
    (capacity : ℤ) (rs : List Record)
    → let b = handle_all (new_buffer_handler capacity) rs in
      ((drain b).0 ≡ last b.cap rs)
      × (b.dropped ≡ length rs - b.cap)
      × ((drain b).1.recs ≡ [])
      × ((drain b).1.closed ≡ true)
unfolding drain
drain-history capacity rs =
    let v = handle_all-Holds (new_buffer_handler capacity).cap rs [] _ (new-Holds capacity) in
    (v.contents ∙ ap (λ n. last n rs) (sym v.capacity), v.counted ∙ rw v.capacity, refl, refl)

-- A drained buffer takes nothing more.
pub handle_drained :
    (b : BufferHandler) (rs : List Record) → handle_all (drain b).1 rs ≡ (drain b).1
unfolding drain handle
handle_drained b [] = refl
handle_drained b (r ∷ rs) = handle_drained b rs
