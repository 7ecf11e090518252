-- ===== src/Msgpack/Reader.antt =====
-- Reads from the bytes.Buffer that ForgivingJSON hands to Convert, and the readers of
-- kettlingar/msgpack_to_json.go on top of them.
use native.Mathlib.Nat.{pow-suc, sub_self}
use kettlingar_go.Prelude.{
  ℕ, zero, suc, ◌+◌, ◌-◌, ◌*◌, ◌/◌, ◌%◌, ◌^◌, ◌<◌, ◌≡◌, refl, ◌∙◌, arith, false, Bytes, [], ◌∷◌,
  ◌++◌, ltb, ◌==◌, if◌then◌else◌, length, take, drop, replicate, length-append, subst, take-append,
  drop-append, append-nil,
}

-- What is left to read, and what was written so far.
pub record Io : Type 0 where
  pub input : Bytes
  pub output : Bytes

pub data Fault : Type 0 where
  eof unexpected_eof out_of_fuel : Fault
  unknown_prefix : ℕ → Fault
  invalid_timestamp_size : ℕ → Fault

-- An operation returns nil or an error; what it wrote before an error stays written.
pub data Outcome : Type 0 where
  done : Io → Outcome
  fail : Fault → Io → Outcome

abbrev pub after : Outcome → (Io → Outcome) → Outcome
after (done io) k = k io
after (fail e io) k = fail e io

-- fmt.Fprint(w, text)
abbrev pub print : Bytes → Io → Io
print text io = record io { output = io.output ++ text }

-- binary.BigEndian
abbrev pub big_endian_from : ℕ → Bytes → ℕ
big_endian_from acc [] = acc
big_endian_from acc (b ∷ bs) = big_endian_from (acc * 256 + b) bs

abbrev pub big_endian : Bytes → ℕ
big_endian = big_endian_from 0

-- The buffer of `size` zero bytes after a read that may come short and whose error is dropped.
abbrev padded : ℕ → Bytes → Bytes
padded size input = let got = take size input in got ++ replicate (size - length got) 0

-- readUint8, readUint16, readUint32 and readUint64 at sizes 1, 2, 4 and 8.
unfoldable pub read_uint : ℕ → Io → ℕ × Io
read_uint size io = (big_endian (padded size io.input), record io { input = drop size io.input })

-- io.ReadFull into a buffer of `size` bytes: a short read takes what there is.
unfoldable pub read_full : ℕ → Io → (Bytes → Io → Outcome) → Outcome
read_full size io k =
    if ltb (length io.input) size
    then fail (if length io.input == 0 then eof else unexpected_eof) (record io { input = [] })
    else k (take size io.input) (record io { input = drop size io.input })

-- `x` in `size` bytes, most significant first.
abbrev pub to_big_endian : ℕ → ℕ → Bytes
to_big_endian zero x = []
to_big_endian (suc size) x = to_big_endian size (x / 256) ++ x % 256 ∷ []

pub length-to_big_endian : (size x : ℕ) → length (to_big_endian size x) ≡ size
length-to_big_endian zero x = refl
length-to_big_endian (suc size) x =
    length-append (to_big_endian size (x / 256)) (x % 256 ∷ [])
    ∙ omega (arith, length-to_big_endian size (x / 256))

big_endian_from-append :
    (acc : ℕ) (xs ys : Bytes)
    → big_endian_from acc (xs ++ ys) ≡ big_endian_from (big_endian_from acc xs) ys
big_endian_from-append acc [] ys = refl
big_endian_from-append acc (x ∷ xs) ys = big_endian_from-append (acc * 256 + x) xs ys

pub big_endian-to_big_endian : (size x : ℕ) → x < 256 ^ size → big_endian (to_big_endian size x) ≡ x
big_endian-to_big_endian zero x h = omega arith
big_endian-to_big_endian (suc size) x h =
    big_endian_from-append 0 (to_big_endian size (x / 256)) (x % 256 ∷ [])
    ∙ omega (arith, big_endian-to_big_endian size (x / 256) (omega (arith, pow-suc 256 size)))

padded-append : (bs rest : Bytes) → padded (length bs) (bs ++ rest) ≡ bs
padded-append bs rest = rw (take-append bs rest, sub_self (length bs)) (append-nil bs)

-- A number that is there in full is read back.
pub read_uint_lem :
    (size x : ℕ) (rest out : Bytes)
    → x < 256 ^ size
    → read_uint size (record { input = to_big_endian size x ++ rest; output = out })
      ≡ (x, record { input = rest; output = out })
unfolding read_uint
read_uint_lem size x rest out h =
    let bytes = to_big_endian size x in
    let e = length-to_big_endian size x in
    subst
      (λ n.
        read_uint n (record { input = bytes ++ rest; output = out })
        ≡ (x, record { input = rest; output = out }))
      e (rw (padded-append bytes rest, drop-append bytes rest, big_endian-to_big_endian size x h))

pub read_full_lem :
    (bs rest out : Bytes) (k : Bytes → Io → Outcome)
    → read_full (length bs) (record { input = bs ++ rest; output = out }) k
      ≡ k bs (record { input = rest; output = out })
unfolding read_full
read_full_lem bs rest out k = rw (enough, take-append bs rest, drop-append bs rest)
  where
    enough : ltb (length (bs ++ rest)) (length bs) ≡ false
    enough = ground (arith, length-append bs rest)
