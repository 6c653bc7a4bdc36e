-- ===== src/Sessions/Bolt/Stamp.antt =====
-- sessions/boltdb.go: how a time of expiry becomes a key of the database. A time is a number of
-- nanoseconds since 1970; the varints are those of encoding/binary.
pub mod Inverting
pub mod Reading
pub mod Order
use droute.Prelude.{
  ℕ, zero, suc, ◌+◌, ◌-◌, ◌*◌, ◌/◌, ◌%◌, ◌^◌, Bool, ◌&&◌, ◌||◌, Option, none, some, List, [], ◌∷◌,
  Bytes, length, get_or, set, ltb, leb, ◌==◌, if◌then◌else◌,
}

abbrev pub max_varint_len64 : ℕ
max_varint_len64 = 10

abbrev pub zeros : ℕ → Bytes
zeros zero = []
zeros (suc k) = 0 ∷ zeros k

-- binary.PutUvarint into a buffer of `k` zero bytes, all of which are kept. `byte(v) | 0x80` is
-- `v % 128 + 128`. A buffer that is too short is no case here: ten bytes hold every uint64.
unfoldable pub put_uvarint : ℕ → ℕ → Bytes
put_uvarint zero v = []
put_uvarint (suc k) v =
    let more = (v % 128 + 128) ∷ put_uvarint k (v / 128) in if ltb v 128 then v ∷ zeros k else more

-- binary.PutVarint of a number that is not negative
unfoldable pub put_varint : ℕ → ℕ → Bytes
put_varint k x = put_uvarint k (2 * x % 2 ^ 64)

abbrev pub add_group : ℕ → Option ℕ → Option ℕ
add_group b none = none
add_group b (some r) = some (b - 128 + 128 * r)

-- binary.Uvarint from its byte `i` on; none where it gives 0 for a short or a too long input
unfoldable pub uvarint : ℕ → Bytes → Option ℕ
uvarint i [] = none
uvarint i (b ∷ bs) =
    let more = add_group b (uvarint (i + 1) bs) in
    if ltb b 128 then (if ltb i 9 || (i == 9 && leb b 1) then some b else none) else more

-- binary.Varint: none is a negative number
unfoldable pub varint : Bytes → Option ℕ
varint bs = elim (uvarint 0 bs) [
  | none ↦ some 0
  | some u ↦ if u % 2 == 0 then some (u / 2) else none
]

-- `buf[i], buf[j] = buf[j], buf[i]`
abbrev pub swap : ℕ → ℕ → Bytes → Bytes
swap i j buf = set (set buf i (get_or buf j 0)) j (get_or buf i 0)

-- the loop of invertBytesOrder and of invertBytes
unfoldable pub invert_loop : ℕ → ℕ → Bytes → Bytes
invert_loop zero i buf = buf
invert_loop (suc n) i buf = invert_loop n (i + 1) (swap i (length buf - i - 1) buf)

-- invertBytesOrder, and invertBytes on a copy
unfoldable pub invert_bytes : Bytes → Bytes
invert_bytes buf = invert_loop (length buf / 2) 0 buf

-- what New and Restore make of the time of expiry
unfoldable pub stamp : ℕ → Bytes
stamp t = invert_bytes (put_varint max_varint_len64 t)

-- what Restore and Ttl read
unfoldable pub read_stamp : Bytes → Option ℕ
read_stamp buf = varint (invert_bytes buf)
