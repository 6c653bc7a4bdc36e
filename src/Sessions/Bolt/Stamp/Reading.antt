-- ===== src/Sessions/Bolt/Stamp/Reading.antt =====
-- A time that is written as a key is read back.
use mathlib.Core.List.{reverse-reverse}
use droute.Prelude.{
  ℕ, zero, suc, ◌+◌, ◌*◌, ◌/◌, ◌%◌, ◌^◌, ◌<◌, ◌≡◌, refl, some, ltb, arith, inl, inr, Bool-cases,
}
use droute.Sessions.Bolt.Stamp.{
  put_uvarint, put_varint, uvarint, varint, stamp, read_stamp, max_varint_len64,
}
use droute.Sessions.Bolt.Stamp.Inverting.{invert_bytes-eq-reverse}

-- The numbers that `k` bytes hold, ten of them a uint64
room : ℕ → ℕ
room zero = 0
room (suc zero) = 2
room (suc (suc k)) = 128 * room (suc k)

uvarint-put_uvarint :
    (k i v : ℕ) → i + suc k ≡ 10 → v < room (suc k) → uvarint i (put_uvarint (suc k) v) ≡ some v
unfolding uvarint put_uvarint room
uvarint-put_uvarint zero i v e h = ground arith
uvarint-put_uvarint (suc k) i v e h =
    let ih = uvarint-put_uvarint k (i + 1) (v / 128) (omega arith) (omega arith) in
    elim (Bool-cases (ltb v 128)) [
      | inl small ↦ rw small (ground arith)
      | inr large ↦ rw large (ground arith)
    ]

varint-put_varint : (t : ℕ) → t < 2 ^ 63 → varint (put_varint 10 t) ≡ some t
unfolding varint put_varint room
varint-put_varint t h =
    rw (uvarint-put_uvarint 9 0 (2 * t % 2 ^ 64) refl (omega arith), varint) (ground arith)

-- A time before 2 ^ 63 nanoseconds is read back from its key.
pub read_stamp-stamp : (t : ℕ) → t < 2 ^ 63 → read_stamp (stamp t) ≡ some t
unfolding read_stamp stamp
read_stamp-stamp t h =
    let key = put_varint max_varint_len64 t in
    rw (invert_bytes-eq-reverse key, invert_bytes-eq-reverse, reverse-reverse key)
      (varint-put_varint t h)
