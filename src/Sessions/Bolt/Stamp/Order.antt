-- ===== src/Sessions/Bolt/Stamp/Order.antt =====
-- The keys of two times are in the order of the times, byte by byte.
use mathlib.Core.List.{reverse, reverse-cons}
use droute.Prelude.{
  ℕ, zero, suc, ◌+◌, ◌*◌, ◌/◌, ◌%◌, ◌^◌, ◌<◌, ◌≡◌, refl, sym, ap, ◌∙◌, true, false, [], ◌∷◌, ◌++◌,
  Bytes, length, length-append, ltb, leb, if◌then◌else◌, arith, inl, inr, Bool-cases,
}
use droute.Middlewares.Lists.{str_le}
use droute.Sessions.Bolt.Stamp.{zeros, put_uvarint, put_varint, stamp}
use droute.Sessions.Bolt.Stamp.Inverting.{invert_bytes-eq-reverse}

str_le-concat :
    (xs ys : Bytes) (x y : ℕ)
    → length xs ≡ length ys
    → str_le (xs ++ x ∷ []) (ys ++ y ∷ [])
      ≡ (if str_le xs ys then (if str_le ys xs then leb x y else true) else false)
unfolding str_le
str_le-concat [] [] x y e = ground arith
str_le-concat [] (b ∷ ys) x y e = absurd (omega arith)
str_le-concat (a ∷ xs) [] x y e = absurd (omega arith)
str_le-concat (a ∷ xs) (b ∷ ys) x y e = ground (arith, str_le-concat xs ys x y (omega arith))

length-zeros : (k : ℕ) → length (zeros k) ≡ k
length-zeros zero = refl
length-zeros (suc k) = ap suc (length-zeros k)

length-put_uvarint : (k v : ℕ) → length (put_uvarint k v) ≡ k
unfolding put_uvarint
length-put_uvarint zero v = refl
length-put_uvarint (suc k) v = ground (arith, length-zeros k, length-put_uvarint k (v / 128))

zeros-eq-put_uvarint : (k : ℕ) → zeros k ≡ put_uvarint k 0
unfolding put_uvarint
zeros-eq-put_uvarint zero = refl
zeros-eq-put_uvarint (suc k) = refl

-- The byte that comes first in the varint
abbrev low_byte : ℕ → ℕ
low_byte v = if ltb v 128 then v else v % 128 + 128

put_uvarint-suc : (k v : ℕ) → put_uvarint (suc k) v ≡ low_byte v ∷ put_uvarint k (v / 128)
unfolding put_uvarint
put_uvarint-suc k v = elim (Bool-cases (ltb v 128)) [
  | inl small ↦
      let none_left : v / 128 ≡ 0 = ground arith in
      rw (small, none_left) (ap (◌∷◌ v) (zeros-eq-put_uvarint k))
  | inr large ↦ rw large refl
]

length-rev : (xs : Bytes) → length (reverse xs) ≡ length xs
length-rev [] = refl
length-rev (x ∷ xs) =
    rw (reverse-cons x xs) (omega (arith, length-append (reverse xs) (x ∷ []), length-rev xs))

length-reverse_put : (k v : ℕ) → length (reverse (put_uvarint k v)) ≡ k
length-reverse_put k v = length-rev (put_uvarint k v) ∙ length-put_uvarint k v

-- The numbers that `k` groups of seven bits hold
groups : ℕ → ℕ
groups zero = 1
groups (suc k) = 128 * groups k

reverse-put_uvarint :
    (k v : ℕ)
    → reverse (put_uvarint (suc k) v) ≡ reverse (put_uvarint k (v / 128)) ++ low_byte v ∷ []
reverse-put_uvarint k v =
    ap reverse (put_uvarint-suc k v) ∙ reverse-cons (low_byte v) (put_uvarint k (v / 128))

str_le-put_uvarint :
    (k v w : ℕ)
    → v < groups k
    → w < groups k
    → str_le (reverse (put_uvarint k v)) (reverse (put_uvarint k w)) ≡ leb v w
unfolding groups str_le put_uvarint
str_le-put_uvarint zero v w h g = ground arith
str_le-put_uvarint (suc k) v w h g =
    let less = str_le-put_uvarint k (v / 128) (w / 128) (omega arith) (omega arith) in
    let more = str_le-put_uvarint k (w / 128) (v / 128) (omega arith) (omega arith) in
    let same : length (reverse (put_uvarint k (v / 128)))
        ≡ length (reverse (put_uvarint k (w / 128))) =
      length-reverse_put k (v / 128) ∙ sym (length-reverse_put k (w / 128)) in
    let split =
      str_le-concat (reverse (put_uvarint k (v / 128))) (reverse (put_uvarint k (w / 128)))
        (low_byte v) (low_byte w) same in
    rw (reverse-put_uvarint k v, reverse-put_uvarint k w, split, less, more) (ground arith)

-- For times before 2 ^ 63 nanoseconds, the keys that New and Restore put into bTSUUID have ten bytes
-- each, and one is at most another as a string of bytes exactly if its time is at most the other's.
pub stamp_order :
    (t u : ℕ)
    → t < 2 ^ 63
    → u < 2 ^ 63
    → (length (stamp t) ≡ 10) × (str_le (stamp t) (stamp u) ≡ leb t u)
unfolding stamp put_varint groups
stamp_order t u ht hu =
    let v = 2 * t % 2 ^ 64 in
    let w = 2 * u % 2 ^ 64 in
    (
      ap length (invert_bytes-eq-reverse (put_uvarint 10 v)) ∙ length-reverse_put 10 v,
      rw (invert_bytes-eq-reverse (put_uvarint 10 v), invert_bytes-eq-reverse (put_uvarint 10 w))
          (str_le-put_uvarint 10 v w (omega arith) (omega arith) ∙ ground arith),
    )
