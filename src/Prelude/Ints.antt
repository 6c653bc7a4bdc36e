-- ===== src/Prelude/Ints.antt =====
-- Integers; Go's int of 64 bits, whose operations wrap; and strconv.Atoi.
use Prim.Native.Nat.{ℕ, zero, suc, ◌+◌, ◌-◌, ◌*◌, ◌/◌, ◌%◌}
use mathlib.Core.Path.{◌≡◌, refl}
use mathlib.Core.Bool.{Bool, true, false, ◌&&◌}
use mathlib.Core.Option.{Option, none, some}
use mathlib.Core.List.{[], ◌∷◌}
use droute.Prelude.Tests.{ltb, leb, ◌==◌, if◌then◌else◌}
use droute.Prelude.Strings.{Bytes}

-- `negsuc n` is -(n + 1).
pub data ℤ : Type 0 where
  pos : ℕ → ℤ
  negsuc : ℕ → ℤ

abbrev pub neg_of : ℕ → ℤ
neg_of zero = pos 0
neg_of (suc n) = negsuc n

abbrev pub is_negative : ℤ → Bool
is_negative (pos n) = false
is_negative (negsuc n) = true

-- 2 ^ 63 and 2 ^ 64
abbrev pub half_word : ℕ
half_word = 0x8000_0000_0000_0000

abbrev pub full_word : ℕ
full_word = 0x1_0000_0000_0000_0000

-- the bits of an int, and the int of a number's lowest 64 bits
abbrev pub to_word : ℤ → ℕ
to_word (pos n) = n
to_word (negsuc n) = full_word - 1 - n

unfoldable pub of_word : ℕ → ℤ
of_word n = let w = n % full_word in if ltb w half_word then pos w else negsuc (full_word - 1 - w)

-- the int `x * -k`
unfoldable pub times_minus : ℕ → ℤ → ℤ
unfolding of_word
times_minus k x = of_word (to_word x * (full_word - k))

-- the int `x / k`, which drops what is behind the point
abbrev pub quotient : ℤ → ℕ → ℤ
quotient (pos n) k = pos (n / k)
quotient (negsuc n) k = neg_of ((n + 1) / k)

-- the decimal digits of strconv.Atoi
unfoldable pub read_digits : ℕ → Bytes → Option ℕ
read_digits n [] = some n
read_digits n (c ∷ s) =
    let rest = read_digits (10 * n + (c - b'0')) s in
    if leb b'0' c && leb c b'9' then rest else none

abbrev pub some_digits : Bytes → Option ℕ
some_digits [] = none
some_digits (c ∷ s) = read_digits 0 (c ∷ s)

-- a number with its sign, and none out of the range from -2 ^ 63 to 2 ^ 63 - 1
abbrev pub signed : Bool → Option ℕ → Option ℤ
signed minus none = none
signed true (some n) = if leb n half_word then some (neg_of n) else none
signed false (some n) = if ltb n half_word then some (pos n) else none

-- strconv.Atoi, where a syntax error and a range error are none
unfoldable pub atoi : Bytes → Option ℤ
atoi [] = none
atoi (c ∷ s) =
    let minus = signed true (some_digits s) in
    let plus = signed false (some_digits s) in
    let bare = signed false (some_digits (c ∷ s)) in
    if c == b'-' then minus else if c == b'+' then plus else bare

least_int_wraps : times_minus 1 (neg_of half_word) ≡ neg_of half_word
unfolding times_minus
least_int_wraps = refl
