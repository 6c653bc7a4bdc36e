-- ===== src/Prelude/Runes.antt =====
-- `for i, r := range s` over a Go string: the offset and the rune of each step. An ill-formed
-- sequence gives the rune U+FFFD and a step of one byte.
use Prim.Native.Nat.{ℕ, zero, suc, ◌+◌, ◌-◌, ◌*◌, ◌<◌}
use mathlib.Core.Path.{◌≡◌, refl}
use mathlib.Core.Bool.{Bool, ◌&&◌}
use mathlib.Core.List.{List, [], ◌∷◌}
use native.Mathlib.Omega.{arith}
use droute.Prelude.Tests.{ltb, leb, if◌then◌else◌}
use droute.Prelude.Strings.{Bytes}

between : ℕ → ℕ → ℕ → Bool
between lo hi b = leb lo b && leb b hi

-- The range of the second byte depends on the first one.
second_ok : ℕ → ℕ → Bool
unfolding between
second_ok b0 b1 =
    if leb b0 0xdf
    then between 0x80 0xbf b1
    else if leb b0 0xe0
    then between 0xa0 0xbf b1
    else if leb b0 0xec
    then between 0x80 0xbf b1
    else if leb b0 0xed
    then between 0x80 0x9f b1
    else if leb b0 0xef
    then between 0x80 0xbf b1
    else if leb b0 0xf0
    then between 0x90 0xbf b1
    else if leb b0 0xf3
    then between 0x80 0xbf b1
    else between 0x80 0x8f b1

abbrev rune_error : ℕ × ℕ
rune_error = (0xfffd, 1)

decode_two : ℕ → Bytes → ℕ × ℕ
unfolding second_ok
decode_two b0 (b1 ∷ _) = if second_ok b0 b1 then ((b0 - 0xc0) * 64 + (b1 - 0x80), 2) else rune_error
decode_two b0 _ = rune_error

decode_three : ℕ → Bytes → ℕ × ℕ
unfolding second_ok
decode_three b0 (b1 ∷ b2 ∷ _) =
    if second_ok b0 b1 && between 0x80 0xbf b2
    then ((b0 - 0xe0) * 4096 + (b1 - 0x80) * 64 + (b2 - 0x80), 3)
    else rune_error
decode_three b0 _ = rune_error

decode_four : ℕ → Bytes → ℕ × ℕ
unfolding second_ok
decode_four b0 (b1 ∷ b2 ∷ b3 ∷ _) =
    if second_ok b0 b1 && between 0x80 0xbf b2 && between 0x80 0xbf b3
    then ((b0 - 0xf0) * 262144 + (b1 - 0x80) * 4096 + (b2 - 0x80) * 64 + (b3 - 0x80), 4)
    else rune_error
decode_four b0 _ = rune_error

-- utf8.DecodeRune on a first byte and what follows it: the rune and its width
decode_rune : ℕ → Bytes → ℕ × ℕ
unfolding decode_two decode_three decode_four
decode_rune b0 rest =
    if ltb b0 0x80
    then (b0, 1)
    else if ltb b0 0xc2
    then rune_error
    else if ltb b0 0xe0
    then decode_two b0 rest
    else if ltb b0 0xf0
    then decode_three b0 rest
    else if ltb b0 0xf5
    then decode_four b0 rest
    else rune_error

-- `skip` counts the bytes of the last rune that are still to be passed over.
unfoldable pub runes_from : ℕ → ℕ → Bytes → List (ℕ × ℕ)
unfolding decode_rune
runes_from skip i [] = []
runes_from (suc skip) i (b ∷ s) = runes_from skip (i + 1) s
runes_from zero i (b ∷ s) =
    let (r, width) = decode_rune b s in (i, r) ∷ runes_from (width - 1) (i + 1) s

abbrev pub IsAscii : Bytes → Type 0
IsAscii [] = Unit
IsAscii (b ∷ s) = (b < 0x80) × IsAscii s

abbrev pub enumerate : ℕ → Bytes → List (ℕ × ℕ)
enumerate i [] = []
enumerate i (b ∷ s) = (i, b) ∷ enumerate (i + 1) s

-- On ASCII a range over the runes is a range over the bytes.
pub runes_from_of_IsAscii : (i : ℕ) (s : Bytes) → IsAscii s → runes_from 0 i s ≡ enumerate i s
unfolding runes_from
runes_from_of_IsAscii i [] h = refl
runes_from_of_IsAscii i (b ∷ s) (small, h) = ground (arith, runes_from_of_IsAscii (i + 1) s h)

runes_runs :
    runes_from 0 0 (0x61 ∷ 0xc3 ∷ 0xa9 ∷ 0xff ∷ []) ≡ (0, 0x61) ∷ (1, 0xe9) ∷ (3, 0xfffd) ∷ []
unfolding runes_from
runes_runs = refl
