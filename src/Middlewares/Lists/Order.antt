-- ===== src/Middlewares/Lists/Order.antt =====
-- The order of strings is a total order.
use droute.Prelude.{◌≡◌, refl, true, false, [], ◌∷◌, Bytes, arith}
use droute.Middlewares.Lists.{str_le}

pub str_le_refl : (a : Bytes) → str_le a a ≡ true
unfolding str_le
str_le_refl [] = refl
str_le_refl (x ∷ a) = ground (arith, str_le_refl a)

pub str_le_total : (a b : Bytes) → str_le a b ≡ false → str_le b a ≡ true
unfolding str_le
str_le_total [] b h = ground arith
str_le_total (x ∷ a) [] h = refl
str_le_total (x ∷ a) (y ∷ b) h = ground (arith, str_le_total a b)

pub str_le_antisym : (a b : Bytes) → str_le a b ≡ true → str_le b a ≡ true → a ≡ b
unfolding str_le
str_le_antisym [] [] h g = refl
str_le_antisym [] (y ∷ b) h g = ground arith
str_le_antisym (x ∷ a) [] h g = ground arith
str_le_antisym (x ∷ a) (y ∷ b) h g = ground (arith, str_le_antisym a b)

pub str_le_trans : (a b c : Bytes) → str_le a b ≡ true → str_le b c ≡ true → str_le a c ≡ true
unfolding str_le
str_le_trans [] b c h g = refl
str_le_trans (x ∷ a) [] c h g = ground arith
str_le_trans (x ∷ a) (y ∷ b) [] h g = ground arith
str_le_trans (x ∷ a) (y ∷ b) (z ∷ c) h g = ground (arith, str_le_trans a b c)
