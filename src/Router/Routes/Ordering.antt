-- ===== src/Router/Routes/Ordering.antt =====
-- Routes are sorted by router, method and path.
use droute.Prelude.{◌≡◌, ◌⊎◌, true, false, Bytes, arith}
use droute.Router.Match.{eqb}
use droute.Middlewares.Lists.Order.{str_le_refl, str_le_total, str_le_antisym, str_le_trans}
use droute.Router.Routes.{Route, str_lt, less}

str_lt_trans : (a b c : Bytes) → str_lt a b ≡ true → str_lt b c ≡ true → str_lt a c ≡ true
str_lt_trans a b c h g =
    ground (arith, str_le_trans c a b, str_le_total b a, str_le_total c b, str_le_total c a)

str_lt_irrefl : (a : Bytes) → str_lt a a ≡ false
str_lt_irrefl a = ground (arith, str_le_refl a)

str_lt_cases : (a b : Bytes) → (str_lt a b ≡ true) ⊎ (str_lt b a ≡ true) ⊎ (a ≡ b)
str_lt_cases a b = ground (arith, str_le_antisym a b)

-- Less is a strict order: no route is before itself, and a route before one that is before a third is before the third; and of two routes that differ in router, method or path one is before the other.
pub less_lem :
    (a b c : Route)
    → (less a a ≡ false)
      × (less a b ≡ true → less b c ≡ true → less a c ≡ true)
      × ((less a b ≡ true)
          ⊎ (less b a ≡ true)
          ⊎ ((a.router ≡ b.router) × (a.methode ≡ b.methode) × (a.path ≡ b.path)))
unfolding less eqb
less_lem a b c = (
  ground (arith, str_lt_irrefl a.path),
  λ h g. ground (
    arith,
    str_lt_trans a.router b.router c.router,
    str_lt_trans a.methode b.methode c.methode,
    str_lt_trans a.path b.path c.path,
    str_lt_irrefl a.router,
    str_lt_irrefl a.methode,
  ),
  ground (
    arith,
    str_lt_cases a.router b.router,
    str_lt_cases a.methode b.methode,
    str_lt_cases a.path b.path,
  ),
)
