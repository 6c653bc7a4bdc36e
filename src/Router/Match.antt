-- ===== src/Router/Match.antt =====
-- router/loadbalance.go: matchWildcard and matchNamedParam, on paths as bytes.
pub mod Wildcard
pub mod Named
use droute.Prelude.{
  ℕ, Bool, true, false, not, ◌&&◌, ◌||◌, List, [], ◌∷◌, Bytes, codes, bytes_discrete, ite,
  has_prefix, split, ltb, ◌==◌, length, get_or, if◌then◌else◌, runes_from,
}

abbrev pub root_path : Bytes
root_path = codes "/"

abbrev pub star : Bytes
star = codes "/*"

unfoldable pub eqb : Bytes → Bytes → Bool
unfolding bytes_discrete
eqb a b = ite (bytes_discrete a b) true false

-- `len(s) > 0 && strings.HasPrefix(path, s[0])`
starts_with_first : Bytes → List Bytes → Bool
starts_with_first path [] = false
starts_with_first path (first ∷ _) = has_prefix path first

pub match_wildcard : Bytes → Bytes → Bool
unfolding eqb split starts_with_first has_prefix
match_wildcard path k = if eqb k root_path then false else starts_with_first path (split k star)

-- the loop of `matchNamedParam`, with the comparison that follows it
named_loop : Bytes → Bytes → List (ℕ × ℕ) → Bool
unfolding eqb
named_loop path k [] = eqb path k
named_loop path k ((i, p) ∷ rest) =
    let next = named_loop path k rest in
    if ltb i (length k) && not (p == get_or k i 0) then get_or k i 0 == b':' else next

unfoldable pub match_named_param : Bytes → Bytes → Bool
unfolding eqb named_loop runes_from
match_named_param path k =
    if eqb path [] || eqb k [] then false else named_loop path k (runes_from 0 0 path)
