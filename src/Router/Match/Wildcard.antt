-- ===== src/Router/Match/Wildcard.antt =====
-- What matchWildcard accepts.
use droute.Prelude.{◌≡◌, ◌↔◌, ◌≢◌, true, ◌++◌, Bytes, has_prefix_iff, before, split-before, arith}
use droute.Router.Match.{match_wildcard, root_path, star}

-- matchWildcard accepts a path exactly when the pattern is not "/" and the path begins with the
-- part of the pattern in front of its first "/*", or with the whole pattern if it has no "/*".
pub match_wildcard_iff :
    (path k : Bytes)
    → (match_wildcard path k ≡ true)
      ↔ ((k ≢ root_path) × ((rest : Bytes) × (path ≡ before star k ++ rest)))
unfolding match_wildcard
match_wildcard_iff path k =
    let (parts, e) = split-before k star in
    let (to, from) = has_prefix_iff path (before star k) in
    (λ h. (ground arith, to (ground arith)), λ (other, begins). ground (arith, from begins))
