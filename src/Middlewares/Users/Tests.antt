-- ===== src/Middlewares/Users/Tests.antt =====
-- The theorem on passwords at a concrete user.
use droute.Prelude.{◌≡◌, refl, none, [], ◌∷◌, Bytes, codes, bytes_discrete, find}
use droute.Http.{is_upper}
use droute.Router.Match.{eqb}
use droute.Middlewares.Users.{to_lower, HashName, set_pass, validate}
use droute.Middlewares.Users.Passwords.{IsEncoding, validate-set_pass}

-- an encoding that changes nothing, and the same sum for every hash
abbrev same_text : Bytes → Bytes
same_text b = b

abbrev digest : HashName → Bytes
digest h = 7 ∷ []

same_text-IsEncoding : IsEncoding same_text
same_text-IsEncoding = record { injective = λ a b e. e; empty = refl }

accepted : (set_pass same_text digest (codes "catoto") (codes "123") (codes "Sha1") []).1 ≡ none
unfolding set_pass find bytes_discrete to_lower is_upper
accepted = refl

validate-set_pass_example :
    validate same_text digest
      (codes "catoto")
      (codes "124")
      (set_pass same_text digest (codes "catoto") (codes "123") (codes "Sha1") []).0
    ≡ eqb (codes "123") (codes "124")
validate-set_pass_example =
    validate-set_pass same_text digest same_text-IsEncoding (codes "catoto") (codes "123")
      (codes "Sha1") (codes "124") [] accepted
