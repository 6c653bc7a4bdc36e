-- ===== src/Middlewares/BasicAuth/Tests.antt =====
-- The theorem on BasicAuth at a concrete user.
use droute.Prelude.{
  ◌≡◌, ◌⊎◌, refl, none, some, [], ◌∷◌, ◌++◌, Bytes, codes, bytes_discrete, find, Lacks, arith,
  if◌then◌else◌, ◌+◌, ◌-◌, ap, sym, ◌∙◌,
}
use droute.Http.{Header, is_upper}
use droute.ResponseWriter.{response_writer, new_response_writer}
use droute.Router.Match.{eqb}
use droute.Middlewares.Users.{to_lower, HashName, set_pass, validate}
use droute.Middlewares.Users.Passwords.{IsEncoding}
use droute.Middlewares.BasicAuth.{BasicError, is_space, forbid, basic_auth}
use droute.Middlewares.BasicAuth.Credentials.{Decodes, NoSpaces, authorization, basic_auth-set_pass}

-- an encoding that raises every byte by the 33 that no space reaches
unfoldable raised : Bytes → Bytes
raised [] = []
raised (b ∷ s) = (b + 33) ∷ raised s

unfoldable lowered : Bytes → Bytes
lowered [] = []
lowered (b ∷ s) = (b - 33) ∷ lowered s

lowered-raised : (s : Bytes) → lowered (raised s) ≡ s
unfolding lowered raised
lowered-raised [] = refl
lowered-raised (b ∷ s) = ground (arith, lowered-raised s)

raised_spaceless : (s : Bytes) → NoSpaces (raised s)
unfolding raised is_space
raised_spaceless [] = tt
raised_spaceless (b ∷ s) = (ground arith, raised_spaceless s)

raised-Decodes : Decodes raised (λ t. some (lowered t))
raised-Decodes = record {
  decode-encode = λ s. ap some (lowered-raised s);
  spaceless = raised_spaceless;
}

raised-IsEncoding : IsEncoding raised
unfolding raised
raised-IsEncoding = record {
  injective = λ a b e. sym (lowered-raised a) ∙ ap lowered e ∙ lowered-raised b;
  empty = refl;
}

abbrev digest : HashName → Bytes
digest h = 7 ∷ []

accepted : (set_pass raised digest (codes "catoto") (codes "123") (codes "Sha1") []).1 ≡ none
unfolding set_pass find bytes_discrete to_lower is_upper
accepted = refl

no_colon : Lacks b':' (codes "catoto")
no_colon = ground arith

abbrev headers : Header
headers = (codes "Authorization", authorization raised (codes "catoto") (codes "12") ∷ []) ∷ []

headers_there :
    find bytes_discrete (codes "Authorization") headers
    ≡ some (authorization raised (codes "catoto") (codes "12") ∷ [])
unfolding find bytes_discrete
headers_there = refl

basic_auth-set_pass_example :
    let check = λ (name : Bytes) (p : Bytes).
      validate raised digest name p
        (set_pass raised digest (codes "catoto") (codes "123") (codes "Sha1") []).0 in
    let answer =
      basic_auth
        (λ t. some (lowered t))
        response_writer
        (λ code e. e)
        (λ e. [])
        (codes "home")
        check
        (λ w. w)
        headers
        new_response_writer in
    let deny =
      forbid (λ t. some (lowered t)) response_writer (λ code e. e) (λ (e : BasicError). []) in
    (Lacks b':' (codes "12")
      × (answer ≡ (
          if eqb (codes "123") (codes "12")
          then new_response_writer
          else deny (codes "user or password invalid") new_response_writer)))
    ⊎ ((a : Bytes) × (t : Bytes) × (codes "12" ≡ a ++ b':' ∷ t)
        × (answer ≡ deny [] new_response_writer))
basic_auth-set_pass_example =
    basic_auth-set_pass raised (λ t. some (lowered t)) raised-Decodes raised-IsEncoding
      response_writer (λ code e. e) (λ e. []) digest (codes "home") (codes "catoto") (codes "123")
      (codes "Sha1") (codes "12") [] (λ w. w) headers [] new_response_writer accepted no_colon
      headers_there
