-- ===== src/Middlewares/BasicAuth/Credentials.antt =====
-- BasicAuth of a header that a client makes from a user and a password.
use mathlib.Core.List.{append_assoc, append-nil}
use droute.Prelude.{
  ℕ, ◌≡◌, ◌≢◌, ◌⊎◌, inl, inr, refl, sym, ap, ◌∙◌, false, Option, none, some, List, [], ◌∷◌, ◌++◌,
  Bytes, codes, bytes_discrete, find, split, Lacks, split-Lacks, split-first, split-before,
  first_occurrence, arith, if◌then◌else◌,
}
use droute.Http.{Header, HttpWriter}
use droute.Router.Match.{eqb}
use droute.Middlewares.Users.{HashName, Users, set_pass, validate}
use droute.Middlewares.Users.Passwords.{IsEncoding, validate-set_pass}
use droute.Middlewares.BasicAuth.{
  BasicError, credentials, refused, inv_usr_pass, is_space, push_word, fields_from, fields,
  user_and_pass, decoded, of_fields, basic, basic_of, forbid, basic_auth,
}

abbrev pub NoSpaces : Bytes → Type 0
NoSpaces [] = Unit {0}
NoSpaces (b ∷ s) = (is_space b ≡ false) × NoSpaces s

-- What is used of the standard base64: its texts are decoded to what was encoded, and have no spaces.
pub record Decodes (base64 : Bytes → Bytes) (decode64 : Bytes → Option Bytes) : Type 0 where
  pub decode-encode : (s : Bytes) → decode64 (base64 s) ≡ some s
  pub spaceless : (s : Bytes) → NoSpaces (base64 s)

fields_from_word : (w s : Bytes) → NoSpaces s → fields_from w s ≡ push_word (w ++ s) []
unfolding fields_from
fields_from_word w [] h = rw (append-nil w) refl
fields_from_word w (b ∷ s) (n, h) =
    rw (fields_from, n, fields_from_word (w ++ b ∷ []) s h, append_assoc w (b ∷ []) s) refl

fields_basic :
    (s : Bytes) → NoSpaces s → s ≢ [] → fields (codes "Basic " ++ s) ≡ codes "Basic" ∷ s ∷ []
unfolding fields fields_from is_space
fields_basic [] h n = absurd (n refl)
fields_basic (b ∷ s) h n = ap (push_word (codes "Basic")) (fields_from_word [] (b ∷ s) h)

-- the header's value that a client sends
abbrev pub authorization : (Bytes → Bytes) → Bytes → Bytes → Bytes
authorization base64 user q = codes "Basic " ++ base64 (user ++ b':' ∷ q)

module _ (base64 : Bytes → Bytes) (decode64 : Bytes → Option Bytes) (laws : Decodes base64 decode64)
    (encodes : IsEncoding base64) where
  text_some : (user q : Bytes) → base64 (user ++ b':' ∷ q) ≢ []
  text_some user q e = go user (encodes.injective (user ++ b':' ∷ q) [] (e ∙ sym encodes.empty))
    where
      go : (u : Bytes) → u ++ b':' ∷ q ≡ [] → ⊥
      go [] h = ground arith
      go (b ∷ u) h = ground arith

  basic-split :
      (user q : Bytes) (more : List Bytes)
      → Lacks b':' user
      → basic decode64 (authorization base64 user q ∷ more)
        ≡ user_and_pass decode64 (user ∷ split q (codes ":"))
  unfolding basic eqb
  basic-split user q more h =
      ap (of_fields decode64) (
        fields_basic (base64 (user ++ b':' ∷ q)) (laws.spaceless (user ++ b':' ∷ q))
          (text_some user q))
      ∙ ap (decoded decode64) (laws.decode-encode (user ++ b':' ∷ q))
      ∙ ap (user_and_pass decode64) (split-first b':' user q h)

  basic_cases :
      (user q : Bytes) (more : List Bytes)
      → Lacks b':' user
      → (Lacks b':' q × (basic decode64 (authorization base64 user q ∷ more) ≡ credentials user q))
        ⊎ ((a : Bytes) × (t : Bytes) × (q ≡ a ++ b':' ∷ t)
            × (basic decode64 (authorization base64 user q ∷ more) ≡ refused inv_usr_pass))
  basic_cases user q more h = elim (first_occurrence b':' q) [
    | inl lacks ↦ inl (
      lacks,
      basic-split user q more h
          ∙ ap (λ l. user_and_pass decode64 (user ∷ l)) (split-Lacks b':' q lacks),
    )
    | inr (a, t, e, front) ↦
        let (rest, two) = split-before t (codes ":") in
        inr (
          a,
          t,
          e,
          basic-split user q more h
              ∙ ap (λ l. user_and_pass decode64 (user ∷ l))
                  (ap (λ x. split x (codes ":")) e
                    ∙ split-first b':' a t front
                    ∙ ap (λ l. a ∷ l) two),
        )
  ]

  -- For a base64 as documented: after SetPass has set a user's password without an error, let a request
  -- carry the Authorization header of the user, whose name has no colon, and a password q. If q has no
  -- colon, BasicAuth runs the handler if q is the password, and answers 403 otherwise. If q has a
  -- colon, it answers 403 for an invalid pair, whatever the password is.
  pub basic_auth-set_pass :
      {S : Type 0} (W : HttpWriter S) (err_body : ℕ → Bytes → Bytes) (err_text : BasicError → Bytes)
      (digest : HashName → Bytes) (realm user pass kind q : Bytes) (u : Users) (handler : S → S)
      (h : Header) (more : List Bytes) (s : S)
      → (set_pass base64 digest user pass kind u).1 ≡ none
      → Lacks b':' user
      → find bytes_discrete (codes "Authorization") h ≡ some (authorization base64 user q ∷ more)
      → let check = λ (name : Bytes) (p : Bytes).
        validate base64 digest name p (set_pass base64 digest user pass kind u).0 in
        let answer = basic_auth decode64 W err_body err_text realm check handler h s in
        let deny = forbid decode64 W err_body err_text in
        (Lacks b':' q
          × (answer
              ≡ (if eqb pass q then handler s else deny (codes "user or password invalid") s)))
        ⊎ ((a : Bytes) × (t : Bytes) × (q ≡ a ++ b':' ∷ t)
            × (answer ≡ deny (err_text inv_usr_pass) s))
  unfolding basic_auth basic_of
  basic_auth-set_pass W err_body err_text digest realm user pass kind q u handler h more s done name
        there =
      let check = λ (name : Bytes) (p : Bytes).
        validate base64 digest name p (set_pass base64 digest user pass kind u).0 in
      elim (basic_cases user q more name) [
        | inl (lacks, e) ↦ inl (
          lacks,
          rw
              (
                basic_auth,
                basic_of,
                there,
                e,
                validate-set_pass base64 digest encodes user pass kind q u done,
              )
              refl,
        )
        | inr (a, t, e, bad) ↦ inr (a, t, e, rw (basic_auth, basic_of, there, bad) refl)
      ]
