-- ===== src/Middlewares/Users/Passwords.antt =====
-- A password that was set is the one that is accepted.
use mathlib.Core.List.{append_cancel_right}
use droute.Prelude.{
  ℕ, ◌≡◌, ◌≢◌, refl, sym, ◌∙◌, Option, none, some, [], ◌∷◌, ◌++◌, Bytes, codes, bytes_discrete, Map,
  find, insert, find-insert, if_pos, arith, inl, inr, Option-cases,
}
use droute.Http.{is_lower, is_upper}
use droute.Router.Match.{eqb}
use droute.Middlewares.Users.{
  lower_byte, upper_byte, to_lower, to_title, HashName, hashes, cut_colon, both_or_empty,
  split_hash, stored_pass, compare_pass, check_pass, set_pass, validate, Users,
}

abbrev NoColon : Bytes → Type 0
NoColon [] = Unit
NoColon (b ∷ s) = (b ≢ b':') × NoColon s

lower-upper : (b : ℕ) → lower_byte (upper_byte b) ≡ lower_byte b
unfolding is_lower is_upper
lower-upper b = ground arith

to_lower-to_title : (s : Bytes) → to_lower (to_title s) ≡ to_lower s
unfolding to_lower to_title
to_lower-to_title [] = refl
to_lower-to_title (b ∷ s) = ground (arith, lower-upper b, to_lower-to_title s)

upper-colon : (b : ℕ) → lower_byte b ≢ b':' → upper_byte b ≢ b':'
unfolding is_lower is_upper
upper-colon b h = ground arith

to_title-NoColon : (s : Bytes) → NoColon (to_lower s) → NoColon (to_title s)
unfolding to_lower to_title
to_title-NoColon [] h = tt
to_title-NoColon (b ∷ s) (n, h) = (upper-colon b n, to_title-NoColon s h)

cut_colon-append : (ht pass : Bytes) → NoColon ht → cut_colon (ht ++ b':' ∷ pass) ≡ some (ht, pass)
unfolding cut_colon
cut_colon-append [] pass h = refl
cut_colon-append (b ∷ ht) pass (n, h) =
    let rest = cut_colon-append ht pass h in rw rest (ground arith)

abbrev AllNoColon : Map Bytes (Option HashName) → Type 0
AllNoColon [] = Unit
AllNoColon ((k, v) ∷ m) = NoColon k × AllNoColon m

find-NoColon :
    (k : Bytes) (v : Option HashName) (m : Map Bytes (Option HashName))
    → AllNoColon m
    → find bytes_discrete k m ≡ some v
    → NoColon k
unfolding find
find-NoColon k v [] all h = ground arith
find-NoColon k v ((j, w) ∷ m) (a, all) h = elim (bytes_discrete j k) [
  | yes same ↦ rw same at a
  | no other ↦ find-NoColon k v m all (ground arith)
]

hashes-AllNoColon : AllNoColon hashes
hashes-AllNoColon = ground arith

-- What is used of base64: distinct data have distinct texts, and only no data have the empty text.
pub record IsEncoding (base64 : Bytes → Bytes) : Type 0 where
  pub injective : (a b : Bytes) → base64 a ≡ base64 b → a ≡ b
  pub empty : base64 [] ≡ []

check_cut :
    (base64 : Bytes → Bytes) (digest : HashName → Bytes) (q ht : Bytes) (b : ℕ) (pass : Bytes)
    (h : Option HashName)
    → ht ≢ []
    → find bytes_discrete (to_lower ht) hashes ≡ some h
    → check_pass base64 digest q (both_or_empty (some (ht, b ∷ pass)))
      ≡ compare_pass base64 digest (b ∷ pass) q h
check_cut base64 digest q [] b pass h n e = absurd (n refl)
check_cut base64 digest q (c ∷ ht) b pass h n e = rw e refl

check_plain :
    (base64 : Bytes → Bytes) (digest : HashName → Bytes) (q : Bytes) (b : ℕ) (pass : Bytes)
    → check_pass base64 digest q (split_hash (codes "PLAIN" ++ b':' ∷ b ∷ pass)) ≡ eqb (b ∷ pass) q
unfolding split_hash cut_colon to_lower is_upper find bytes_discrete
check_plain base64 digest q b pass = refl

module _ (base64 : Bytes → Bytes) (digest : HashName → Bytes) (encoding : IsEncoding base64) where
  compare_encoded : (p q d : Bytes) → eqb (base64 (q ++ d)) (base64 (p ++ d)) ≡ eqb p q
  unfolding eqb
  compare_encoded p q d = elim (bytes_discrete p q) [
    | yes same ↦ rw same (ground arith)
    | no other ↦
        let differs : base64 (q ++ d) ≢ base64 (p ++ d) =
          λ e. other (sym (append_cancel_right q p d (encoding.injective (q ++ d) (p ++ d) e))) in
        ground arith
  ]

  encoded_some : (b : ℕ) (s : Bytes) → base64 (b ∷ s) ≢ []
  encoded_some b s e =
      let none_left = encoding.injective (b ∷ s) [] (e ∙ sym encoding.empty) in absurd (cc)

  to_title-some :
      (kind : Bytes) (h : Option HashName)
      → find bytes_discrete (to_lower kind) hashes ≡ some h
      → to_title kind ≢ []
  unfolding to_lower to_title find bytes_discrete
  to_title-some [] h e = ground arith
  to_title-some (c ∷ kind) h e = λ g. cc

  check_text :
      (q kind t : Bytes) (h : Option HashName)
      → find bytes_discrete (to_lower kind) hashes ≡ some h
      → t ≢ []
      → check_pass base64 digest q (split_hash (to_title kind ++ b':' ∷ t))
        ≡ compare_pass base64 digest t q h
  unfolding split_hash
  check_text q kind [] h e n = absurd (n refl)
  check_text q kind (c ∷ t) h e n =
      let plain =
        to_title-NoColon kind (find-NoColon (to_lower kind) h hashes hashes-AllNoColon e) in
      rw (cut_colon-append (to_title kind) (c ∷ t) plain, split_hash)
        (check_cut base64 digest q (to_title kind) c t h (to_title-some kind h e)
          (rw (to_lower-to_title kind) e))

  check_stored :
      (kind q : Bytes) (b : ℕ) (pass : Bytes) (h : Option HashName)
      → find bytes_discrete (to_lower kind) hashes ≡ some h
      → check_pass base64 digest q (split_hash (stored_pass base64 digest (b ∷ pass) kind h))
        ≡ eqb (b ∷ pass) q
  check_stored kind q b pass none e = check_plain base64 digest q b pass
  check_stored kind q b pass (some n) e =
      check_text q kind (base64 ((b ∷ pass) ++ digest n)) (some n) e
        (encoded_some b (pass ++ digest n))
      ∙ compare_encoded (b ∷ pass) q (digest n)

  -- With a base64 that is one to one and keeps the empty text, after SetPass has set a password without an error, Validate accepts for that user exactly that password, whatever the kind of hash.
  pub validate-set_pass :
      (user pass kind q : Bytes) (u : Users)
      → (set_pass base64 digest user pass kind u).1 ≡ none
      → validate base64 digest user q (set_pass base64 digest user pass kind u).0 ≡ eqb pass q
  unfolding set_pass validate
  validate-set_pass [] pass kind q u e = ground arith
  validate-set_pass (c ∷ user) [] kind q u e = ground arith
  validate-set_pass (c ∷ user) (b ∷ pass) kind q u e =
      elim (Option-cases (find bytes_discrete (to_lower kind) hashes)) [
        | inl absent ↦ absurd (ground arith)
        | inr (h, known) ↦
            let stored = stored_pass base64 digest (b ∷ pass) kind h in
            let held : find bytes_discrete (c ∷ user) (insert bytes_discrete (c ∷ user) stored u)
                ≡ some stored =
              find-insert bytes_discrete (c ∷ user) (c ∷ user) stored u
              ∙ if_pos (bytes_discrete (c ∷ user) (c ∷ user)) refl _ _ in
            rw (known, held, validate, set_pass) (check_stored kind q b pass h known)
      ]
