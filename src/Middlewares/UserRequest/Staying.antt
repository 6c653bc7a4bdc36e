-- ===== src/Middlewares/UserRequest/Staying.antt =====
-- UserRequest gives the same answer each time it is asked.
use droute.Prelude.{◌≡◌, refl, List, [], ◌∷◌, Bytes, codes, inl, inr, Option-cases, Bool-cases}
use droute.Http.{Header}
use droute.Middlewares.UserRequest.{
  Config, UserRequest, Parsers, filled, choose_language, get_param, query_value, any_host,
  is_localhost, media, charset, encoding, language,
}

filled-filled : (s d : Bytes) → filled (filled s d) d ≡ filled s d
filled-filled [] [] = refl
filled-filled [] (c ∷ d) = refl
filled-filled (c ∷ s) d = refl

module _ (p : Parsers) where
  choose-choose :
      (from_url language from_req default_lang : Bytes)
      → choose_language p from_url
          (choose_language p from_url language from_req default_lang)
          from_req
          default_lang
        ≡ choose_language p from_url language from_req default_lang
  choose-choose (c ∷ u) [] r d = refl
  choose-choose (c ∷ u) (x ∷ l) r d = refl
  choose-choose [] (c ∷ l) r d = refl
  choose-choose [] [] (c ∷ r) d = refl
  choose-choose [] [] [] [] = refl
  choose-choose [] [] [] (c ∷ d) = refl

  localhost-again :
      (hosts : List Bytes) (ur : UserRequest)
      → (is_localhost p hosts (is_localhost p hosts ur).0).1 ≡ (is_localhost p hosts ur).1
  unfolding is_localhost
  localhost-again hosts ur = elim (Bool-cases ur.localhost_cached) [
    | inl kept ↦ rw (is_localhost, kept) refl
    | inr asked ↦ elim (Option-cases (any_host p hosts)) [
      | inl lost ↦ rw (is_localhost, asked, lost) refl
      | inr (b, known) ↦ rw (is_localhost, asked, known) refl
    ]
  ]

  -- Media, Charset, Encoding, Language and IsLocalhost give the same answer when they are called a second
  -- time as when they are called the first time.
  pub answers_stay :
      (rc : Config) (h : Header) (hosts : List Bytes) (ur : UserRequest)
      → ((media p rc h (media p rc h ur).0).1 ≡ (media p rc h ur).1)
        × ((charset p rc h (charset p rc h ur).0).1 ≡ (charset p rc h ur).1)
        × ((encoding p rc h (encoding p rc h ur).0).1 ≡ (encoding p rc h ur).1)
        × ((language p rc h (language p rc h ur).0).1 ≡ (language p rc h ur).1)
        × ((is_localhost p hosts (is_localhost p hosts ur).0).1 ≡ (is_localhost p hosts ur).1)
  unfolding media charset encoding language
  answers_stay rc h hosts ur = (
    filled-filled ur.media _,
    filled-filled ur.charset _,
    filled-filled ur.encoding _,
    choose-choose (query_value p (codes "lang") p.query) ur.language
        (get_param p.best_lang h (codes "Accept-Language") rc.accepted_languages) rc.default_lang,
    localhost-again hosts ur,
  )
