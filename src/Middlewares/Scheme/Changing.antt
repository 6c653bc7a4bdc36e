-- ===== src/Middlewares/Scheme/Changing.antt =====
-- When Redirect and ChangeProto return.
use droute.Prelude.{ℕ, ◌≡◌, ◌⊎◌, inl, inr, refl, none, some, Bytes}
use droute.Http.{HttpWriter}
use droute.Router.Exchange.{Url}
use droute.Middlewares.Scheme.{
  dont_care, Parsed, parsed, bad, Urls, trimmed, fail, redirect, change_proto,
}

module _ {R S : Type 0} (urls : Urls R) (W : HttpWriter S) (err_body : ℕ → Bytes → Bytes)
    (send : Url → R → S → S) (handler : R → S → S) (root port : Bytes) where
  -- Redirect and ChangeProto with DontCare panic for every request whose URL can be found, and answer all
  -- others with an error 500.
  pub dont_care_panics :
      (r : R) (s : S)
      → ((u : Url) × (urls.url r (trimmed root) ≡ parsed u)
          × (redirect urls W err_body send dont_care root port handler r s ≡ none)
          × (change_proto urls W err_body dont_care root port handler r s ≡ none))
        ⊎ ((e : Bytes) × (urls.url r (trimmed root) ≡ bad e)
            × (redirect urls W err_body send dont_care root port handler r s
                ≡ some (fail urls W err_body e s))
            × (change_proto urls W err_body dont_care root port handler r s
                ≡ some (fail urls W err_body e s)))
  unfolding redirect change_proto
  dont_care_panics r s = go (urls.url r (trimmed root)) refl
    where
      go :
          (p : Parsed)
          → urls.url r (trimmed root) ≡ p
          → ((u : Url) × (urls.url r (trimmed root) ≡ parsed u)
              × (redirect urls W err_body send dont_care root port handler r s ≡ none)
              × (change_proto urls W err_body dont_care root port handler r s ≡ none))
            ⊎ ((e : Bytes) × (urls.url r (trimmed root) ≡ bad e)
                × (redirect urls W err_body send dont_care root port handler r s
                    ≡ some (fail urls W err_body e s))
                × (change_proto urls W err_body dont_care root port handler r s
                    ≡ some (fail urls W err_body e s)))
      go (parsed u) e = inl (u, e, rw (redirect, e) refl, rw (change_proto, e) refl)
      go (bad x) e = inr (x, e, rw (redirect, e) refl, rw (change_proto, e) refl)
