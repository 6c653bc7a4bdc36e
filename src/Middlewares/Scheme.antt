-- ===== src/Middlewares/Scheme.antt =====
-- middlewares/scheme/scheme.go: Redirect and ChangeProto. Url, UrlSecure and UrlUnsecure of
-- github.com/fcavani/http and http.Redirect are parameters; none is a panic.
pub mod Changing
use droute.Prelude.{
  ℕ, Bool, true, false, not, Option, none, some, [], ◌∷◌, Bytes, codes, if◌then◌else◌,
}
use droute.Http.{HttpWriter}
use droute.ErrHandler.{err_handler}
use droute.Router.Match.{eqb}
use droute.Router.Exchange.{Url}

pub data RedirType : Type 0 where
  to_https to_http dont_care : RedirType

-- an URL, or an error
pub data Parsed : Type 0 where
  parsed : Url → Parsed
  bad : Bytes → Parsed

-- what the code calls for requests R: fhttp.Url, with a root, and UrlSecure and UrlUnsecure, with a port
pub record Urls (R : Type 0) : Type 0 where
  pub url : R → Bytes → Parsed
  pub url_secure : Url → Bytes → Parsed
  pub url_unsecure : Url → Bytes → Parsed
  -- the request with another URL, and without its TLS state if the flag is set
  pub with_url : Url → Bool → R → R
  pub scheme_of : R → Bytes

-- `if root == "/" { root = "" }`
abbrev pub trimmed : Bytes → Bytes
trimmed root = if eqb root (codes "/") then [] else root

-- What becomes of the URL: an error, nil, or the new one
pub data Changed : Type 0 where
  failed : Bytes → Changed
  nil : Changed
  changed : Url → Changed

abbrev pub of_parsed : Parsed → Changed
of_parsed (parsed u) = changed u
of_parsed (bad e) = failed e

module _ {R S : Type 0} (urls : Urls R) (W : HttpWriter S) (err_body : ℕ → Bytes → Bytes) where
  open urls use {url, url_secure, url_unsecure, with_url, scheme_of}

  -- the switch on the type
  abbrev pub new_url : RedirType → Bytes → Url → Changed
  new_url to_https port u = of_parsed (url_secure u port)
  new_url to_http port u = of_parsed (url_unsecure u port)
  new_url dont_care port u = nil

  abbrev pub fail : Bytes → S → S
  fail e s = err_handler W err_body 500 (some e) s

  -- the end of Redirect, for the request's URL and the new one
  abbrev pub redirect_to : (Url → R → S → S) → (R → S → S) → Url → Changed → R → S → Option S
  redirect_to send handler u (failed e) r s = some (fail e s)
  redirect_to send handler u nil r s = none
  redirect_to send handler u (changed v) r s =
      if eqb v.scheme u.scheme then some (handler r s) else some (send v r s)

  abbrev pub redirect_parsed :
      (Url → R → S → S) → RedirType → Bytes → (R → S → S) → Parsed → R → S → Option S
  redirect_parsed send rt port handler (bad e) r s = some (fail e s)
  redirect_parsed send rt port handler (parsed u) r s =
      redirect_to send handler u (new_url rt port u) r s

  -- Redirect; `send` is http.Redirect with 303
  unfoldable pub redirect :
      (Url → R → S → S) → RedirType → Bytes → Bytes → (R → S → S) → R → S → Option S
  redirect send rt root port handler r s =
      redirect_parsed send rt port handler (url r (trimmed root)) r s

  -- the request that ChangeProto hands on
  abbrev pub proto_request : Url → Url → R → R
  proto_request u v r =
      if eqb v.scheme u.scheme
      then r
      else with_url v
          (if eqb (scheme_of r) (codes "https") then eqb v.scheme (codes "http") else false) r

  abbrev pub change_to : (R → S → S) → Url → Changed → R → S → Option S
  change_to handler u (failed e) r s = some (fail e s)
  change_to handler u nil r s = none
  change_to handler u (changed v) r s = some (handler (proto_request u v r) s)

  abbrev pub change_parsed : RedirType → Bytes → (R → S → S) → Parsed → R → S → Option S
  change_parsed rt port handler (bad e) r s = some (fail e s)
  change_parsed rt port handler (parsed u) r s = change_to handler u (new_url rt port u) r s

  -- ChangeProto
  unfoldable pub change_proto : RedirType → Bytes → Bytes → (R → S → S) → R → S → Option S
  change_proto rt root port handler r s = change_parsed rt port handler (url r (trimmed root)) r s
