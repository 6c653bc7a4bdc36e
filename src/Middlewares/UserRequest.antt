-- ===== src/Middlewares/UserRequest.antt =====
-- middlewares/request/request.go: what UserRequest finds in a request, and keeps. The parsers of
-- typeparams, GetUrlQuery and the address of a request are parameters; header values are taken as ASCII.
pub mod Staying
pub mod Zones
mod Tests
use droute.Prelude.{
  ℕ, zero, suc, ◌+◌, ◌-◌, ◌*◌, ℤ, pos, negsuc, times_minus, atoi, quotient, Bool, true, false, ◌&&◌,
  Option, none, some, List, [], ◌∷◌, ◌++◌, Bytes, codes, Map, bytes_discrete, find, ltb, leb, ◌==◌,
  if◌then◌else◌,
}
use droute.Http.{Header, header_get}
use droute.Router.RoundRobin.{contains}
use droute.Middlewares.Users.{to_lower}

-- time.Local, time.UTC, and time.FixedZone with a name and the seconds east of UTC
pub data Location : Type 0 where
  local utc : Location
  fixed : Bytes → ℤ → Location

-- The lists of Config
pub record Config : Type 0 where
  pub accepted_languages : List Bytes
  pub accepted_encoding : List Bytes
  pub accepted_medias : List Bytes
  pub accepted_charsets : List Bytes
  pub default_lang : Bytes

-- The fields of UserRequest that a method fills; "" and nil are fields not filled. The field `ip` only
-- repeats what RemoteIP gives for the request, and is left out, as are the URL and what is parsed from it.
pub record UserRequest : Type 0 where
  pub language : Bytes
  pub charset : Bytes
  pub media : Bytes
  pub encoding : Bytes
  pub timezone : Option Location
  pub localhosts : Bool
  pub localhost_cached : Bool

-- &UserRequest{rc: rc, r: r} of Handler
abbrev pub new_user_request : UserRequest
new_user_request = record {
  language = [];
  charset = [];
  media = [];
  encoding = [];
  timezone = none;
  localhosts = false;
  localhost_cached = false;
}

-- The parsers of getparam with FindBest, where none is an error; CheckTypeParams with the bounds 2 and 6;
-- what Query gives for the request; LookupHost; what IP gives; and strconv.Itoa
pub record Parsers : Type 0 where
  pub best : Bytes → List Bytes → Option Bytes
  pub best_lang : Bytes → List Bytes → Option Bytes
  pub is_param : Bytes → Bool
  pub query : Option (Map Bytes Bytes)
  pub lookup_host : Bytes → Option (List Bytes)
  pub ip : Bytes
  pub digits : ℤ → Bytes
  -- int((float32(minutes)/60.0 - float32(h)) * 60.0)
  pub odd_minutes : ℤ → ℤ

abbrev pub or_blank : Option Bytes → Bytes
or_blank none = []
or_blank (some b) = b

-- the second where the first is ""
abbrev pub filled : Bytes → Bytes → Bytes
filled [] d = d
filled (c ∷ s) d = c ∷ s

abbrev pub read_param : (Bytes → List Bytes → Option Bytes) → Bytes → List Bytes → Bytes
read_param parse [] accepted = []
read_param parse (c ∷ params) accepted = or_blank (parse (to_lower (c ∷ params)) accepted)

-- getparam
unfoldable pub get_param : (Bytes → List Bytes → Option Bytes) → Header → Bytes → List Bytes → Bytes
get_param parse h key accepted = read_param parse (header_get key h) accepted

module _ (parsers : Parsers) where
  open parsers use {is_param, query, digits, odd_minutes, lookup_host, ip}

  abbrev pub minutes_text : ℤ → Bytes
  minutes_text (pos zero) = []
  minutes_text (pos (suc m)) = b':' ∷ digits (pos (suc m))
  minutes_text (negsuc m) = []

  -- the zone of the minutes behind the test of their sign; -2 ^ 63 is negative behind it, too
  abbrev pub fixed_zone : Bytes → ℤ → ℤ → Location
  fixed_zone sign minutes (pos zero) = utc
  fixed_zone sign minutes h =
      fixed (sign ++ (digits h ++ minutes_text (odd_minutes minutes))) (times_minus 60 minutes)

  unfoldable pub zone_of : ℤ → Location
  zone_of (pos n) = fixed_zone (codes "UTC-") (pos n) (quotient (pos n) 60)
  zone_of (negsuc n) =
      let minutes = times_minus 1 (negsuc n) in
      fixed_zone (codes "UTC+") minutes (quotient minutes 60)

  -- timeZoneJS2utc; an error is none
  unfoldable pub time_zone_js_2utc : Bytes → Option Location
  unfolding zone_of
  time_zone_js_2utc tz = elim (atoi tz) [ none ↦ none | some n ↦ some (zone_of n) ]

  -- the value of a query parameter that CheckTypeParams accepts, or ""
  abbrev pub checked_param : Bytes → Bytes
  checked_param [] = []
  checked_param (c ∷ s) = if is_param (c ∷ s) then c ∷ s else []

  abbrev pub query_value : Bytes → Option (Map Bytes Bytes) → Bytes
  query_value key none = []
  query_value key (some q) = checked_param (or_blank (find bytes_discrete key q))

  -- Timezone behind its first test: the field, and the answer, where none is nil. With its error
  -- timeZoneJS2utc gives time.Local, which is kept.
  abbrev pub new_zone : Bytes → Location × Option Location
  new_zone [] = (local, some local)
  new_zone (c ∷ s) = elim (time_zone_js_2utc (c ∷ s)) [
    | none ↦ (local, none)
    | some z ↦ (z, some z)
  ]

  abbrev pub keep_zone : UserRequest → Location × Option Location → UserRequest × Option Location
  keep_zone ur (z, answer) = (record ur { timezone = some z }, answer)

  -- Timezone
  unfoldable pub time_zone : UserRequest → UserRequest × Option Location
  time_zone ur = elim ur.timezone [
    | some z ↦ (ur, some z)
    | none ↦ keep_zone ur (new_zone (query_value (codes "tz") query))
  ]

  -- Whether one of the hosts has the address; none where a name has none
  unfoldable pub any_host : List Bytes → Option Bool
  any_host [] = some false
  any_host (host ∷ hosts) =
      let rest = any_host hosts in
      elim (lookup_host host) [
        | none ↦ none
        | some addrs ↦ if contains ip addrs then some true else rest
      ]

  abbrev pub keep_localhost : UserRequest → Option Bool → UserRequest × Bool
  keep_localhost ur none = (ur, false)
  keep_localhost ur (some b) = (record ur { localhosts = b; localhost_cached = true }, b)

  -- IsLocalhost
  unfoldable pub is_localhost : List Bytes → UserRequest → UserRequest × Bool
  is_localhost hosts ur =
      let asked = keep_localhost ur (any_host hosts) in
      if ur.localhost_cached then (ur, ur.localhosts) else asked

  -- the branches of Language
  abbrev pub choose_language : Bytes → Bytes → Bytes → Bytes → Bytes
  choose_language [] (c ∷ language) from_req default_lang = c ∷ language
  choose_language (c ∷ from_url) language from_req default_lang = c ∷ from_url
  choose_language [] [] (c ∷ from_req) default_lang = c ∷ from_req
  choose_language [] [] [] default_lang = default_lang

  module _ (rc : Config) (h : Header) where
    -- Media, Charset and Encoding
    unfoldable pub media : UserRequest → UserRequest × Bytes
    media ur =
        let m = filled ur.media (get_param parsers.best h (codes "Accept") rc.accepted_medias) in
        (record ur { media = m }, m)

    unfoldable pub charset : UserRequest → UserRequest × Bytes
    charset ur =
        let c =
          filled ur.charset
            (get_param parsers.best h (codes "Accept-Charset") rc.accepted_charsets) in
        (record ur { charset = c }, c)

    unfoldable pub encoding : UserRequest → UserRequest × Bytes
    encoding ur =
        let e =
          filled ur.encoding
            (get_param parsers.best h (codes "Accept-Encoding") rc.accepted_encoding) in
        (record ur { encoding = e }, e)

    -- Language
    unfoldable pub language : UserRequest → UserRequest × Bytes
    language ur =
        let from_req =
          get_param parsers.best_lang h (codes "Accept-Language") rc.accepted_languages in
        let from_url = query_value (codes "lang") query in
        let l = choose_language from_url ur.language from_req rc.default_lang in
        (record ur { language = l }, l)
